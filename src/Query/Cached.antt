-- ===== src/Query/Cached.antt =====
-- What the cache of results answers, and what a write makes it forget.
use squirreldb.Base.{
  Text, text_eq, text_eq_iff, Bool, true, false, ◌||◌, none, List, [], ◌∷◌, ◌≡◌, ◌≢◌, refl, sym, ap,
  ◌∙◌, Bool-cases, inl, inr, arith, filter,
}
use mathlib.Core.Path.{subst}
use squirreldb.Query.Externals.{LruCache, LruCacheLaws, is_among}
use squirreldb.Query.Pool.{QueryEnginePool, CachedResult, references, pop_all, invalidate_table}

module _ {C V : Type 0} {lru : LruCache C V} (laws : LruCacheLaws lru) where
  -- What is not found stays so.
  pop_all-none :
      (ks : List Text) (k : Text) (c : C)
      → laws.find k c ≡ none
      → laws.find k (pop_all lru ks c) ≡ none
  pop_all-none [] k c h = h
  pop_all-none (j ∷ ks) k c h = pop_all-none ks k (lru.pop j c) (elim (Bool-cases (text_eq k j)) [
    | inl same ↦
        subst (λ i. laws.find k (lru.pop i c) ≡ none) ((text_eq_iff k j).0 same)
          (laws.find-pop_self k c)
    | inr other ↦ laws.find-pop_ne k j c (λ e. ground (arith, text_eq_iff k j)) ∙ h
  ])

  pop_all-among :
      (ks : List Text) (k : Text) (c : C)
      → is_among k ks ≡ true
      → laws.find k (pop_all lru ks c) ≡ none
  pop_all-among [] k c h = absurd (ground arith)
  pop_all-among (j ∷ ks) k c h = elim (Bool-cases (text_eq j k)) [
    | inl same ↦ pop_all-none ks k (lru.pop j c) (
        subst (λ i. laws.find k (lru.pop i c) ≡ none) (sym ((text_eq_iff j k).0 same))
          (laws.find-pop_self k c))
    | inr other ↦ pop_all-among ks k (lru.pop j c) (rw other at h)
  ]

  pop_all-other :
      (ks : List Text) (k : Text) (c : C)
      → is_among k ks ≡ false
      → laws.find k (pop_all lru ks c) ≡ laws.find k c
  pop_all-other [] k c h = refl
  pop_all-other (j ∷ ks) k c h =
      pop_all-other ks k (lru.pop j c) (ground arith)
      ∙ laws.find-pop_ne k j c (λ e. ground (arith, text_eq_iff j k))

-- Filtering by a test keeps the texts that pass it, and no other.
module _ (p : Text → Bool) (k : Text) where
  apart : (j : Text) (a b : Bool) → p j ≡ a → p k ≡ b → a ≢ b → text_eq j k ≡ false
  apart j a b at_j at_k n = elim (Bool-cases (text_eq j k)) [
    | inl same ↦ absurd (n (sym at_j ∙ ap p ((text_eq_iff j k).0 same) ∙ at_k))
    | inr other ↦ other
  ]

  is_among-filter : (ks : List Text) → p k ≡ true → is_among k (filter p ks) ≡ is_among k ks
  is_among-filter [] h = refl
  is_among-filter (j ∷ ks) h = elim (Bool-cases (p j)) [
    | inl passes ↦ rw (passes, filter) (ap (λ b. text_eq j k || b) (is_among-filter ks h))
    | inr fails ↦
        rw (fails, filter, apart j false true fails h (λ e. ground arith)) (is_among-filter ks h)
  ]

  is_among-filter_not : (ks : List Text) → p k ≡ false → is_among k (filter p ks) ≡ false
  is_among-filter_not [] h = refl
  is_among-filter_not (j ∷ ks) h = elim (Bool-cases (p j)) [
    | inl passes ↦
        rw (passes, filter, apart j true false passes h (λ e. ground arith))
          (is_among-filter_not ks h)
    | inr fails ↦ rw (fails, filter) (is_among-filter_not ks h)
  ]

module _ {P C N : Type 0} (results : LruCache C (CachedResult N))
    (laws : LruCacheLaws results) where
  -- Behind a write to a table, no result of a query that names it in quotes is found, and every other
  -- result is found as before.
  pub invalidate_table_lem :
      (table key : Text) (pool : QueryEnginePool P C)
      → (references table key ≡ true
          → laws.find key (invalidate_table results table pool).result_cache ≡ none)
        × (references table key ≡ false
            → laws.find key (invalidate_table results table pool).result_cache
              ≡ laws.find key pool.result_cache)
  unfolding invalidate_table
  invalidate_table_lem table key pool = (
    (λ named. elim (Bool-cases (is_among key (results.keys pool.result_cache))) [
      | inl present ↦
          pop_all-among laws (filter (references table) (results.keys pool.result_cache)) key
            pool.result_cache (is_among-filter (references table) key _ named ∙ present)
      | inr absent ↦
          pop_all-none laws (filter (references table) (results.keys pool.result_cache)) key
            pool.result_cache (laws.find-keys key pool.result_cache absent)
    ]),
    (λ other.
        pop_all-other laws (filter (references table) (results.keys pool.result_cache)) key
          pool.result_cache (is_among-filter_not (references table) key _ other)),
  )
