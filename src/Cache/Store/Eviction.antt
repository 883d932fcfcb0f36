-- ===== src/Cache/Store/Eviction.antt =====
-- What the loop of `evict_for_space` keeps.
use squirreldb.Base.{
  ℕ, zero, suc, ◌+◌, ◌-◌, ◌%◌, ◌≡◌, inl, inr, refl, arith, Text, Option, some, List, not, ◌&&◌, ltb,
  is_empty, length, Bool-cases, Option-cases,
}
use squirreldb.Base.HashMap
use squirreldb.Base.HashMap.{remove-IsUnique}
use squirreldb.Cache.Entry.{Clock, word}
use squirreldb.Cache.Store.{
  InMemoryCacheStore, key_to_evict, evict_round, evict_loop, make_room, evict_for_space,
}
use squirreldb.Cache.Store.Accounting.{total, total-remove, IsConsistent}

module _ {N : Type 0} (choose : ℕ → List Text → Option Text) (c : Clock) where
  -- What a part of the loop keeps between a store and a later one, having freed so many bytes.
  pub record LoopKept (s s' : InMemoryCacheStore N) (before after : ℕ) : Type 0 where
    pub unique : HashMap.IsUnique s'.entries
    pub memory_same : s'.memory_used ≡ s.memory_used
    pub limit_same : s'.memory_limit ≡ s.memory_limit
    pub freed_sum : (after + total s'.entries) % word ≡ (before + total s.entries) % word

  evict_round-Kept :
      (draw : ℕ) (s s' : InMemoryCacheStore N) (size freed : ℕ)
      → evict_round choose c draw s ≡ some (size, s')
      → HashMap.IsUnique s.entries
      → LoopKept s s' freed ((freed + size) % word)
  unfolding evict_round
  evict_round-Kept draw s s' size freed e u =
      elim (Option-cases (key_to_evict choose draw s.eviction_policy s.entries)) [
        | inl n ↦ ground arith
        | inr (key, k) ↦ ground (arith, total-remove key s.entries, remove-IsUnique key s.entries u)
      ]

  pub evict_loop-Kept :
      (to_free fuel draw freed : ℕ) (s : InMemoryCacheStore N)
      → HashMap.IsUnique s.entries
      → LoopKept s
          (evict_loop choose c to_free fuel draw freed s).1
          freed
          (evict_loop choose c to_free fuel draw freed s).0
  unfolding evict_loop
  evict_loop-Kept to_free zero draw freed s u = record {
    unique = u;
    memory_same = refl;
    limit_same = refl;
    freed_sum = refl;
  }
  evict_loop-Kept to_free (suc fuel) draw freed s u =
      elim (Bool-cases (ltb freed to_free && not (is_empty s.entries))) [
        | inr stop ↦
            rw (stop, evict_loop)
              (record { unique = u; memory_same = refl; limit_same = refl; freed_sum = refl })
        | inl go ↦
            rw (go, evict_loop)
              (elim (Option-cases (evict_round choose c draw s)) [
                | inl none_left ↦
                    rw none_left (record {
                      unique = u;
                      memory_same = refl;
                      limit_same = refl;
                      freed_sum = refl;
                    })
                | inr ((size, s'), e) ↦ rw e (
                    let step = evict_round-Kept draw s s' size freed e u in
                    let rest =
                      evict_loop-Kept to_free fuel (suc draw) ((freed + size) % word) s'
                        step.unique in
                    ground (arith, step, rest))
              ])
      ]

  make_room-IsConsistent :
      (to_free : ℕ) (s : InMemoryCacheStore N)
      → IsConsistent s
      → IsConsistent (make_room choose c to_free s).1
  unfolding make_room
  make_room-IsConsistent to_free s h =
      let kept = evict_loop-Kept to_free (length s.entries) 0 0 s h.unique in ground (arith, kept)

  -- Eviction keeps the keys distinct and the used memory the sum of the sizes.
  pub evict_for_space-IsConsistent :
      (needed : ℕ) (s : InMemoryCacheStore N)
      → IsConsistent s
      → IsConsistent (evict_for_space choose c needed s).1
  unfolding evict_for_space
  evict_for_space-IsConsistent needed s h =
      ground (arith, make_room-IsConsistent ((s.memory_used + needed) % word - s.memory_limit) s h)
