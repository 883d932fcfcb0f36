-- ===== src/Subscriptions/Counts.antt =====
-- How often an entry stands in the index, after each change of it.
use squirreldb.Base.{
  ℕ, ◌+◌, ◌≡◌, inl, inr, refl, sym, ◌∙◌, ap, arith, Text, text_eq, text_eq_iff, ◌==◌, Bool, true,
  false, ◌&&◌, ◌||◌, Bool-cases, Option, none, some, Option-cases, List, [], ◌∷◌, ◌++◌, is_empty,
  if◌then◌else◌,
}
use squirreldb.Base.HashMap
use squirreldb.Sql.Filter.{QuerySpec}
use squirreldb.Subscriptions.{
  Uuid, Entry, SubscriptionManager, or_default, write_client, write_collection, find, without,
  unindex, unindex_all,
}

-- How often an entry stands in a list.
unfoldable pub count : Uuid → Text → List Entry → ℕ
count c id [] = 0
count c id ((d, s) ∷ es) = (if d == c && text_eq s id then 1 else 0) + count c id es

-- Whether a subscription is one to the collection.
abbrev pub is_for : Text → Option QuerySpec → Bool
is_for t (some query) = text_eq query.table t
is_for t none = false

-- Each subscription stands once in the index, at its collection, and nothing else does.
abbrev pub IsIndexed : {N : Type 0} → SubscriptionManager N → Type 0
IsIndexed m =
    ((c : Uuid) → HashMap.IsUnique (or_default (m.subs c)))
    × ((c : Uuid) (id t : Text)
        → count c id (or_default (m.collection_index t))
          ≡ (if is_for t (find c id m.subs) then 1 else 0))

pub count-append :
    (c : Uuid) (id : Text) (xs ys : List Entry)
    → count c id (xs ++ ys) ≡ count c id xs + count c id ys
unfolding count
count-append c id [] ys = ground arith
count-append c id ((d, s) ∷ xs) ys = ground (arith, count-append c id xs ys)

pub count-without :
    (c d : Uuid) (id s : Text) (es : List Entry)
    → count c id (without d s es) ≡ (if d == c && text_eq s id then 0 else count c id es)
unfolding count without
count-without c d id s [] = ground arith
count-without c d id s ((e, r) ∷ es) =
    ground (arith, count-without c d id s es, text_eq_iff s id, text_eq_iff r s, text_eq_iff r id)

pub or_default-kept : (es : List Entry) → or_default (if is_empty es then none else some es) ≡ es
or_default-kept [] = refl
or_default-kept (e ∷ es) = refl

pub count-unindex :
    (c d : Uuid) (id s table t : Text) (index : Text → Option (List Entry))
    → count c id (or_default (unindex d s table index t)) ≡ (
        if text_eq table t && (d == c && text_eq s id)
        then 0
        else count c id (or_default (index t)))
unfolding unindex count
count-unindex c d id s table t index = elim (Bool-cases (text_eq table t)) [
  | inl same ↦
      let there : index t ≡ index table = ap index (sym ((text_eq_iff table t).0 same)) in
      elim (Option-cases (index table)) [
        | inl no_entries ↦ rw (no_entries, same, there, no_entries, unindex) (ground arith)
        | inr (es, found) ↦
            rw (found, same, there, found, unindex)
              (rw (or_default-kept (without d s es)) (count-without c d id s es))
      ]
  | inr other ↦ elim (Option-cases (index table)) [
    | inl no_entries ↦ rw (no_entries, other, unindex) refl
    | inr (es, found) ↦ rw (found, other, unindex) refl
  ]
]

-- Whether the list has a subscription with this id and collection.
unfoldable pub has : Text → Text → List (Text × QuerySpec) → Bool
has id t [] = false
has id t ((s, query) ∷ l) = (text_eq s id && text_eq query.table t) || has id t l

pub count-unindex_all :
    (c d : Uuid) (id t : Text) (l : List (Text × QuerySpec)) (index : Text → Option (List Entry))
    → count c id (or_default (unindex_all d l index t))
      ≡ (if d == c && has id t l then 0 else count c id (or_default (index t)))
unfolding unindex_all has
count-unindex_all c d id t [] index = ground arith
count-unindex_all c d id t ((s, query) ∷ l) index = ground (
  arith,
  count-unindex_all c d id t l (unindex d s query.table index),
  count-unindex c d id s query.table t index,
)

pub has-get :
    (id t : Text) (l : List (Text × QuerySpec))
    → is_for t (HashMap.get id l) ≡ true
    → has id t l ≡ true
unfolding has HashMap.get
has-get id t [] h = cc
has-get id t ((s, query) ∷ l) h = ground (arith, has-get id t l)

-- What is found and counted when a subscription was added.
module _ (client : Uuid) (id : Text) (query : QuerySpec)
    (subs : Uuid → Option (List (Text × QuerySpec))) (c : Uuid) (s : Text) where
  pub find_added :
      find c s
        (write_client client (some (HashMap.insert id query (or_default (subs client)))) subs)
      ≡ (if client == c && text_eq id s then some query else find c s subs)
  unfolding find
  find_added = elim (Bool-cases (client == c)) [
    | inl same ↦
        let is : client ≡ c = ground arith in
        rw (same) (
          HashMap.get-insert id s query (or_default (subs client))
          ∙ ap (λ k. if text_eq id s then some query else HashMap.get s (or_default (subs k))) is)
    | inr other ↦ rw (other) refl
  ]

  pub find_removed :
      HashMap.IsUnique (or_default (subs client))
      → find c s (write_client client (some (HashMap.remove id (or_default (subs client)))) subs)
        ≡ (if client == c && text_eq id s then none else find c s subs)
  unfolding find
  find_removed unique = elim (Bool-cases (client == c)) [
    | inl same ↦
        let is : client ≡ c = ground arith in
        rw (same) (
          HashMap.get-remove id s (or_default (subs client)) unique
          ∙ ap (λ k. if text_eq id s then none else HashMap.get s (or_default (subs k))) is)
    | inr other ↦ rw (other) refl
  ]

  -- The same client and the same id find the same.
  pub find_same : client == c && text_eq id s ≡ true → find c s subs ≡ find client id subs
  unfolding find
  find_same same =
      let is : (client ≡ c) × (id ≡ s) = ground (arith, text_eq_iff id s) in rw (is.0, is.1) refl

pub count_added :
    (client c : Uuid) (id s table t : Text) (index : Text → Option (List Entry))
    → count c s (
        or_default
          (write_collection table (some (or_default (index table) ++ ((client, id) ∷ []))) index t))
      ≡ count c s (or_default (index t))
        + (if text_eq table t && (client == c && text_eq id s) then 1 else 0)
unfolding count
count_added client c id s table t index = elim (Bool-cases (text_eq table t)) [
  | inl same ↦
      let there : index t ≡ index table = ap index (sym ((text_eq_iff table t).0 same)) in
      rw (same, there)
        (ground (arith, count-append c s (or_default (index table)) ((client, id) ∷ [])))
  | inr other ↦ rw (other) (ground arith)
]
