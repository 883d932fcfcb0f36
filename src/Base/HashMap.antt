-- ===== src/Base/HashMap.antt =====
-- `std::collections::HashMap` with strings for keys: the list of its entries in the order in which
-- it is iterated. Rust leaves that order open; the lemmas speak of every list with distinct keys.
use mathlib.Core.Path.{◌≡◌, refl}
use mathlib.Core.Logic.{◌≢◌, inl, inr}
use mathlib.Core.List.{List, [], ◌∷◌}
use mathlib.Core.Option.{Option, none, some}
use native.Mathlib.Omega.{arith}
use squirreldb.Base.Core.{if◌then◌else◌, Bool-cases}
use squirreldb.Base.Texts.{Text, text_eq, text_eq_iff, text_eq_refl}

module _ {ℓ} {V : Type ℓ} where
  -- `get`, and what `get_mut` finds.
  unfoldable pub get : Text → List (Text × V) → Option V
  get k [] = none
  get k ((j, v) ∷ m) = if text_eq j k then some v else get k m

  -- `insert`; what is written through a reference of `get_mut` is an `insert` at a present key.
  unfoldable pub insert : Text → V → List (Text × V) → List (Text × V)
  insert k v [] = (k, v) ∷ []
  insert k v ((j, w) ∷ m) = if text_eq j k then (k, v) ∷ m else (j, w) ∷ insert k v m

  unfoldable pub remove : Text → List (Text × V) → List (Text × V)
  remove k [] = []
  remove k ((j, v) ∷ m) = if text_eq j k then m else (j, v) ∷ remove k m

  unfoldable pub keys : List (Text × V) → List Text
  keys [] = []
  keys ((k, v) ∷ m) = k ∷ keys m

  unfoldable pub values : List (Text × V) → List V
  values [] = []
  values ((k, v) ∷ m) = v ∷ values m

  unfoldable pub IsUnique : List (Text × V) → Type ℓ
  IsUnique [] = Unit
  IsUnique ((k, v) ∷ m) = (get k m ≡ none) × IsUnique m

  pub get-insert :
      (k j : Text) (v : V) (m : List (Text × V))
      → get j (insert k v m) ≡ (if text_eq k j then some v else get j m)
  unfolding get insert
  get-insert k j v [] = refl
  get-insert k j v ((i, w) ∷ m) =
      ground (arith, text_eq_iff k j, text_eq_iff i k, text_eq_iff i j, get-insert k j v m)

  pub get-insert_self : (k : Text) (v : V) (m : List (Text × V)) → get k (insert k v m) ≡ some v
  get-insert_self k v m = simp (get-insert, text_eq_refl)

  pub get-insert_ne :
      (k j : Text) (v : V) (m : List (Text × V)) → k ≢ j → get j (insert k v m) ≡ get j m
  get-insert_ne k j v m h = rw get-insert (ground (arith, text_eq_iff k j))

  pub get-remove_ne : (k j : Text) (m : List (Text × V)) → k ≢ j → get j (remove k m) ≡ get j m
  unfolding get remove
  get-remove_ne k j [] h = refl
  get-remove_ne k j ((i, w) ∷ m) h =
      ground (arith, text_eq_iff i k, text_eq_iff i j, get-remove_ne k j m h)

  pub get-remove_self : (k : Text) (m : List (Text × V)) → IsUnique m → get k (remove k m) ≡ none
  unfolding get remove IsUnique
  get-remove_self k [] u = refl
  get-remove_self k ((i, w) ∷ m) (h, u) = ground (arith, text_eq_iff i k, get-remove_self k m u)

  pub get-remove-none :
      (k j : Text) (m : List (Text × V)) → get j m ≡ none → get j (remove k m) ≡ none
  unfolding get remove
  get-remove-none k j [] h = refl
  get-remove-none k j ((i, w) ∷ m) h = ground (arith, get-remove-none k j m)

  pub insert-IsUnique :
      (k : Text) (v : V) (m : List (Text × V)) → IsUnique m → IsUnique (insert k v m)
  unfolding get insert IsUnique
  insert-IsUnique k v [] u = (refl, tt)
  insert-IsUnique k v ((i, w) ∷ m) (h, u) =
      ground (arith, text_eq_iff i k, text_eq_iff k i, get-insert k i v m, insert-IsUnique k v m u)

  pub remove-IsUnique : (k : Text) (m : List (Text × V)) → IsUnique m → IsUnique (remove k m)
  unfolding get remove IsUnique
  remove-IsUnique k [] u = tt
  remove-IsUnique k ((i, w) ∷ m) (h, u) =
      ground (arith, get-remove-none k i m h, remove-IsUnique k m u)

  pub get-remove :
      (k j : Text) (m : List (Text × V))
      → IsUnique m
      → get j (remove k m) ≡ (if text_eq k j then none else get j m)
  get-remove k j m u = elim (Bool-cases (text_eq k j)) [
    | inl same ↦ rw same (rw (← (text_eq_iff k j).0 same) (get-remove_self k m u))
    | inr other ↦ rw other (get-remove_ne k j m (λ e. cc ((text_eq_iff k j).1 e)))
  ]
