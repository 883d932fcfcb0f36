-- ===== src/Storage/Actions.antt =====
-- How crates/sqrld/src/storage runs: each call changes the world `W` of the database and of the
-- files, and comes to a value, to an error that is answered, or to a panic of the task.
use squirreldb.Base.{Text, ◌≡◌, refl, Option, none, some, Bool, if◌then◌else◌}
use squirreldb.Base.Results.{Result, ok, err}
use squirreldb.Storage.Error.{StorageError, internal_error}

pub data Fault : Type 0 where
  error : StorageError → Fault
  panicked : Fault

abbrev pub Action : Type 0 → Type 0 → Type 0
Action W A = W → Result Fault A × W

module _ {W : Type 0} where
  abbrev pub pure : {A : Type 0} → A → Action W A
  pure a w = (ok a, w)

  abbrev pub throw : {A : Type 0} → StorageError → Action W A
  throw e w = (err (error e), w)

  abbrev pub panic : {A : Type 0} → Action W A
  panic w = (err panicked, w)

  abbrev pub continue : {A B : Type 0} → Result Fault A × W → (A → Action W B) → Result Fault B × W
  continue (err e, w) next = (err e, w)
  continue (ok a, w) next = next a w

  infixl 5 ◌>>=◌
  abbrev pub ◌>>=◌ : {A B : Type 0} → Action W A → (A → Action W B) → Action W B
  first >>= next = λ w. continue (first w) next

  abbrev pub from_anyhow : {A : Type 0} → Result Text A × W → Result Fault A × W
  from_anyhow (err message, w) = (err (error (internal_error message)), w)
  from_anyhow (ok a, w) = (ok a, w)

  -- `?` on a call of the database or of the file system: its error becomes an internal one.
  abbrev pub lift : {A : Type 0} → (W → Result Text A × W) → Action W A
  lift call = λ w. from_anyhow (call w)

  -- `ok_or_else(…)?`
  abbrev pub required : {A : Type 0} → StorageError → Option A → Action W A
  required e none = throw e
  required e (some a) = pure a

  -- `let _ = …`, which drops an error and passes a panic on.
  abbrev pub ignored : {A : Type 0} → Result Fault A × W → Result Fault (Unit {0}) × W
  ignored (err (error e), w) = (ok tt, w)
  ignored (err panicked, w) = (err panicked, w)
  ignored (ok a, w) = (ok tt, w)

  abbrev pub ignore : {A : Type 0} → Action W A → Action W (Unit {0})
  ignore call = λ w. ignored (call w)

  -- `if guard { return Err(e) }`
  abbrev pub refuse_if : Bool → StorageError → Action W (Unit {0})
  refuse_if guard e = if guard then throw e else pure tt

  -- What a chain that comes to a value has done.
  continue-eq-ok :
      {A B : Type 0} (r : Result Fault A × W) (next : A → Action W B) {b : B} {w' : W}
      → continue r next ≡ (ok b, w')
      → (a : A) × (u : W) × (r ≡ (ok a, u)) × (next a u ≡ (ok b, w'))
  continue-eq-ok (err e, u) next h = cc
  continue-eq-ok (ok a, u) next h = (a, u, refl, h)

  pub >>=-eq-ok :
      {A B : Type 0} (first : Action W A) (next : A → Action W B) {b : B} {w w' : W}
      → (first >>= next) w ≡ (ok b, w')
      → (a : A) × (u : W) × (first w ≡ (ok a, u)) × (next a u ≡ (ok b, w'))
  >>=-eq-ok first next {w = w} h = continue-eq-ok (first w) next h

  from_anyhow-eq-ok :
      {A : Type 0} (r : Result Text A × W) {a : A} {w' : W}
      → from_anyhow r ≡ (ok a, w')
      → r ≡ (ok a, w')
  from_anyhow-eq-ok (err e, u) h = cc
  from_anyhow-eq-ok (ok a, u) h = cc

  pub lift-eq-ok :
      {A : Type 0} (call : W → Result Text A × W) {a : A} {w w' : W}
      → lift call w ≡ (ok a, w')
      → call w ≡ (ok a, w')
  lift-eq-ok call {w = w} h = from_anyhow-eq-ok (call w) h

  pub required-eq-ok :
      {A : Type 0} (e : StorageError) (o : Option A) {a : A} {w w' : W}
      → required e o w ≡ (ok a, w')
      → (o ≡ some a) × (w ≡ w')
  required-eq-ok e none h = cc
  required-eq-ok e (some b) h = (cc, cc)

  pub refuse_if-eq-ok :
      (guard : Bool) (e : StorageError) {w w' : W}
      → refuse_if guard e w ≡ (ok tt, w')
      → (guard ≡ Bool.false) × (w ≡ w')
  refuse_if-eq-ok Bool.true e h = cc
  refuse_if-eq-ok Bool.false e h = (refl, cc)
