-- ===== src/Sql/Compiler/Outcomes.antt =====
-- What a function of crates/sqrld/src/query/compiler.rs comes to.
use squirreldb.Base.{Bool, true, false, List, [], ◌∷◌}
use squirreldb.Base.Results.{Result, ok, err}

-- What a step comes to: a panic, `None` or `Some`.
pub data Outcome {ℓ} (A : Type ℓ) : Type ℓ where
  panic no : Outcome A
  yes : A → Outcome A

infixl 5 ◌>>=◌
abbrev pub ◌>>=◌ {ℓ κ} : {A : Type ℓ} {B : Type κ} → Outcome A → (A → Outcome B) → Outcome B
panic >>= f = panic
no >>= f = no
yes a >>= f = f a

-- `if let Some(..) = m { return .. }`, with what follows it.
abbrev pub otherwise {ℓ} : {A : Type ℓ} → Outcome A → Outcome A → Outcome A
otherwise panic m = panic
otherwise no m = m
otherwise (yes a) m = yes a

-- `.ok()`
abbrev pub success {ℓ κ} : {E : Type ℓ} {A : Type κ} → Result E A → Outcome A
success (ok a) = yes a
success (err e) = no

abbrev pub is_ok {ℓ κ} : {E : Type ℓ} {A : Type κ} → Result E A → Bool
is_ok (ok a) = true
is_ok (err e) = false

-- `collect` into an `Option`: the first step that fails is the last.
abbrev pub collect {ℓ κ} : {A : Type ℓ} {B : Type κ} → (A → Outcome B) → List A → Outcome (List B)
collect f [] = yes []
collect f (a ∷ l) = f a >>= (λ b. collect f l >>= (λ bs. yes (b ∷ bs)))

-- A loop that returns at the first yes, or at a panic.
abbrev pub first {ℓ κ} : {A : Type ℓ} {B : Type κ} → (A → Outcome B) → List A → Outcome B
first f [] = no
first f (a ∷ l) = otherwise (f a) (first f l)
