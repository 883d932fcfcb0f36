-- ===== src/Sql/Compiler/Chains.antt =====
-- Chains of steps that give safe texts.
use mathlib.Core.Path.{subst}
use squirreldb.Base.{
  All, ◌≡◌, refl, Text, Bool, true, false, Option, none, some, List, [], ◌∷◌, if◌then◌else◌,
}
use squirreldb.Base.Results.{Result, ok, err}
use squirreldb.Sql.Sanitize.{Check}
use squirreldb.Sql.Scan.{IsSafe}
use squirreldb.Sql.Compiler.Outcomes.{
  Outcome, panic, no, yes, ◌>>=◌, otherwise, success, is_ok, collect, first,
}

-- A text that is made only in a safe way.
abbrev pub IsSafeOutcome : Outcome Text → Type 0
IsSafeOutcome m = (t : Text) → m ≡ yes t → IsSafe t

pub yes_inj {ℓ} : {A : Type ℓ} (a b : A) → ◌≡◌ {A = Outcome A} (yes a) (yes b) → a ≡ b
yes_inj a b e = cc

pub yes-IsSafe : (s : Text) → IsSafe s → IsSafeOutcome (yes s)
yes-IsSafe s h t e = subst IsSafe (yes_inj s t e) h

pub no-IsSafe : IsSafeOutcome no
no-IsSafe t e = cc

pub panic-IsSafe : IsSafeOutcome panic
panic-IsSafe t e = cc

-- What a chain that gives a result has done.
pub >>=-eq-yes {ℓ κ} :
    {A : Type ℓ} {B : Type κ} (m : Outcome A) (f : A → Outcome B) {b : B}
    → (m >>= f) ≡ yes b
    → (a : A) × (m ≡ yes a) × (f a ≡ yes b)
>>=-eq-yes (yes a) f h = (a, refl, h)
>>=-eq-yes no f h = cc
>>=-eq-yes panic f h = cc

pub >>=-IsSafe {ℓ} :
    {A : Type ℓ} (m : Outcome A) (f : A → Outcome Text)
    → ((a : A) → m ≡ yes a → IsSafeOutcome (f a))
    → IsSafeOutcome (m >>= f)
>>=-IsSafe m f h t e = let (a, done, e') = >>=-eq-yes m f e in h a done t e'

pub otherwise-IsSafe :
    (m n : Outcome Text) → IsSafeOutcome m → IsSafeOutcome n → IsSafeOutcome (otherwise m n)
otherwise-IsSafe panic n h k = h
otherwise-IsSafe no n h k = k
otherwise-IsSafe (yes a) n h k = h

pub if-IsSafe :
    (b : Bool) (m n : Outcome Text)
    → (b ≡ true → IsSafeOutcome m)
    → IsSafeOutcome n
    → IsSafeOutcome (if b then m else n)
if-IsSafe true m n h k = h refl
if-IsSafe false m n h k = k

pub elim-IsSafe {ℓ} :
    {A : Type ℓ} (o : Option A) (f : A → Outcome Text) (m : Outcome Text)
    → ((a : A) → o ≡ some a → IsSafeOutcome (f a))
    → IsSafeOutcome m
    → IsSafeOutcome (elim o [ some a ↦ f a | none ↦ m ])
elim-IsSafe none f m h k = k
elim-IsSafe (some a) f m h k = h a refl

pub outcome-IsSafe {ℓ} :
    {A : Type ℓ} (o : Outcome A) (f : A → Outcome Text) (m : Outcome Text)
    → ((a : A) → IsSafeOutcome (f a))
    → IsSafeOutcome m
    → IsSafeOutcome (elim o [ yes a ↦ f a | no ↦ m | panic ↦ panic ])
outcome-IsSafe panic f m h k = panic-IsSafe
outcome-IsSafe no f m h k = k
outcome-IsSafe (yes a) f m h k = h a

pub first-IsSafe {ℓ} :
    {A : Type ℓ} (f : A → Outcome Text)
    → ((a : A) → IsSafeOutcome (f a))
    → (l : List A) → IsSafeOutcome (first f l)
first-IsSafe f h [] = no-IsSafe
first-IsSafe f h (a ∷ l) = otherwise-IsSafe (f a) (first f l) (h a) (first-IsSafe f h l)

-- What holds of every result of a step holds of all that were collected.
pub collect-All {ℓ} :
    {A : Type ℓ} (f : A → Outcome Text)
    → ((a : A) → IsSafeOutcome (f a))
    → (l : List A) (ts : List Text) → collect f l ≡ yes ts
    → All IsSafe ts
collect-All f h [] ts e = subst (All IsSafe) (yes_inj _ _ e) tt
collect-All f h (a ∷ l) ts e =
    let (t, one, e') = >>=-eq-yes (f a) _ e in
    let (us, rest, e'') = >>=-eq-yes (collect f l) _ e' in
    subst (All IsSafe) (yes_inj _ _ e'') (h a t one, collect-All f h l us rest)

pub success-eq-yes {ℓ κ} :
    {E : Type ℓ} {A : Type κ} (m : Result E A) (a : A) → success m ≡ yes a → m ≡ ok a
success-eq-yes (ok b) a h = cc
success-eq-yes (err x) a h = cc

pub is_ok-eq-ok : (m : Check) → is_ok m ≡ true → m ≡ ok tt
is_ok-eq-ok (ok tt) h = refl
is_ok-eq-ok (err x) h = cc
