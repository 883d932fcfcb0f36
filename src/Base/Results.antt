-- ===== src/Base/Results.antt =====
-- Rust's `Result`, and its operator `?`.
use mathlib.Core.Path.{◌≡◌, refl, subst}
use mathlib.Core.List.{List, [], ◌∷◌}
use squirreldb.Base.Lists.{All}

pub data Result {ε σ} (F : Type ε) (S : Type σ) : Type (ε ⊔ σ) where
  err : F → Result F S
  ok : S → Result F S

module _ {ε} {E : Type ε} where
  module _ {σ τ} {S : Type σ} {T : Type τ} where
    infixl 5 ◌>>=◌
    abbrev pub ◌>>=◌ : Result E S → (S → Result E T) → Result E T
    err x >>= next = err x
    ok s >>= next = next s

    -- What a successful chain has done.
    pub >>=-eq-ok :
        (first : Result E S) (next : S → Result E T) {t : T}
        → first >>= next ≡ ok t
        → (s : S) × (first ≡ ok s) × (next s ≡ ok t)
    >>=-eq-ok (err x) next reached = cc
    >>=-eq-ok (ok s) next reached = (s, refl, reached)

  pub ok_inj {σ} : {S : Type σ} (s s' : S) → ◌≡◌ {A = Result E S} (ok s) (ok s') → s ≡ s'
  ok_inj s s' same = cc

  -- What holds of everything that a last step builds holds of the result.
  pub built {ℓ κ μ} :
      {A : Type ℓ} {B : Type κ} (P : B → Type μ) (m : Result E A) (build : A → B) {b : B}
      → ((a : A) → m ≡ ok a → P (build a))
      → (m >>= (λ a. ok (build a))) ≡ ok b
      → P b
  built P m build keeps h =
      let (a, done, e) = >>=-eq-ok m (λ a. ok (build a)) h in subst P (ok_inj _ _ e) (keeps a done)

  -- `iter().map(f).collect::<Result<Vec<_>, _>>()`
  abbrev pub collect {ℓ κ} :
      {A : Type ℓ} {B : Type κ} → (A → Result E B) → List A → Result E (List B)
  collect f [] = ok []
  collect f (a ∷ l) = f a >>= (λ b. collect f l >>= (λ bs. ok (b ∷ bs)))

  -- What holds of every result of a step holds of all that were collected.
  pub collect-All {ℓ κ μ} :
      {A : Type ℓ} {B : Type κ} (P : B → Type μ) (f : A → Result E B)
      → ((a : A) (b : B) → f a ≡ ok b → P b)
      → (l : List A) (bs : List B) → collect f l ≡ ok bs
      → All P bs
  collect-All P f h [] bs e = subst (All P) (ok_inj _ _ e) tt
  collect-All P f h (a ∷ l) bs e =
      let (b, one, e') = >>=-eq-ok (f a) _ e in
      let (cs, rest, e'') = >>=-eq-ok (collect f l) _ e' in
      subst (All P) (ok_inj _ _ e'') (h a b one, collect-All P f h l cs rest)
