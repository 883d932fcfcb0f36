-- ===== src/Sql/Compiler/Shorter.antt =====
-- What an expression is cut into is shorter than the expression.
use Prim.Native.Nat.{zero, suc}
use squirreldb.Base.{
  ◌<◌, ◌≤◌, ◌+◌, ◌-◌, ℕ, ◌≡◌, inl, inr, arith, Text, length, take, drop, is_empty, All, false, ◌&&◌,
  ◌==◌, Bool-cases, List, [], ◌∷◌, leb,
}
use mathlib.Core.Path.{subst}
use squirreldb.Base.Int.{ℤ}
use squirreldb.Base.Strings.{trim, trim_start, trim_end, starts_with}
use squirreldb.Sql.Compiler.Outcomes.{yes}
use squirreldb.Sql.Compiler.Values.{slice}
use squirreldb.Sql.Compiler.Parts.{cut_parts, depth_up, depth_down, is_zero}
use squirreldb.Sql.Compiler.Chains.{>>=-eq-yes, yes_inj}

length-trim_start : (t : Text) → length (trim_start t) ≤ length t
unfolding trim_start
length-trim_start [] = ground arith
length-trim_start (c ∷ cs) = ground (arith, length-trim_start cs)

length-trim_end : (t : Text) → length (trim_end t) ≤ length t
unfolding trim_end
length-trim_end [] = ground arith
length-trim_end (c ∷ cs) = ground (arith, length-trim_end cs)

pub length-trim : (t : Text) → length (trim t) ≤ length t
unfolding trim
length-trim t = ground (arith, length-trim_start t, length-trim_end (trim_start t))

length-take : (n : ℕ) (t : Text) → length (take n t) ≤ n
length-take zero t = ground arith
length-take (suc n) [] = ground arith
length-take (suc n) (c ∷ cs) = ground (arith, length-take n cs)

pub length-drop : (n : ℕ) (t : Text) → length (drop n t) ≡ length t - n
length-drop zero t = ground arith
length-drop (suc n) [] = ground arith
length-drop (suc n) (c ∷ cs) = ground (arith, length-drop n cs)

pub length-slice :
    (s : Text) (from to : ℕ) (t : Text)
    → slice s from to ≡ yes t
    → (from ≤ to) × (length t ≤ to - from)
unfolding slice
length-slice s from to t h = elim (Bool-cases (leb from to)) [
  | inl le ↦ (
    ground arith,
    subst (λ t. length t ≤ to - from) (yes_inj _ _ (rw (le) at h))
        (length-take (to - from) (drop from s)),
  )
  | inr gt ↦ cc
]

-- Every part is shorter than the bound, and the rest begins behind the start when there is a part.
abbrev pub IsCut : ℕ → ℕ → List Text × ℕ → Type 0
IsCut bound last (parts, l) =
    All (λ p. length p < bound) parts × (0 < last → 0 < l) × (is_empty parts ≡ false → 0 < l)

pub cut_parts-IsCut :
    (op expr rest : Text) (depth : ℤ) (at last bound : ℕ) (r : List Text × ℕ)
    → 0 < length op
    → at + length rest ≤ bound
    → cut_parts op expr rest depth at last ≡ yes r
    → IsCut bound last r
unfolding cut_parts
cut_parts-IsCut op expr [] depth at last bound r o h e =
    subst (IsCut bound last) (yes_inj _ _ e) (tt, λ p. p, λ f. cc)
cut_parts-IsCut op expr (c ∷ cs) depth at last bound r o h e =
    let h' : (at + 1) + length cs ≤ bound = ground arith in
    elim (Bool-cases (c == b'(')) [
      | inl opened ↦
          cut_parts-IsCut op expr cs (depth_up depth) (at + 1) last bound r o h'
            (rw (opened, cut_parts) at e)
      | inr b ↦ elim (Bool-cases (c == b')')) [
        | inl closed ↦
            cut_parts-IsCut op expr cs (depth_down depth) (at + 1) last bound r o h'
              (rw (b, closed, cut_parts) at e)
        | inr d ↦ elim (Bool-cases (is_zero depth && starts_with (c ∷ cs) op)) [
          | inl found ↦
              let (part, cut, e') =
                >>=-eq-yes (slice expr last at) _ (rw (b, d, found, cut_parts) at e) in
              let ((parts, l), behind, e'') =
                >>=-eq-yes (cut_parts op expr cs depth (at + 1) (at + length op)) _ e' in
              let (short, later, more) =
                cut_parts-IsCut op expr cs depth (at + 1) (at + length op) bound (parts, l) o h'
                  behind in
              subst (IsCut bound last) (yes_inj _ _ e'') (
                (ground (arith, length-slice expr last at part cut, length-trim part), short),
                λ p. later (ground arith),
                λ p. later (ground arith),
              )
          | inr other ↦
              cut_parts-IsCut op expr cs depth (at + 1) last bound r o h'
                (rw (b, d, other, cut_parts) at e)
        ]
      ]
    ]
