-- ===== src/Sql/Compiler/Termination.antt =====
-- The recursion of the compiler of expressions comes to its end: the fuel is never used up.
use Prim.Native.Nat.{zero, suc}
use squirreldb.Base.{
  ◌<◌, ◌≤◌, ◌-◌, ℕ, ◌≡◌, refl, ap, arith, Text, lit, length, drop, is_empty, All, Bool, true, false,
  ◌&&◌, List, [], ◌∷◌, ◌++◌, if◌then◌else◌,
}
use squirreldb.Base.Int.{pos}
use squirreldb.Base.Strings.{trim, starts_with, ends_with_char, join}
use squirreldb.Sql.Dialect.{SqlDialect}
use squirreldb.Sql.Compiler.Outcomes.{Outcome, panic, no, yes, ◌>>=◌, otherwise, collect}
use squirreldb.Sql.Compiler.Values.{slice}
use squirreldb.Sql.Compiler.Parts.{cut_parts}
use squirreldb.Sql.Compiler.Shorter.{length-trim, length-drop, length-slice, cut_parts-IsCut}
use squirreldb.Sql.Compiler

-- Steps that agree on what comes before them.
>>=-cong {ℓ κ} :
    {A : Type ℓ} {B : Type κ} (m : Outcome A) (f g : A → Outcome B)
    → ((a : A) → m ≡ yes a → f a ≡ g a)
    → (m >>= f) ≡ (m >>= g)
>>=-cong panic f g h = refl
>>=-cong no f g h = refl
>>=-cong (yes a) f g h = h a refl

if-cong {ℓ} :
    {A : Type ℓ} (b : Bool) (m m' n n' : A)
    → m ≡ m'
    → (b ≡ false → n ≡ n')
    → (if b then m else n) ≡ (if b then m' else n')
if-cong true m m' n n' e h = e
if-cong false m m' n n' e h = h refl

otherwise-cong {ℓ} :
    {A : Type ℓ} (m m' n n' : Outcome A) → m ≡ m' → n ≡ n' → otherwise m n ≡ otherwise m' n'
otherwise-cong m m' n n' e k = rw (e, k) refl

module _ (f g : Text → Outcome Text) (bound : ℕ)
    (agree : (t : Text) → length t < bound → f t ≡ g t) where
  snoc_short :
      (l : List Text) (t : Text)
      → All (λ t. length t < bound) l
      → length t < bound
      → All (λ t. length t < bound) (l ++ (t ∷ []))
  snoc_short [] t h k = (k, tt)
  snoc_short (u ∷ l) t h k = (h.0, snoc_short l t h.1 k)

  -- A list with a short text in it.
  some_short : (l : List Text) → All (λ t. length t < bound) l → is_empty l ≡ false → 0 < bound
  some_short [] h e = cc
  some_short (t ∷ l) h e = ground arith

  collect-cong : (l : List Text) → All (λ t. length t < bound) l → collect f l ≡ collect g l
  collect-cong [] h = refl
  collect-cong (t ∷ l) h = rw (agree t h.0, collect-cong l h.1) refl

  module _ (is_alphanumeric : ℕ → Bool) (to_uppercase : Text → Text) (dialect : SqlDialect) where
    split_cong :
        (expr js_op sql_op : Text)
        → 0 < length js_op
        → length expr ≤ bound
        → Compiler.try_split_logical is_alphanumeric to_uppercase dialect f expr js_op sql_op
          ≡ Compiler.try_split_logical is_alphanumeric to_uppercase dialect g expr js_op sql_op
    unfolding Compiler.try_split_logical
    split_cong expr js_op sql_op o le =
        >>=-cong (cut_parts js_op expr expr (pos 0) 0 0) _ _ (λ (parts, last) cut.
          let (short, later, more) =
            cut_parts-IsCut js_op expr expr (pos 0) 0 0 bound (parts, last) o (ground arith) cut in
          if-cong (is_empty parts) no no _ _ refl (λ some.
            ap (λ m. m >>= (λ sqls. yes (join (lit " " ++ (sql_op ++ lit " ")) sqls)))
              (collect-cong (parts ++ (trim (drop last expr) ∷ [])) (
                snoc_short parts (trim (drop last expr)) short (
                  ground (
                    arith,
                    more some,
                    some_short parts short some,
                    length-trim (drop last expr),
                    length-drop last expr,
                  ))))))

    step_cong :
        (param text : Text)
        → length text ≤ bound
        → Compiler.expression_step is_alphanumeric to_uppercase dialect f param text
          ≡ Compiler.expression_step is_alphanumeric to_uppercase dialect g param text
    unfolding Compiler.expression_step
    step_cong param text le =
        let expr = trim text in
        let le' : length expr ≤ bound = ground (arith, length-trim text) in
        if-cong (starts_with expr (lit "(") && ends_with_char b')' expr) _ _ _ _
          (ap (λ m. m >>= (λ s. yes (lit "(" ++ (s ++ lit ")"))))
            (>>=-cong (slice expr 1 (length expr - 1)) f g (λ inner cut.
              agree inner (ground (arith, length-slice expr 1 (length expr - 1) inner cut)))))
          (λ h. otherwise-cong _ _ _ _ (split_cong expr (lit "||") (lit "OR") (ground arith) le') (
            otherwise-cong _ _ _ _ (split_cong expr (lit "&&") (lit "AND") (ground arith) le')
              refl))

module _ (is_alphanumeric : ℕ → Bool) (to_uppercase : Text → Text) (dialect : SqlDialect) where
  -- Any fuel beyond the length of the text gives the same, whatever running out of it comes to.
  compile_within-cong :
      (exhausted exhausted' : Outcome Text) (fuel fuel' : ℕ) (param text : Text)
      → length text < fuel
      → length text < fuel'
      → Compiler.compile_within is_alphanumeric to_uppercase dialect exhausted fuel param text
        ≡ Compiler.compile_within is_alphanumeric to_uppercase dialect exhausted' fuel' param text
  unfolding Compiler.compile_within
  compile_within-cong m m' zero fuel' param text h k = ground arith
  compile_within-cong m m' (suc fuel) zero param text h k = ground arith
  compile_within-cong m m' (suc fuel) (suc fuel') param text h k =
      step_cong (Compiler.compile_within is_alphanumeric to_uppercase dialect m fuel param)
        (Compiler.compile_within is_alphanumeric to_uppercase dialect m' fuel' param) (length text)
        (λ t short. compile_within-cong m m' fuel fuel' param t (ground arith) (ground arith))
        is_alphanumeric to_uppercase dialect param text (ground arith)

  -- The compiler of expressions, which recurs on parts of the text, comes to its end on every text:
  -- with more levels than the text has characters, what running out of them would come to plays no
  -- part, be it a result, a failure or a panic, and neither does the number of levels; and the
  -- compiler satisfies the equation of the recursion without fuel.
  pub compile_expression_lem :
      (exhausted : Outcome Text) (fuel : ℕ) (param text : Text)
      → length text < fuel
      → (Compiler.compile_within is_alphanumeric to_uppercase dialect exhausted fuel param text
          ≡ Compiler.compile_expression is_alphanumeric to_uppercase dialect param text)
        × (Compiler.compile_expression is_alphanumeric to_uppercase dialect param text
            ≡ Compiler.expression_step is_alphanumeric to_uppercase dialect
                (Compiler.compile_expression is_alphanumeric to_uppercase dialect param)
                param
                text)
  unfolding Compiler.compile_expression Compiler.compile_within
  compile_expression_lem exhausted fuel param text enough = (
    compile_within-cong exhausted no fuel (suc (length text)) param text enough (ground arith),
    step_cong (Compiler.compile_within is_alphanumeric to_uppercase dialect no (length text) param)
        (Compiler.compile_expression is_alphanumeric to_uppercase dialect param) (length text)
        (λ t short.
          compile_within-cong no no (length text) (suc (length t)) param t short (ground arith))
        is_alphanumeric to_uppercase dialect param text (ground arith),
  )
