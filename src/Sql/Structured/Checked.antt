-- ===== src/Sql/Structured/Checked.antt =====
-- Results that are safe texts, and how they are joined.
use mathlib.Core.Path.{subst}
use squirreldb.Base.{
  All, ◌≡◌, refl, Text, lit, Bool, true, false, List, [], ◌∷◌, ◌++◌, if◌then◌else◌,
}
use squirreldb.Base.Results.{Result, ok, err, ◌>>=◌, >>=-eq-ok, ok_inj}
use squirreldb.Base.Strings.{join}
use squirreldb.Sql.Sanitize.{SqlSanitizeError}
use squirreldb.Sql.Scan.{scan, IsSafe, around-IsSafe, join-IsSafe}
use squirreldb.Sql.Structured.{CompileError, Compiled, checked, bool_text, join_conditions}

-- A text that is made only when something holds, which makes it safe.
abbrev pub IsSafeResult : Compiled → Type 0
IsSafeResult m = (sql : Text) → m ≡ ok sql → IsSafe sql

pub ok-IsSafe : (t : Text) → IsSafe t → IsSafeResult (ok t)
ok-IsSafe t h sql e = subst IsSafe (ok_inj t sql e) h

pub err-IsSafe : (x : CompileError) → IsSafeResult (err x)
err-IsSafe x sql e = cc

pub checked-eq-ok {ℓ} :
    {A : Type ℓ} (m : Result SqlSanitizeError A) (a : A) → checked m ≡ ok a → m ≡ ok a
checked-eq-ok (ok b) a h = cc
checked-eq-ok (err x) a h = cc

-- A step that a check precedes.
pub checked-IsSafe {ℓ} :
    {A : Type ℓ} (m : Result SqlSanitizeError A) (f : A → Compiled)
    → ((a : A) → m ≡ ok a → IsSafeResult (f a))
    → IsSafeResult (checked m >>= f)
checked-IsSafe m f h sql e =
    let (a, done, e') = >>=-eq-ok (checked m) f e in h a (checked-eq-ok m a done) sql e'

pub bool_text-IsSafe : (b : Bool) → IsSafe (bool_text b)
unfolding scan
bool_text-IsSafe true = refl
bool_text-IsSafe false = refl

pub in_open-IsSafe : (negate : Bool) → IsSafe (if negate then lit " NOT IN (" else lit " IN (")
unfolding scan
in_open-IsSafe true = refl
in_open-IsSafe false = refl

pub joined_parts-IsSafe :
    (sep : Text) (parts : List Text)
    → IsSafe sep
    → All IsSafe parts
    → IsSafe (lit "(" ++ (join sep parts ++ lit ")"))
unfolding scan
joined_parts-IsSafe sep parts h k =
    around-IsSafe (lit "(") (join sep parts) (lit ")") refl (join-IsSafe sep parts h k) refl

pub join_conditions-IsSafe : (parts : List Text) → All IsSafe parts → IsSafe (join_conditions parts)
unfolding scan
join_conditions-IsSafe [] h = refl
join_conditions-IsSafe (part ∷ []) h = h.0
join_conditions-IsSafe (part ∷ q ∷ parts) h =
    joined_parts-IsSafe (lit " AND ") (part ∷ q ∷ parts) refl h
