-- ===== src/Sql/Compiler/Parts.antt =====
-- crates/sqrld/src/query/compiler.rs: where an expression is cut at an operator.
use Prim.Native.Nat.{zero, suc}
use squirreldb.Base.{
  ℕ, ◌+◌, Text, ◌==◌, Bool, true, false, ◌&&◌, List, [], ◌∷◌, length, if◌then◌else◌,
}
use squirreldb.Base.Int.{ℤ, pos, negsuc}
use squirreldb.Base.Strings.{starts_with, trim}
use squirreldb.Sql.Compiler.Outcomes.{Outcome, yes, ◌>>=◌}
use squirreldb.Sql.Compiler.Values.{slice}

abbrev pub depth_up : ℤ → ℤ
depth_up (pos n) = pos (n + 1)
depth_up (negsuc zero) = pos 0
depth_up (negsuc (suc n)) = negsuc n

abbrev pub depth_down : ℤ → ℤ
depth_down (pos zero) = negsuc 0
depth_down (pos (suc n)) = pos n
depth_down (negsuc n) = negsuc (n + 1)

abbrev pub is_zero : ℤ → Bool
is_zero (pos zero) = true
is_zero _ = false

-- The loop of `try_split_logical` over the rest of the text: the parts that were cut off, and where
-- the last of them begins.
unfoldable pub cut_parts : Text → Text → Text → ℤ → ℕ → ℕ → Outcome (List Text × ℕ)
unfolding slice trim starts_with
cut_parts op expr [] depth at last = yes ([], last)
cut_parts op expr (c ∷ cs) depth at last =
    let deeper = cut_parts op expr cs (depth_up depth) (at + 1) last in
    let higher = cut_parts op expr cs (depth_down depth) (at + 1) last in
    let next = cut_parts op expr cs depth (at + 1) last in
    let behind = cut_parts op expr cs depth (at + 1) (at + length op) in
    if c == b'('
    then deeper
    else if c == b')'
    then higher
    else if is_zero depth && starts_with (c ∷ cs) op
    then (slice expr last at >>= (λ part. behind >>= (λ (parts, l). yes (trim part ∷ parts, l))))
    else next
