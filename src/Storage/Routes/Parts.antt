-- ===== src/Storage/Routes/Parts.antt =====
-- crates/sqrld/src/storage/routes/multipart.rs: the list of parts in a request, and its checks. What
-- the crate regex captures in the request, pairs of a number and a tag, is a parameter.
use squirreldb.Base.{
  ◌==◌, ℕ, ℤ, pos, negsuc, Text, lit, leb, Bool, true, false, none, some, List, [], ◌∷◌,
  if◌then◌else◌,
}
use squirreldb.Base.Results.{Result, ok, err, ◌>>=◌}
use squirreldb.Storage.Codes
use squirreldb.Storage.Error.{StorageError, new_error}
use squirreldb.Storage.Types.{CompletedPart, trim_start_matches}
use squirreldb.Storage.Responses.{parse_i32}

-- `(1..=10000).contains(&part_number)`
unfoldable pub is_part_number : ℤ → Bool
is_part_number (pos ℕ.zero) = false
is_part_number (pos (ℕ.suc n)) = leb (ℕ.suc n) 10000
is_part_number (negsuc n) = false

abbrev pub completed_part : Text × Text → Result StorageError CompletedPart
completed_part (number, etag) = elim (parse_i32 number) [
  | none ↦ err (new_error Codes.malformed_xml (lit "Invalid part number"))
  | some n ↦ ok (record { part_number = n; etag = etag })
]

-- The loop over the captures.
unfoldable pub completed_parts : List (Text × Text) → Result StorageError (List CompletedPart)
completed_parts [] = ok []
completed_parts (cap ∷ caps) = do
  part ← completed_part cap
  rest ← completed_parts caps
  ok (part ∷ rest)

abbrev pub refuse_empty : List CompletedPart → Result StorageError (List CompletedPart)
refuse_empty [] = err (new_error Codes.malformed_xml (lit "No parts specified in request"))
refuse_empty (p ∷ ps) = ok (p ∷ ps)

unfoldable pub parse_complete_multipart_request :
    (Text → List (Text × Text)) → Text → Result StorageError (List CompletedPart)
unfolding completed_parts
parse_complete_multipart_request captures doc = completed_parts (captures doc) >>= refuse_empty

-- `trim_matches` of a character.
abbrev pub trim_end_matches : ℕ → Text → Text
trim_end_matches e [] = []
trim_end_matches e (c ∷ cs) =
    let rest = trim_end_matches e cs in
    elim rest [ [] ↦ if c == e then [] else c ∷ [] | d ∷ ds ↦ c ∷ d ∷ ds ]

unfoldable pub trim_matches : ℕ → Text → Text
unfolding trim_start_matches
trim_matches e t = trim_end_matches e (trim_start_matches e t)

-- `a <= b` on `i32`
abbrev pub le_int : ℤ → ℤ → Bool
le_int (pos a) (pos b) = leb a b
le_int (pos a) (negsuc b) = false
le_int (negsuc a) (pos b) = true
le_int (negsuc a) (negsuc b) = leb b a

-- The loop that verifies the order, with its variable.
unfoldable pub verify_order : ℤ → List CompletedPart → Result StorageError (Unit {0})
verify_order prev [] = ok tt
verify_order prev (cp ∷ cps) =
    let rest = verify_order cp.part_number cps in
    if le_int cp.part_number prev
    then err (new_error Codes.invalid_part_order (lit "Parts must be in ascending order"))
    else rest
