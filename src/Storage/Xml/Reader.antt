-- ===== src/Storage/Xml/Reader.antt =====
-- A reader of XML documents, by which the documents of crates/sqrld/src/storage are judged: it keeps
-- the open elements, replaces the five predefined entities, and gives the elements that hold text
-- with their values.
use squirreldb.Base.{
  false, ℕ, Text, lit, text_eq, Bool, ◌&&◌, ◌||◌, Option, none, some, List, [], ◌∷◌, ◌++◌, ◌==◌,
  if◌then◌else◌,
}

-- An element's name and its text.
abbrev pub Leaf : Type 0
Leaf = Text × Text

-- Between tags: the open elements, innermost first, the text since the last tag, and the values so
-- far. In a tag or in an entity: also what stands there so far.
pub data State : Type 0 where
  broken : State
  content : List Text → Text → List Leaf → State
  tag entity : List Text → Text → List Leaf → Text → State

-- The elements that hold other elements.
abbrev pub containers : List Text
containers =
    lit "Error"
    ∷ lit "ListAllMyBucketsResult"
    ∷ lit "Owner"
    ∷ lit "Buckets"
    ∷ lit "ListBucketResult"
    ∷ lit "Contents"
    ∷ lit "CommonPrefixes"
    ∷ lit "DeleteResult"
    ∷ lit "Deleted"
    ∷ lit "InitiateMultipartUploadResult"
    ∷ lit "CompleteMultipartUploadResult"
    ∷ lit "ListPartsResult"
    ∷ lit "Part"
    ∷ lit "ListMultipartUploadsResult"
    ∷ lit "Upload"
    ∷ lit "CopyObjectResult"
    ∷ lit "VersioningConfiguration"
    ∷ lit "AccessControlPolicy"
    ∷ lit "AccessControlList"
    ∷ lit "Grant"
    ∷ lit "Grantee"
    ∷ lit "LifecycleConfiguration"
    ∷ lit "Rule"
    ∷ lit "Expiration"
    ∷ lit "NoncurrentVersionExpiration"
    ∷ []

abbrev pub mem : Text → List Text → Bool
mem t [] = false
mem t (u ∷ us) = text_eq u t || mem t us

abbrev pub is_inside : Text → List Text → Bool
is_inside n [] = false
is_inside n (m ∷ st) = text_eq m n

-- A bucket in a list of buckets holds elements, and elsewhere its name.
abbrev pub holds_elements : Text → List Text → Bool
holds_elements name st =
    mem name containers || (text_eq name (lit "Bucket") && is_inside (lit "Buckets") st)

-- The name of a tag, up to the first blank.
abbrev pub name_of : Text → Text
name_of [] = []
name_of (c ∷ cs) = if c == 0x20 then [] else c ∷ name_of cs

abbrev pub close : List Text → Text → List Leaf → Text → State
close [] txt out name = broken
close (n ∷ st) txt out name =
    if text_eq n name
    then content st [] (if holds_elements name st then out else out ++ (name, txt) ∷ [])
    else broken

-- What a tag does, by its text.
abbrev pub tag_done : List Text → Text → List Leaf → Text → State
tag_done st txt out [] = broken
tag_done st txt out (c ∷ cs) =
    if c == b'?'
    then content st [] out
    else if c == b'/'
    then close st txt out cs
    else content (name_of (c ∷ cs) ∷ st) [] out

abbrev pub entity_value : Text → Option ℕ
entity_value name =
    if text_eq name (lit "amp")
    then some b'&'
    else if text_eq name (lit "lt")
    then some b'<'
    else if text_eq name (lit "gt")
    then some b'>'
    else if text_eq name (lit "apos")
    then some b'\''
    else if text_eq name (lit "quot")
    then some b'"'
    else none

abbrev pub entity_done : List Text → Text → List Leaf → Option ℕ → State
entity_done st txt out none = broken
entity_done st txt out (some c) = content st (txt ++ c ∷ []) out

abbrev pub step : State → ℕ → State
step broken c = broken
step (content st txt out) c =
    if c == b'<'
    then tag st txt out []
    else if c == b'>'
    then broken
    else if c == b'&'
    then entity st txt out []
    else content st (txt ++ c ∷ []) out
step (tag st txt out acc) c =
    if c == b'>'
    then tag_done st txt out acc
    else if c == b'<'
    then broken
    else tag st txt out (acc ++ c ∷ [])
step (entity st txt out acc) c =
    if c == b';'
    then entity_done st txt out (entity_value acc)
    else entity st txt out (acc ++ c ∷ [])

unfoldable pub run : State → Text → State
run s [] = s
run s (c ∷ cs) = run (step s c) cs

-- The values of a document in which every element is closed.
abbrev pub values_of : State → Option (List Leaf)
values_of (content [] txt out) = some out
values_of _ = none

unfoldable pub read : Text → Option (List Leaf)
unfolding run
read doc = values_of (run (content [] [] []) doc)
