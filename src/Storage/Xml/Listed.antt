-- ===== src/Storage/Xml/Listed.antt =====
-- What the reader gets from the lists of buckets and of objects.
use squirreldb.Base.{
  Text, lit, show_i64, text_eq, Option, none, some, ◌++◌, ◌≡◌, refl, [], ◌∷◌, List,
}
use squirreldb.Storage.Externals.{Platform, IsPlainPlatform}
use squirreldb.Storage.Types.{
  Owner, BucketInfo, ListBucketsResponse, ObjectInfo, ListObjectsResponse,
}
use squirreldb.Storage.Xml.Common.{declaration, show_bool}
use squirreldb.Storage.Xml.Listings.{
  owner_name, bucket_owner, object_owner_name, object_owner, delimiter_xml, token_xml,
  next_token_xml, prefix_xml, common_prefix_xml, bucket_xml, list_buckets_xml, object_xml,
  list_objects_v2_xml,
}
use squirreldb.Storage.Xml.Reader
use squirreldb.Storage.Xml.Reader.{Leaf, run}
use squirreldb.Storage.Xml.Moves.{
  Moves, silent, named, ◌⟫◌, ◌⟩◌, start, leaf, quoted, quoted_leaf, optional_values, each_values,
  optional-Moves, each-Moves, Moves-read,
}
use squirreldb.Storage.Xml.Spelling.{
  IsPlain-Spells, escape_xml-Spells, show_i64-Spells, show_bool-Spells,
}

abbrev pub owner_name_values : Text → List Leaf
owner_name_values name = named (lit "DisplayName") name

pub owner_name-Moves : {s : List Text} (a : Text) → Moves (owner_name a) (owner_name_values a) s s
unfolding run text_eq
owner_name-Moves name =
    leaf (lit "    <DisplayName>") (lit "</DisplayName>\n") (lit "DisplayName") (λ t out. refl)
      (λ t out. (_, refl)) (escape_xml-Spells name)

abbrev pub bucket_owner_values : Owner → List Leaf
bucket_owner_values owner =
    named (lit "ID") owner.id ++ optional_values owner_name_values owner.display_name

pub bucket_owner-Moves :
    {s : List Text} (a : Owner) → Moves (bucket_owner a) (bucket_owner_values a) s s
unfolding run text_eq
bucket_owner-Moves owner =
    start (silent (lit "  <Owner>\n") (λ t out. (_, refl)))
    ⟫ leaf (lit "    <ID>") (lit "</ID>\n") (lit "ID") (λ t out. refl) (λ t out. (_, refl))
        (escape_xml-Spells owner.id)
    ⟫ optional-Moves owner_name owner_name_values _ (λ a. owner_name-Moves a) owner.display_name
    ⟩ silent (lit "  </Owner>\n") (λ t out. (_, refl))

abbrev pub object_owner_name_values : Text → List Leaf
object_owner_name_values name = named (lit "DisplayName") name

pub object_owner_name-Moves :
    {s : List Text} (a : Text) → Moves (object_owner_name a) (object_owner_name_values a) s s
unfolding run text_eq
object_owner_name-Moves name =
    leaf (lit "      <DisplayName>") (lit "</DisplayName>\n") (lit "DisplayName") (λ t out. refl)
      (λ t out. (_, refl)) (escape_xml-Spells name)

abbrev pub object_owner_values : Owner → List Leaf
object_owner_values owner =
    named (lit "ID") owner.id ++ optional_values object_owner_name_values owner.display_name

pub object_owner-Moves :
    {s : List Text} (a : Owner) → Moves (object_owner a) (object_owner_values a) s s
unfolding run text_eq
object_owner-Moves owner =
    start (silent (lit "    <Owner>\n") (λ t out. (_, refl)))
    ⟫ leaf (lit "      <ID>") (lit "</ID>\n") (lit "ID") (λ t out. refl) (λ t out. (_, refl))
        (escape_xml-Spells owner.id)
    ⟫ optional-Moves object_owner_name object_owner_name_values _ (λ a. object_owner_name-Moves a)
        owner.display_name
    ⟩ silent (lit "    </Owner>\n") (λ t out. (_, refl))

abbrev pub delimiter_values : Text → List Leaf
delimiter_values delimiter = named (lit "Delimiter") delimiter

pub delimiter_xml-Moves :
    {s : List Text} (a : Text) → Moves (delimiter_xml a) (delimiter_values a) s s
unfolding run text_eq
delimiter_xml-Moves delimiter =
    leaf (lit "  <Delimiter>") (lit "</Delimiter>\n") (lit "Delimiter") (λ t out. refl)
      (λ t out. (_, refl)) (escape_xml-Spells delimiter)

abbrev pub token_values : Text → List Leaf
token_values token = named (lit "ContinuationToken") token

pub token_xml-Moves : {s : List Text} (a : Text) → Moves (token_xml a) (token_values a) s s
unfolding run text_eq
token_xml-Moves token =
    leaf (lit "  <ContinuationToken>") (lit "</ContinuationToken>\n") (lit "ContinuationToken")
      (λ t out. refl) (λ t out. (_, refl)) (escape_xml-Spells token)

abbrev pub next_token_values : Text → List Leaf
next_token_values token = named (lit "NextContinuationToken") token

pub next_token_xml-Moves :
    {s : List Text} (a : Text) → Moves (next_token_xml a) (next_token_values a) s s
unfolding run text_eq
next_token_xml-Moves token =
    leaf (lit "  <NextContinuationToken>") (lit "</NextContinuationToken>\n")
      (lit "NextContinuationToken") (λ t out. refl) (λ t out. (_, refl)) (escape_xml-Spells token)

abbrev pub prefix_values : Option Text → List Leaf
prefix_values none = named (lit "Prefix") []
prefix_values (some prefix) = named (lit "Prefix") prefix

pub prefix_xml-Moves :
    {s : List Text} (a : Option Text) → Moves (prefix_xml a) (prefix_values a) s s
unfolding run text_eq
prefix_xml-Moves none = record { moves = λ t out. (_, refl) }
prefix_xml-Moves (some prefix) =
    leaf (lit "  <Prefix>") (lit "</Prefix>\n") (lit "Prefix") (λ t out. refl) (λ t out. (_, refl))
      (escape_xml-Spells prefix)

abbrev pub common_prefix_values : Text → List Leaf
common_prefix_values prefix = named (lit "Prefix") prefix

pub common_prefix_xml-Moves :
    {s : List Text} (a : Text) → Moves (common_prefix_xml a) (common_prefix_values a) s s
unfolding run text_eq
common_prefix_xml-Moves prefix =
    start (silent (lit "  <CommonPrefixes>\n") (λ t out. (_, refl)))
    ⟫ leaf (lit "    <Prefix>") (lit "</Prefix>\n") (lit "Prefix") (λ t out. refl)
        (λ t out. (_, refl)) (escape_xml-Spells prefix)
    ⟩ silent (lit "  </CommonPrefixes>\n") (λ t out. (_, refl))

abbrev pub bucket_values : (x : Platform) → BucketInfo x → List Leaf
bucket_values x bucket =
    named (lit "Name") bucket.name ++ named (lit "CreationDate") (x.to_rfc3339 bucket.creation_date)

pub bucket_xml-Moves :
    (x : Platform) (h : IsPlainPlatform x) {s : List Text} (a : BucketInfo x)
    → Moves (bucket_xml x a) (bucket_values x a) (lit "Buckets" ∷ s) (lit "Buckets" ∷ s)
unfolding run text_eq
bucket_xml-Moves x h bucket =
    start (silent (lit "    <Bucket>\n") (λ t out. (_, refl)))
    ⟫ leaf (lit "      <Name>") (lit "</Name>\n") (lit "Name") (λ t out. refl) (λ t out. (_, refl))
        (escape_xml-Spells bucket.name)
    ⟫ leaf (lit "      <CreationDate>") (lit "</CreationDate>\n") (lit "CreationDate")
        (λ t out. refl) (λ t out. (_, refl)) (IsPlain-Spells _ (h.times bucket.creation_date))
    ⟩ silent (lit "    </Bucket>\n") (λ t out. (_, refl))

abbrev pub list_buckets_values : (x : Platform) → ListBucketsResponse x → List Leaf
list_buckets_values x response =
    optional_values bucket_owner_values response.owner
    ++ each_values (bucket_values x) response.buckets

pub list_buckets_xml-Moves :
    (x : Platform) (h : IsPlainPlatform x) (a : ListBucketsResponse x)
    → Moves (list_buckets_xml x a) (list_buckets_values x a) [] []
unfolding run text_eq list_buckets_xml
list_buckets_xml-Moves x h response =
    start (silent declaration (λ t out. (_, refl)))
    ⟩ silent (lit "<ListAllMyBucketsResult xmlns=\"http://s3.amazonaws.com/doc/2006-03-01/\">\n")
        (λ t out. (_, refl))
    ⟫ optional-Moves bucket_owner bucket_owner_values _ (λ a. bucket_owner-Moves a) response.owner
    ⟩ silent (lit "  <Buckets>\n") (λ t out. (_, refl))
    ⟫ each-Moves (bucket_xml x) (bucket_values x) _ (λ a. bucket_xml-Moves x h a) response.buckets
    ⟩ silent (lit "  </Buckets>\n") (λ t out. (_, refl))
    ⟩ silent (lit "</ListAllMyBucketsResult>") (λ t out. (_, refl))

abbrev pub object_values : (x : Platform) → ObjectInfo x → List Leaf
object_values x obj =
    named (lit "Key") obj.key
    ++ named (lit "LastModified") (x.to_rfc3339 obj.last_modified)
    ++ named (lit "ETag") (quoted obj.etag)
    ++ named (lit "Size") (show_i64 obj.size)
    ++ named (lit "StorageClass") obj.storage_class
    ++ optional_values object_owner_values obj.owner

pub object_xml-Moves :
    (x : Platform) (h : IsPlainPlatform x) {s : List Text} (a : ObjectInfo x)
    → Moves (object_xml x a) (object_values x a) s s
unfolding run text_eq
object_xml-Moves x h obj =
    start (silent (lit "  <Contents>\n") (λ t out. (_, refl)))
    ⟫ leaf (lit "    <Key>") (lit "</Key>\n") (lit "Key") (λ t out. refl) (λ t out. (_, refl))
        (escape_xml-Spells obj.key)
    ⟫ leaf (lit "    <LastModified>") (lit "</LastModified>\n") (lit "LastModified") (λ t out. refl)
        (λ t out. (_, refl)) (IsPlain-Spells _ (h.times obj.last_modified))
    ⟫ quoted_leaf (lit "    <ETag>\"") (lit "\"</ETag>\n") (lit "ETag") (λ t out. refl)
        (λ t out. (_, refl)) (escape_xml-Spells obj.etag)
    ⟫ leaf (lit "    <Size>") (lit "</Size>\n") (lit "Size") (λ t out. refl) (λ t out. (_, refl))
        (show_i64-Spells obj.size)
    ⟫ leaf (lit "    <StorageClass>") (lit "</StorageClass>\n") (lit "StorageClass") (λ t out. refl)
        (λ t out. (_, refl)) (escape_xml-Spells obj.storage_class)
    ⟫ optional-Moves object_owner object_owner_values _ (λ a. object_owner-Moves a) obj.owner
    ⟩ silent (lit "  </Contents>\n") (λ t out. (_, refl))

abbrev pub list_objects_v2_values : (x : Platform) → ListObjectsResponse x → List Leaf
list_objects_v2_values x response =
    named (lit "Name") response.name
    ++ prefix_values response.prefix
    ++ named (lit "MaxKeys") (show_i64 response.max_keys)
    ++ named (lit "KeyCount") (show_i64 response.key_count)
    ++ named (lit "IsTruncated") (show_bool response.is_truncated)
    ++ optional_values delimiter_values response.delimiter
    ++ optional_values token_values response.continuation_token
    ++ optional_values next_token_values response.next_continuation_token
    ++ each_values (object_values x) response.contents
    ++ each_values common_prefix_values response.common_prefixes

pub list_objects_v2_xml-Moves :
    (x : Platform) (h : IsPlainPlatform x) (a : ListObjectsResponse x)
    → Moves (list_objects_v2_xml x a) (list_objects_v2_values x a) [] []
unfolding run text_eq list_objects_v2_xml
list_objects_v2_xml-Moves x h response =
    start (silent declaration (λ t out. (_, refl)))
    ⟩ silent (lit "<ListBucketResult xmlns=\"http://s3.amazonaws.com/doc/2006-03-01/\">\n")
        (λ t out. (_, refl))
    ⟫ leaf (lit "  <Name>") (lit "</Name>\n") (lit "Name") (λ t out. refl) (λ t out. (_, refl))
        (escape_xml-Spells response.name)
    ⟫ prefix_xml-Moves response.prefix
    ⟫ leaf (lit "  <MaxKeys>") (lit "</MaxKeys>\n") (lit "MaxKeys") (λ t out. refl)
        (λ t out. (_, refl)) (show_i64-Spells response.max_keys)
    ⟫ leaf (lit "  <KeyCount>") (lit "</KeyCount>\n") (lit "KeyCount") (λ t out. refl)
        (λ t out. (_, refl)) (show_i64-Spells response.key_count)
    ⟫ leaf (lit "  <IsTruncated>") (lit "</IsTruncated>\n") (lit "IsTruncated") (λ t out. refl)
        (λ t out. (_, refl)) (show_bool-Spells response.is_truncated)
    ⟫ optional-Moves delimiter_xml delimiter_values _ (λ a. delimiter_xml-Moves a)
        response.delimiter
    ⟫ optional-Moves token_xml token_values _ (λ a. token_xml-Moves a) response.continuation_token
    ⟫ optional-Moves next_token_xml next_token_values _ (λ a. next_token_xml-Moves a)
        response.next_continuation_token
    ⟫ each-Moves (object_xml x) (object_values x) _ (λ a. object_xml-Moves x h a) response.contents
    ⟫ each-Moves common_prefix_xml common_prefix_values _ (λ a. common_prefix_xml-Moves a)
        response.common_prefixes
    ⟩ silent (lit "</ListBucketResult>") (λ t out. (_, refl))

-- The list of buckets is read back as its values, whatever characters they hold, where times
-- and identifiers are written without markup.
pub read-list_buckets_xml :
    (x : Platform)
    → IsPlainPlatform x
    → (a : ListBucketsResponse x)
    → Reader.read (list_buckets_xml x a) ≡ some (list_buckets_values x a)
read-list_buckets_xml x h a = Moves-read (list_buckets_xml-Moves x h a)

-- A list of objects is read back as its values, whatever characters they hold, where times and
-- identifiers are written without markup.
pub read-list_objects_v2_xml :
    (x : Platform)
    → IsPlainPlatform x
    → (a : ListObjectsResponse x)
    → Reader.read (list_objects_v2_xml x a) ≡ some (list_objects_v2_values x a)
read-list_objects_v2_xml x h a = Moves-read (list_objects_v2_xml-Moves x h a)
