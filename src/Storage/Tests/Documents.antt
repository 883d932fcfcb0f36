-- ===== src/Storage/Tests/Documents.antt =====
-- Tests of the documents and of the files, and their theorems at concrete values.
use squirreldb.Base.{
  pos, ◌≤◌, ◌<◌, ◌+◌, ◌-◌, lit, Bytes, show_i64, length, take, drop, as_i64, false, none, some,
  List, [], ◌∷◌, ◌++◌, ◌≡◌, refl, arith, text_eq, map,
}
use squirreldb.Base.HashMap
use squirreldb.Base.Strings.{starts_with, ends_with_char}
use squirreldb.Base.Results.{ok}
use squirreldb.Storage.Services.{Written}
use squirreldb.Storage.Types.{ListObjectsResponse}
use squirreldb.Storage.Error.{StorageError, no_such_key, to_xml}
use squirreldb.Storage.Xml.Reader
use squirreldb.Storage.Xml.Escape.{escape_xml}
use squirreldb.Storage.Xml.Listings.{list_objects_v2_xml}
use squirreldb.Storage.Xml.Listed.{read-list_objects_v2_xml, list_objects_v2_values}
use squirreldb.Storage.Reported.{read-to_xml, to_values}
use squirreldb.Storage.Filesystem.{
  LocalFileStorage, object_path, read_object, assemble_parts, calculate_multipart_etag,
}
use squirreldb.Storage.Filesystem.Ranges.{slice, overflow, read_range}
use squirreldb.Storage.Filesystem.Ranged.{read_range_lem, last_of}
use squirreldb.Storage.Filesystem.Written.{read_object-assemble_parts, joined}
use squirreldb.Storage.Tests.World.{numbered, numbered-IsPlain, disk, Disk, disk_laws, digests}

escaped : escape_xml (lit "a<b&'c'>\"") ≡ lit "a&lt;b&amp;&apos;c&apos;&gt;&quot;"
unfolding escape_xml
escaped = refl

-- A key that looks like markup.
abbrev tricky : StorageError
tricky = no_such_key (lit "</Message><Code>&")

read-to_xml_example : Reader.read (to_xml tricky) ≡ some (to_values tricky)
read-to_xml_example = read-to_xml tricky

abbrev listing : ListObjectsResponse numbered
listing = record {
  name = lit "photos";
  prefix = some (lit "a&b");
  delimiter = none;
  max_keys = pos 1000;
  is_truncated = false;
  contents =
      record {
        key = lit "<x>";
        last_modified = 7;
        etag = lit "00";
        size = pos 5;
        storage_class = lit "STANDARD";
        owner = none;
      }
      ∷ [];
  common_prefixes = lit "c/" ∷ [];
  continuation_token = none;
  next_continuation_token = none;
  key_count = pos 0;
  encoding_type = none;
}

read-list_objects_v2_xml_example :
    Reader.read (list_objects_v2_xml numbered listing)
    ≡ some (list_objects_v2_values numbered listing)
read-list_objects_v2_xml_example = read-list_objects_v2_xml numbered numbered-IsPlain listing

abbrev five : Bytes
five = 1 ∷ 2 ∷ 3 ∷ 4 ∷ 5 ∷ []

middle : read_range five 1 (some 2) ≡ slice (2 ∷ 3 ∷ [])
unfolding read_range
middle = refl

-- A range that ends before it starts.
backwards : read_range five 3 (some 1) ≡ overflow
unfolding read_range
backwards = refl

empty_file : read_range [] 1 none ≡ overflow
unfolding read_range
empty_file = refl

read_range_lem_example :
    (3 ≤ last_of (length five) (some 9)
      → read_range five 3 (some 9)
        ≡ slice (take (last_of (length five) (some 9) - 3 + 1) (drop 3 five)))
    × (3 ≡ last_of (length five) (some 9) + 1 → read_range five 3 (some 9) ≡ slice [])
    × (last_of (length five) (some 9) + 1 < 3 → read_range five 3 (some 9) ≡ overflow)
read_range_lem_example = read_range_lem five 3 (some 9) (ground arith) (ground arith) (ground arith)

abbrev local : LocalFileStorage
local = record { base_path = lit "/data" }

abbrev two_parts : Disk
two_parts = (lit "p1", 1 ∷ 2 ∷ []) ∷ (lit "p2", 3 ∷ []) ∷ []

path :
    object_path numbered digests disk local (lit "photos") (lit "k") 7
    ≡ lit "/data/buckets/photos/objects/ab/cd/7.data"
unfolding object_path starts_with show_i64 ends_with_char
path = refl

abbrev parts : List Bytes
parts = (1 ∷ 2 ∷ []) ∷ (3 ∷ []) ∷ []

abbrev whole : Disk
whole = two_parts ++ (lit "/data/buckets/photos/objects/ab/cd/7.data", 1 ∷ 2 ∷ 3 ∷ []) ∷ []

abbrev assembled : Written
assembled = (lit "/data/buckets/photos/objects/ab/cd/7.data", (lit "00-2", pos 3))

read_object-assemble_parts_example :
    (read_object numbered digests disk local assembled.0 whole ≡ (ok (joined parts), whole))
    × (assembled.1 ≡ (
      calculate_multipart_etag numbered digests disk local (map digests.md5 parts),
      as_i64 (length (joined parts)),
    ))
unfolding assemble_parts HashMap.insert HashMap.get as_i64 object_path starts_with show_i64
    ends_with_char text_eq
read_object-assemble_parts_example =
    read_object-assemble_parts numbered digests disk disk_laws local (lit "photos") (lit "k") 7
      (lit "p1" ∷ lit "p2" ∷ []) parts assembled two_parts whole (refl, refl, (refl, refl, tt)) refl
