-- ===== src/Storage/Types.antt =====
-- crates/sqrld/src/storage/types.rs: buckets, objects, uploads, grants, rules, and the contents of the
-- responses. Times, identifiers and JSON numbers are those of the platform `x`.
use squirreldb.Base.{Text, lit, ℤ, Bool, Option, none, some, List, [], ◌∷◌, ◌==◌, ℕ, if◌then◌else◌}
use squirreldb.Base.Strings.{split_at}
use squirreldb.Cache.Json.{Json}
use squirreldb.Storage.Externals.{Platform}

pub data Permission : Type 0 where
  full_control write write_acp read read_acp : Permission

pub data Grantee : Type 0 where
  canonical_user : Text → Option Text → Grantee
  group : Text → Grantee

pub record AclGrant : Type 0 where
  pub grantee : Grantee
  pub permission : Permission

pub record LifecycleRule : Type 0 where
  pub id : Text
  pub enabled : Bool
  pub prefix : Option Text
  pub expiration_days : Option ℤ
  pub noncurrent_version_expiration_days : Option ℤ

pub record StorageBucket (x : Platform) : Type 0 where
  pub name : Text
  pub owner_id : Option (x.Uuid)
  pub versioning_enabled : Bool
  pub acl : List AclGrant
  pub lifecycle_rules : List LifecycleRule
  pub quota_bytes : Option ℤ
  pub current_size : ℤ
  pub object_count : ℤ
  pub created_at : x.DateTime

pub record StorageObject (x : Platform) : Type 0 where
  pub bucket : Text
  pub key : Text
  pub version_id : x.Uuid
  pub is_latest : Bool
  pub etag : Text
  pub size : ℤ
  pub content_type : Text
  pub storage_path : Text
  pub metadata : Json (x.Number)
  pub acl : List AclGrant
  pub is_delete_marker : Bool
  pub created_at : x.DateTime

pub record MultipartUpload (x : Platform) : Type 0 where
  pub upload_id : x.Uuid
  pub bucket : Text
  pub key : Text
  pub content_type : Option Text
  pub metadata : Json (x.Number)
  pub initiated_at : x.DateTime

pub record MultipartPart (x : Platform) : Type 0 where
  pub upload_id : x.Uuid
  pub part_number : ℤ
  pub etag : Text
  pub size : ℤ
  pub storage_path : Text
  pub created_at : x.DateTime

pub record BucketInfo (x : Platform) : Type 0 where
  pub name : Text
  pub creation_date : x.DateTime

pub record Owner : Type 0 where
  pub id : Text
  pub display_name : Option Text

pub record ListBucketsResponse (x : Platform) : Type 0 where
  pub buckets : List (BucketInfo x)
  pub owner : Option Owner

pub record ObjectInfo (x : Platform) : Type 0 where
  pub key : Text
  pub last_modified : x.DateTime
  pub etag : Text
  pub size : ℤ
  pub storage_class : Text
  pub owner : Option Owner

pub record ListObjectsResponse (x : Platform) : Type 0 where
  pub name : Text
  pub prefix : Option Text
  pub delimiter : Option Text
  pub max_keys : ℤ
  pub is_truncated : Bool
  pub contents : List (ObjectInfo x)
  pub common_prefixes : List Text
  pub continuation_token : Option Text
  pub next_continuation_token : Option Text
  pub key_count : ℤ
  pub encoding_type : Option Text

pub record InitiateMultipartUploadResponse : Type 0 where
  pub bucket : Text
  pub key : Text
  pub upload_id : Text

pub record CompletedPart : Type 0 where
  pub part_number : ℤ
  pub etag : Text

pub record CompleteMultipartUploadResponse : Type 0 where
  pub location : Text
  pub bucket : Text
  pub key : Text
  pub etag : Text

pub record CopySource : Type 0 where
  pub bucket : Text
  pub key : Text
  pub version_id : Option Text

pub record DeletedObject : Type 0 where
  pub key : Text
  pub version_id : Option Text
  pub delete_marker : Option Bool
  pub delete_marker_version_id : Option Text

pub record DeleteError : Type 0 where
  pub key : Text
  pub version_id : Option Text
  pub code : Text
  pub message : Text

pub record DeleteResult : Type 0 where
  pub deleted : List DeletedObject
  pub errors : List DeleteError

-- `trim_start_matches` of a character.
unfoldable pub trim_start_matches : ℕ → Text → Text
trim_start_matches e [] = []
trim_start_matches e (c ∷ cs) =
    let rest = trim_start_matches e cs in if c == e then rest else c ∷ cs

-- The split at the version, and at the first slash.
abbrev pub version_split : Text → Text × Option Text
version_split path = elim (split_at (lit "?versionId=") path) [
  | none ↦ (path, none)
  | some r ↦ (r.0, some (r.1))
]

abbrev pub key_split : Text × Option Text → Option CopySource
key_split (bucket_key, version) = elim (split_at (lit "/") bucket_key) [
  | none ↦ none
  | some r ↦ some (record { bucket = r.0; key = r.1; version_id = version })
]

-- `CopySource::parse`
unfoldable pub parse_copy_source : Platform → Text → Option CopySource
unfolding trim_start_matches split_at
parse_copy_source x header = elim (x.decode header) [
  | none ↦ none
  | some decoded ↦ key_split (version_split (trim_start_matches b'/' decoded))
]
