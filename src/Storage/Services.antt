-- ===== src/Storage/Services.antt =====
-- What the handlers of crates/sqrld/src/storage/routes are given: the traits `DatabaseBackend` of
-- db/backend.rs, as far as they call it, and `StorageBackend` of storage/backend.rs, each over the
-- world that its calls change, the settings, and the source of new identifiers.
use squirreldb.Base.{Text, ℕ, ℤ, Bytes, Bool, Option, List}
use squirreldb.Base.Results.{Result}
use squirreldb.Cache.Json.{Json}
use squirreldb.Storage.Externals.{Platform}
use squirreldb.Storage.Types.{
  StorageBucket, StorageObject, MultipartUpload, MultipartPart, AclGrant,
}
use squirreldb.Storage.Actions.{Action}

-- A call of the database: its error is known by its text.
abbrev pub Call : Type 0 → Type 0 → Type 0
Call W A = W → Result Text A × W

abbrev pub Nothing : Type 0
Nothing = Unit {0}

-- Path, tag and size of what was written.
abbrev pub Written : Type 0
Written = Text × (Text × ℤ)

pub record DatabaseBackend (x : Platform) (W : Type 0) : Type 0 where
  pub get_storage_access_key : Text → Call W (Option (Text × Option (x.Uuid)))
  pub validate_token : Text → Call W (Option (x.Uuid))
  pub get_storage_bucket : Text → Call W (Option (StorageBucket x))
  pub create_storage_bucket : Text → Option (x.Uuid) → Call W Nothing
  pub delete_storage_bucket : Text → Call W Nothing
  pub list_storage_buckets : Call W (List (StorageBucket x))
  pub get_storage_object : Text → Text → Option (x.Uuid) → Call W (Option (StorageObject x))
  pub create_storage_delete_marker : Text → Text → x.Uuid → Call W Nothing
  pub update_storage_object_acl : Text → Text → List AclGrant → Call W Nothing
  pub list_storage_object_versions :
      Text → Option Text → ℤ → Call W (List (StorageObject x) × (Bool × Option Text))
  pub get_multipart_upload : x.Uuid → Call W (Option (MultipartUpload x))
  pub create_multipart_upload :
      x.Uuid → Text → Text → Option Text → Json (x.Number) → Call W Nothing
  pub delete_multipart_upload : x.Uuid → Call W Nothing
  pub list_multipart_uploads : Text → ℤ → Call W (List (MultipartUpload x) × Bool)
  pub get_multipart_part : x.Uuid → ℤ → Call W (Option (MultipartPart x))
  pub upsert_multipart_part : x.Uuid → ℤ → Text → ℤ → Text → Call W Nothing
  pub list_multipart_parts : x.Uuid → ℤ → Call W (List (MultipartPart x) × Bool)
  pub create_storage_object_with_stats :
      Text → Text → x.Uuid → Text → ℤ → Text → Text → Json (x.Number) → Call W Nothing
  pub delete_storage_object_with_stats : Text → Text → Option (x.Uuid) → Call W (Option (Text × ℤ))
  pub replace_storage_object :
      Text → Text → x.Uuid → Text → ℤ → Text → Text → Json (x.Number) → Call W (Option Text)
  pub list_storage_objects_with_prefixes :
      Text
      → Option Text
      → Option Text
      → ℤ
      → Option Text
      → Call W (List (StorageObject x) × (List Text × (Bool × Option Text)))

pub record StorageBackend (x : Platform) (W : Type 0) : Type 0 where
  pub init : Action W Nothing
  pub init_bucket : Text → Action W Nothing
  pub delete_bucket : Text → Action W Nothing
  pub write_object : Text → Text → x.Uuid → Bytes → Action W Written
  pub read_object : Text → Action W Bytes
  pub read_object_range : Text → ℕ → Option ℕ → Action W Bytes
  pub delete_object : Text → Action W Nothing
  pub write_part : x.Uuid → ℤ → Bytes → Action W Written
  pub read_part : Text → Action W Bytes
  pub assemble_parts : Text → Text → x.Uuid → List Text → Action W Written
  pub cleanup_multipart : x.Uuid → Action W Nothing
  pub copy_object : Text → Text → Text → x.Uuid → Action W Written
  pub test_connection : Action W Nothing

-- The fields of `StorageConfig` that requests read.
pub record StorageConfig : Type 0 where
  pub region : Text
  pub max_object_size : ℕ
  pub max_part_size : ℕ

-- `StorageState`, with `Uuid::new_v4()` and `Utc::now()`.
pub record StorageState (x : Platform) (W : Type 0) : Type 0 where
  pub backend : DatabaseBackend x W
  pub storage : StorageBackend x W
  pub config : StorageConfig
  pub new_v4 : Action W (x.Uuid)
  pub now : Action W (x.DateTime)
