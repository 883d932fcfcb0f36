-- ===== src/Storage/Routes/Bucket.antt =====
-- crates/sqrld/src/storage/routes/bucket.rs: the handlers of the service and of buckets.
use squirreldb.Base.{
  ℕ, ℤ, pos, negsuc, Text, lit, Bool, true, false, Option, none, some, [], ◌∷◌, ◌++◌, map,
  if◌then◌else◌, is_empty,
}
use squirreldb.Base.HashMap
use squirreldb.Base.Results.{Result, ok, err}
use squirreldb.Storage.Externals.{Platform}
use squirreldb.Storage.Types.{StorageBucket, StorageObject, BucketInfo, ObjectInfo}
use squirreldb.Storage.Codes
use squirreldb.Storage.Error.{
  StorageError, new_error, no_such_bucket, bucket_already_exists, bucket_not_empty,
}
use squirreldb.Storage.Names.{validate_bucket_name}
use squirreldb.Storage.Actions.{Action, ◌>>=◌, pure, throw, lift, required, refuse_if}
use squirreldb.Storage.Services.{StorageState}
use squirreldb.Storage.Responses.{
  Response, empty_body, status_only, xml_response, Params, contains_key, i32_param, unwrap_or,
}
use squirreldb.Storage.Xml.Listings.{list_buckets_xml, list_objects_v2_xml}
use squirreldb.Storage.Xml.Uploads.{list_multipart_uploads_xml}
use squirreldb.Storage.Xml.Settings.{versioning_config_xml, acl_xml, lifecycle_config_xml}

-- `b.object_count > 0`
abbrev pub is_positive : ℤ → Bool
is_positive (pos ℕ.zero) = false
is_positive (pos (ℕ.suc n)) = true
is_positive (negsuc n) = false

abbrev pub is_some {ℓ} : {A : Type ℓ} → Option A → Bool
is_some none = false
is_some (some a) = true

-- `?` on a check.
abbrev pub checked : {W A : Type 0} → Result StorageError A → Action W A
checked (err e) = throw e
checked (ok u) = pure u

module _ {x : Platform} {W : Type 0} (state : StorageState x W) where
  -- `get_storage_bucket(…).await?.ok_or_else(…)?`
  abbrev pub find_bucket : Text → Action W (StorageBucket x)
  find_bucket bucket = do
    found ← lift (state.backend.get_storage_bucket bucket)
    required (no_such_bucket bucket) found

  abbrev pub bucket_info : StorageBucket x → BucketInfo x
  bucket_info b = record { name = b.name; creation_date = b.created_at }

  unfoldable pub list_buckets : Action W Response
  unfolding list_buckets_xml
  list_buckets = do
    buckets ← lift state.backend.list_storage_buckets
    pure (
        xml_response
          (list_buckets_xml x (record { buckets = map bucket_info buckets; owner = none })))

  unfoldable pub create_bucket : Text → Action W Response
  unfolding validate_bucket_name
  create_bucket bucket = do
    _ ← checked (validate_bucket_name bucket)
    found ← lift (state.backend.get_storage_bucket bucket)
    _ ← refuse_if (is_some found) (bucket_already_exists bucket)
    _ ← lift (state.backend.create_storage_bucket bucket none)
    _ ← state.storage.init_bucket bucket
    pure (record {
      status = 200;
      headers = (lit "Location", lit "/" ++ bucket) ∷ [];
      body = empty_body;
    })

  unfoldable pub delete_bucket : Text → Action W Response
  delete_bucket bucket = do
    b ← find_bucket bucket
    _ ← refuse_if (is_positive b.object_count) (bucket_not_empty bucket)
    _ ← lift (state.backend.delete_storage_bucket bucket)
    _ ← state.storage.delete_bucket bucket
    pure (status_only 204)

  unfoldable pub head_bucket : Text → Action W Response
  head_bucket bucket = do
    b ← find_bucket bucket
    pure (record {
      status = 200;
      headers = (lit "x-amz-bucket-region", state.config.region) ∷ [];
      body = empty_body;
    })

  abbrev pub object_info : StorageObject x → ObjectInfo x
  object_info o = record {
    key = o.key;
    last_modified = o.created_at;
    etag = o.etag;
    size = o.size;
    storage_class = lit "STANDARD";
    owner = none;
  }

  unfoldable pub list_objects_v2 : Text → Params → Action W Response
  unfolding list_objects_v2_xml
  list_objects_v2 bucket params =
      let prefix = HashMap.get (lit "prefix") params in
      let delimiter = HashMap.get (lit "delimiter") params in
      let max_keys = unwrap_or (pos 1000) (i32_param params (lit "max-keys")) in
      let token = HashMap.get (lit "continuation-token") params in
      do
        _ ← find_bucket bucket
        (objects, (common_prefixes, (is_truncated, next_token))) ← lift (
            state.backend.list_storage_objects_with_prefixes bucket prefix delimiter max_keys token)
        pure (
            xml_response (
              list_objects_v2_xml x (record {
                name = bucket;
                prefix = prefix;
                delimiter = delimiter;
                max_keys = max_keys;
                is_truncated = is_truncated;
                contents = map object_info objects;
                common_prefixes = common_prefixes;
                continuation_token = token;
                next_continuation_token = next_token;
                key_count = pos 0;
                encoding_type = none;
              })))

  unfoldable pub get_bucket_versioning : Text → Action W Response
  unfolding versioning_config_xml
  get_bucket_versioning bucket = do
    b ← find_bucket bucket
    pure (xml_response (versioning_config_xml b.versioning_enabled))

  abbrev pub owner_text : Option (x.Uuid) → Text
  owner_text none = lit "anonymous"
  owner_text (some u) = x.uuid_to_string u

  unfoldable pub get_bucket_acl : Text → Action W Response
  unfolding acl_xml
  get_bucket_acl bucket = do
    b ← find_bucket bucket
    pure (xml_response (acl_xml (owner_text b.owner_id) none b.acl))

  unfoldable pub get_bucket_lifecycle : Text → Action W Response
  unfolding lifecycle_config_xml
  get_bucket_lifecycle bucket = do
    b ← find_bucket bucket
    _ ← refuse_if (is_empty b.lifecycle_rules) (
        new_error Codes.no_such_lifecycle_configuration
          (lit "The lifecycle configuration does not exist"))
    pure (xml_response (lifecycle_config_xml b.lifecycle_rules))

  unfoldable pub list_multipart_uploads : Text → Params → Action W Response
  unfolding list_multipart_uploads_xml
  list_multipart_uploads bucket params =
      let max_uploads = unwrap_or (pos 1000) (i32_param params (lit "max-uploads")) in
      do
        _ ← find_bucket bucket
        (uploads, is_truncated) ← lift (state.backend.list_multipart_uploads bucket max_uploads)
        pure (xml_response (list_multipart_uploads_xml x bucket uploads max_uploads is_truncated))

  unfoldable pub list_object_versions : Text → Params → Action W Response
  unfolding list_objects_v2_xml
  list_object_versions bucket params =
      let prefix = HashMap.get (lit "prefix") params in
      let max_keys = unwrap_or (pos 1000) (i32_param params (lit "max-keys")) in
      do
        _ ← find_bucket bucket
        (objects, (is_truncated, next_token)) ←
            lift (state.backend.list_storage_object_versions bucket prefix max_keys)
        pure (
            xml_response (
              list_objects_v2_xml x (record {
                name = bucket;
                prefix = prefix;
                delimiter = none;
                max_keys = max_keys;
                is_truncated = is_truncated;
                contents = map object_info objects;
                common_prefixes = [];
                continuation_token = none;
                next_continuation_token = none;
                key_count = pos 0;
                encoding_type = none;
              })))

  unfoldable pub list_objects_or_operation : Text → Params → Action W Response
  list_objects_or_operation bucket params =
      if contains_key params (lit "versioning")
      then get_bucket_versioning bucket
      else if contains_key params (lit "acl")
      then get_bucket_acl bucket
      else if contains_key params (lit "lifecycle")
      then get_bucket_lifecycle bucket
      else if contains_key params (lit "uploads")
      then list_multipart_uploads bucket params
      else if contains_key params (lit "versions")
      then list_object_versions bucket params
      else list_objects_v2 bucket params
