-- ===== src/Storage/Routes/Deleting.antt =====
-- crates/sqrld/src/storage/routes/object.rs: the handlers that delete objects, and the operations of
-- a POST.
use squirreldb.Base.{ℕ, ℤ, Text, lit, Bytes, Option, none, some, List, [], ◌∷◌, if◌then◌else◌}
use squirreldb.Storage.Externals.{Platform}
use squirreldb.Storage.Codes
use squirreldb.Storage.Error.{new_error}
use squirreldb.Storage.Actions.{Action, ◌>>=◌, pure, throw, lift}
use squirreldb.Storage.Services.{StorageState, Nothing}
use squirreldb.Storage.Responses.{
  Response, empty_body, status_only, Params, contains_key, uuid_param,
}
use squirreldb.Storage.Routes.Bucket.{find_bucket}
use squirreldb.Storage.Routes.Object.{check_key}
use squirreldb.Storage.Routes.Multipart.{
  abort_multipart_upload, initiate_multipart_upload, complete_multipart_upload,
}

module _ {x : Platform} {W : Type 0} (state : StorageState x W) where
  abbrev pub delete_file : Option (Text × ℤ) → Action W Nothing
  delete_file none = pure tt
  delete_file (some (storage_path, size)) = state.storage.delete_object storage_path

  abbrev pub delete_version : Text → Text → Option (x.Uuid) → Action W Response
  delete_version bucket key version_id = do
    gone ← lift (state.backend.delete_storage_object_with_stats bucket key version_id)
    _ ← delete_file gone
    pure (status_only 204)

  abbrev pub put_marker : Text → Text → Action W Response
  put_marker bucket key = do
    marker_version_id ← state.new_v4
    _ ← lift (state.backend.create_storage_delete_marker bucket key marker_version_id)
    pure (record {
      status = 204;
      headers =
          (lit "x-amz-delete-marker", lit "true")
          ∷ (lit "x-amz-version-id", x.uuid_to_string marker_version_id)
          ∷ [];
      body = empty_body;
    })

  abbrev pub delete_versioned : Text → Text → Option (x.Uuid) → Action W Response
  delete_versioned bucket key none = put_marker bucket key
  delete_versioned bucket key (some vid) = delete_version bucket key (some vid)

  unfoldable pub delete_object : Text → Text → Params → Action W Response
  delete_object bucket key params = do
    info ← find_bucket state bucket
    if info.versioning_enabled
        then delete_versioned bucket key (uuid_param x params (lit "versionId"))
        else delete_version bucket key none

  unfoldable pub delete_object_or_operation : (ℕ → Text) → Text → Text → Params → Action W Response
  unfolding check_key delete_object abort_multipart_upload
  delete_object_or_operation quote bucket key params = do
    _ ← check_key state quote key
    if contains_key params (lit "uploadId")
        then abort_multipart_upload state params
        else delete_object bucket key params

  unfoldable pub post_object_operation :
      (ℕ → Text) → (Text → List (Text × Text)) → Text → Text → Params → Bytes → Action W Response
  unfolding check_key initiate_multipart_upload complete_multipart_upload
  post_object_operation quote captures bucket key params body = do
    _ ← check_key state quote key
    if contains_key params (lit "uploads")
        then initiate_multipart_upload state bucket key
        else if contains_key params (lit "uploadId")
        then complete_multipart_upload state captures bucket key params body
        else throw (new_error Codes.not_implemented (lit "Operation not supported"))
