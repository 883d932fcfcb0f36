-- ===== src/Storage/Routes/Multipart.antt =====
-- crates/sqrld/src/storage/routes/multipart.rs: the handlers of uploads in parts.
use squirreldb.Base.{
  ℤ, pos, Text, lit, Bytes, from_utf8_lossy, ltb, text_eq, show_i64, not, Option, none, some, List,
  [], ◌∷◌, ◌++◌, if◌then◌else◌, length,
}
use squirreldb.Cache.Json
use squirreldb.Storage.Externals.{Platform}
use squirreldb.Storage.Types.{StorageBucket, MultipartUpload, CompletedPart}
use squirreldb.Storage.Codes
use squirreldb.Storage.Error.{StorageError, new_error, no_such_upload, invalid_argument}
use squirreldb.Storage.Actions.{Action, ◌>>=◌, pure, lift, required, refuse_if, ignore}
use squirreldb.Storage.Services.{StorageState, Nothing, Written}
use squirreldb.Storage.Responses.{
  Response, empty_body, text_body, status_only, xml_response, quoted_etag, Params, i32_param,
  uuid_param, unwrap_or,
}
use squirreldb.Storage.Routes.Bucket.{find_bucket, checked}
use squirreldb.Storage.Routes.Parts.{
  is_part_number, parse_complete_multipart_request, trim_matches, verify_order,
}
use squirreldb.Storage.Xml.Uploads.{
  initiate_multipart_upload_xml, complete_multipart_upload_xml, list_parts_xml,
}

module _ {x : Platform} {W : Type 0} (state : StorageState x W) where
  -- `params.get("uploadId")…ok_or_else(…)?`
  abbrev pub upload_id_of : Params → Action W (x.Uuid)
  upload_id_of params =
      required (invalid_argument (lit "Missing or invalid uploadId"))
        (uuid_param x params (lit "uploadId"))

  abbrev pub find_upload : x.Uuid → Action W (MultipartUpload x)
  find_upload upload_id = do
    found ← lift (state.backend.get_multipart_upload upload_id)
    required (no_such_upload (x.uuid_to_string upload_id)) found

  unfoldable pub initiate_multipart_upload : Text → Text → Action W Response
  unfolding initiate_multipart_upload_xml
  initiate_multipart_upload bucket key = do
    _ ← find_bucket state bucket
    upload_id ← state.new_v4
    _ ←
        lift
          (state.backend.create_multipart_upload upload_id bucket key none (Json.object Json.end))
    pure (
        xml_response (
          initiate_multipart_upload_xml
            (record { bucket = bucket; key = key; upload_id = x.uuid_to_string upload_id })))

  unfoldable pub upload_part : Params → Bytes → Action W Response
  unfolding is_part_number
  upload_part params body = do
    upload_id ← upload_id_of params
    part_number ←
        required (invalid_argument (lit "Missing or invalid partNumber"))
          (i32_param params (lit "partNumber"))
    _ ←
        refuse_if (not (is_part_number part_number))
          (invalid_argument (lit "Part number must be between 1 and 10000"))
    _ ← find_upload upload_id
    _ ←
        refuse_if (ltb state.config.max_part_size (length body))
          (new_error Codes.entity_too_large (lit "Part size exceeds maximum allowed size"))
    (storage_path, (etag, size)) ← state.storage.write_part upload_id part_number body
    _ ← lift (state.backend.upsert_multipart_part upload_id part_number etag size storage_path)
    pure (record { status = 200; headers = (lit "ETag", quoted_etag etag) ∷ []; body = empty_body })

  abbrev pub part_missing : ℤ → StorageError
  part_missing n = new_error Codes.invalid_part (lit "Part " ++ show_i64 n ++ lit " not found")

  abbrev pub etag_differs : ℤ → StorageError
  etag_differs n =
      new_error Codes.invalid_part (lit "Part " ++ show_i64 n ++ lit " ETag does not match")

  -- The loop that looks the parts up; it gives their paths in the order of the request.
  unfoldable pub part_paths : x.Uuid → List CompletedPart → Action W (List Text)
  unfolding trim_matches
  part_paths upload_id [] = pure []
  part_paths upload_id (cp ∷ cps) = do
    found ← lift (state.backend.get_multipart_part upload_id cp.part_number)
    part ← required (part_missing cp.part_number) found
    _ ←
        refuse_if (not (text_eq part.etag (trim_matches b'"' cp.etag)))
          (etag_differs cp.part_number)
    paths ← part_paths upload_id cps
    pure (part.storage_path ∷ paths)

  -- The file of the object that was replaced is deleted, and an error of that is dropped.
  abbrev pub delete_old : Option Text → Action W Nothing
  delete_old none = pure tt
  delete_old (some old_path) = ignore (state.storage.delete_object old_path)

  -- How an object that was written is put on record: a new version, or in place of the old one.
  abbrev pub record_object :
      StorageBucket x
      → Text
      → Text
      → x.Uuid
      → Written
      → Text
      → Json.Json (x.Number)
      → Action W Nothing
  record_object info bucket key version_id (storage_path, (etag, size)) content_type metadata =
      if info.versioning_enabled
      then lift (
          state.backend.create_storage_object_with_stats bucket key version_id etag size
            content_type storage_path metadata)
      else do
        old ← lift (
            state.backend.replace_storage_object bucket key version_id etag size content_type
              storage_path metadata)
        delete_old old

  unfoldable pub complete_multipart_upload :
      (Text → List (Text × Text)) → Text → Text → Params → Bytes → Action W Response
  unfolding parse_complete_multipart_request part_paths verify_order complete_multipart_upload_xml
  complete_multipart_upload captures bucket key params body = do
    upload_id ← upload_id_of params
    upload ← find_upload upload_id
    parts ← checked (parse_complete_multipart_request captures (from_utf8_lossy body))
    paths ← part_paths upload_id parts
    _ ← checked (verify_order (pos 0) parts)
    version_id ← state.new_v4
    written ← state.storage.assemble_parts bucket key version_id paths
    info ← find_bucket state bucket
    _ ←
        record_object info bucket key version_id written
          (unwrap_or (lit "application/octet-stream") upload.content_type) upload.metadata
    _ ← lift (state.backend.delete_multipart_upload upload_id)
    _ ← state.storage.cleanup_multipart upload_id
    pure (record {
      status = 200;
      headers =
          (lit "Content-Type", lit "application/xml")
          ∷ (lit "x-amz-version-id", x.uuid_to_string version_id)
          ∷ [];
      body = text_body (
          complete_multipart_upload_xml (record {
            location = lit "/" ++ bucket ++ lit "/" ++ key;
            bucket = bucket;
            key = key;
            etag = written.1.0;
          }));
    })

  unfoldable pub abort_multipart_upload : Params → Action W Response
  abort_multipart_upload params = do
    upload_id ← upload_id_of params
    _ ← find_upload upload_id
    _ ← lift (state.backend.delete_multipart_upload upload_id)
    _ ← state.storage.cleanup_multipart upload_id
    pure (status_only 204)

  unfoldable pub list_parts : Text → Text → Params → Action W Response
  unfolding list_parts_xml
  list_parts bucket key params = do
    upload_id ← upload_id_of params
    let max_parts = unwrap_or (pos 1000) (i32_param params (lit "max-parts"))
    _ ← find_upload upload_id
    (parts, is_truncated) ← lift (state.backend.list_multipart_parts upload_id max_parts)
    pure (
        xml_response
          (list_parts_xml x bucket key (x.uuid_to_string upload_id) parts max_parts is_truncated))
