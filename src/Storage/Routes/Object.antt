-- ===== src/Storage/Routes/Object.antt =====
-- crates/sqrld/src/storage/routes/object.rs: the handlers of objects. What the crate regex captures
-- in a request to complete an upload, and how Rust quotes a character, are parameters.
use squirreldb.Base.{
  ℕ, Text, lit, Bytes, ltb, show_nat, show_i64, length, Bool, true, ◌&&◌, Option, none, some, List,
  [], ◌∷◌, ◌++◌, if◌then◌else◌,
}
use squirreldb.Base.HashMap
use squirreldb.Base.Results.{Result, ok, err}
use squirreldb.Base.Strings.{strip_prefix}
use squirreldb.Cache.Json
use squirreldb.Security.Keys.{ObjectKeyError, validate_object_key, show_key_error}
use squirreldb.Storage.Externals.{Platform}
use squirreldb.Storage.Types.{StorageObject, parse_copy_source}
use squirreldb.Storage.Codes
use squirreldb.Storage.Error.{new_error, no_such_key, invalid_argument}
use squirreldb.Storage.Actions.{Action, ◌>>=◌, pure, throw, panic, lift, required, refuse_if}
use squirreldb.Storage.Services.{StorageState, Nothing}
use squirreldb.Storage.Responses.{
  Response, empty_body, bytes_body, text_body, status_only, xml_response, quoted_etag, Params,
  Headers, header, contains_key, uuid_param, unwrap_or,
}
use squirreldb.Storage.Routes.Bucket.{find_bucket, is_some}
use squirreldb.Storage.Routes.Range.{parse_range}
use squirreldb.Storage.Routes.Multipart.{record_object, upload_part, list_parts}
use squirreldb.Storage.Xml.Settings.{acl_xml}
use squirreldb.Storage.Xml.Uploads.{copy_object_result_xml}

module _ {x : Platform} {W : Type 0} (state : StorageState x W) where
  abbrev pub key_checked : Result ObjectKeyError Nothing → (ℕ → Text) → Action W Nothing
  key_checked (ok u) quote = pure u
  key_checked (err e) quote =
      throw
        (new_error Codes.invalid_argument (lit "Invalid object key: " ++ show_key_error quote e))

  -- The check that every handler of objects begins with.
  unfoldable pub check_key : (ℕ → Text) → Text → Action W Nothing
  unfolding validate_object_key show_key_error
  check_key quote key = key_checked (validate_object_key key) quote

  abbrev pub add_meta : Option Text → Option Text → List (Text × Text) → List (Text × Text)
  add_meta (some meta_key) (some v) acc = HashMap.insert meta_key v acc
  add_meta meta_key value acc = acc

  -- The user's metadata: a later header of a name replaces an earlier one.
  unfoldable pub user_metadata : Headers → List (Text × Text) → List (Text × Text)
  user_metadata [] acc = acc
  user_metadata ((name, value) ∷ rest) acc =
      user_metadata rest (add_meta (strip_prefix (lit "x-amz-meta-") name) value acc)

  abbrev pub json_fields : List (Text × Text) → Json.Fields (x.Number)
  json_fields [] = Json.end
  json_fields ((k, v) ∷ m) = Json.field k (Json.string v) (json_fields m)

  unfoldable pub put_object : Text → Text → Headers → Bytes → Action W Response
  unfolding user_metadata
  put_object bucket key headers body = do
    info ← find_bucket state bucket
    _ ←
        refuse_if (ltb state.config.max_object_size (length body))
          (new_error Codes.entity_too_large (lit "Object size exceeds maximum allowed size"))
    let content_type =
        unwrap_or (lit "application/octet-stream") (header headers (lit "content-type"))
    version_id ← state.new_v4
    written ← state.storage.write_object bucket key version_id body
    _ ←
        record_object state info bucket key version_id written content_type
          (Json.object (json_fields (user_metadata headers [])))
    pure (record {
      status = 200;
      headers =
          (lit "ETag", quoted_etag written.1.0)
          ∷ (lit "x-amz-version-id", x.uuid_to_string version_id)
          ∷ [];
      body = empty_body;
    })

  abbrev pub source_version : Option Text → Option (x.Uuid)
  source_version none = none
  source_version (some v) = x.parse_str v

  unfoldable pub copy_object : Text → Text → Text → Action W Response
  unfolding parse_copy_source copy_object_result_xml
  copy_object dst_bucket dst_key copy_source = do
    source ←
        required (invalid_argument (lit "Invalid x-amz-copy-source"))
          (parse_copy_source x copy_source)
    found ← lift (
        state.backend.get_storage_object source.bucket source.key
          (source_version source.version_id))
    src_object ← required (no_such_key source.key) found
    info ← find_bucket state dst_bucket
    version_id ← state.new_v4
    written ← state.storage.copy_object src_object.storage_path dst_bucket dst_key version_id
    _ ←
        record_object state info dst_bucket dst_key version_id written src_object.content_type
          src_object.metadata
    now ← state.now
    pure (record {
      status = 200;
      headers =
          (lit "Content-Type", lit "application/xml")
          ∷ (lit "x-amz-version-id", x.uuid_to_string version_id)
          ∷ [];
      body = text_body (copy_object_result_xml x written.1.0 now);
    })

  unfoldable pub put_object_acl : Text → Text → Action W Response
  put_object_acl bucket key = do
    found ← lift (state.backend.get_storage_object bucket key none)
    _ ← required (no_such_key key) found
    _ ← lift (state.backend.update_storage_object_acl bucket key [])
    pure (status_only 200)

  unfoldable pub put_object_or_operation :
      (ℕ → Text) → Text → Text → Params → Headers → Bytes → Action W Response
  unfolding check_key put_object copy_object put_object_acl upload_part
  put_object_or_operation quote bucket key params headers body = do
    _ ← check_key quote key
    if contains_key params (lit "acl")
        then put_object_acl bucket key
        else elim (header headers (lit "x-amz-copy-source")) [
          | some source ↦ copy_object bucket key source
          | none ↦
              if contains_key params (lit "partNumber") && contains_key params (lit "uploadId")
              then upload_part state params body
              else put_object bucket key headers body
        ]

  -- The user's metadata as headers.
  abbrev pub meta_headers : Json.Fields (x.Number) → List (Text × Text)
  meta_headers Json.end = []
  meta_headers (Json.field k (Json.string s) rest) = (lit "x-amz-meta-" ++ k, s) ∷ meta_headers rest
  meta_headers (Json.field k v rest) = meta_headers rest

  abbrev pub metadata_headers : Json.Json (x.Number) → List (Text × Text)
  metadata_headers (Json.object fields) = meta_headers fields
  metadata_headers v = []

  -- The builder of a response, whose result is unwrapped.
  abbrev pub all_headers_valid : List (Text × Text) → Bool
  all_headers_valid [] = true
  all_headers_valid ((name, value) ∷ rest) =
      x.is_header_name name && x.is_header_value value && all_headers_valid rest

  abbrev pub build_response : Response → Action W Response
  build_response response = if all_headers_valid response.headers then pure response else panic

  abbrev pub read_data : Text → Option (ℕ × Option ℕ) → Action W Bytes
  read_data storage_path none = state.storage.read_object storage_path
  read_data storage_path (some (start, end)) =
      state.storage.read_object_range storage_path start end

  -- The object that a request for reading finds; a delete marker counts as none.
  abbrev pub find_object : Text → Text → Params → Action W (StorageObject x)
  find_object bucket key params = do
    _ ← find_bucket state bucket
    found ←
        lift (state.backend.get_storage_object bucket key (uuid_param x params (lit "versionId")))
    object ← required (no_such_key key) found
    _ ← refuse_if object.is_delete_marker (no_such_key key)
    pure object

  abbrev pub range_header : Headers → Option (ℕ × Option ℕ)
  range_header headers = elim (header headers (lit "range")) [
    | none ↦ none
    | some v ↦ parse_range v
  ]

  -- The response to a read, with what the builder is given.
  abbrev pub object_response : StorageObject x → Bool → Bytes → Response
  object_response object is_partial content = record {
    status = if is_partial then 206 else 200;
    headers =
        (lit "Content-Type", object.content_type)
        ∷ (lit "ETag", quoted_etag object.etag)
        ∷ (lit "Content-Length", show_nat (length content))
        ∷ (lit "x-amz-version-id", x.uuid_to_string object.version_id)
        ∷ (lit "Last-Modified", x.to_rfc2822 object.created_at)
        ∷ metadata_headers object.metadata;
    body = bytes_body content;
  }

  unfoldable pub get_object : Text → Text → Params → Headers → Action W Response
  unfolding parse_range
  get_object bucket key params headers = do
    object ← find_object bucket key params
    content ← read_data object.storage_path (range_header headers)
    build_response (object_response object (is_some (range_header headers)) content)

  unfoldable pub get_object_acl : Text → Text → Action W Response
  unfolding acl_xml
  get_object_acl bucket key = do
    found ← lift (state.backend.get_storage_object bucket key none)
    object ← required (no_such_key key) found
    pure (xml_response (acl_xml (lit "anonymous") none object.acl))

  unfoldable pub get_object_or_operation :
      (ℕ → Text) → Text → Text → Params → Headers → Action W Response
  unfolding check_key get_object get_object_acl list_parts
  get_object_or_operation quote bucket key params headers = do
    _ ← check_key quote key
    if contains_key params (lit "acl")
        then get_object_acl bucket key
        else if contains_key params (lit "uploadId")
        then list_parts state bucket key params
        else get_object bucket key params headers

  unfoldable pub head_object : (ℕ → Text) → Text → Text → Params → Action W Response
  unfolding check_key
  head_object quote bucket key params = do
    _ ← check_key quote key
    object ← find_object bucket key params
    pure (record {
      status = 200;
      headers =
          (lit "Content-Type", object.content_type)
          ∷ (lit "Content-Length", show_i64 object.size)
          ∷ (lit "ETag", quoted_etag object.etag)
          ∷ (lit "x-amz-version-id", x.uuid_to_string object.version_id)
          ∷ [];
      body = empty_body;
    })
