-- ===== src/Storage/Tests/Requests.antt =====
-- Tests of the requests, and their theorems at concrete requests.
use squirreldb.Storage.Services.{Written}
use squirreldb.Storage.Responses.{uuid_param}
use squirreldb.Base.{
  is_empty, false, ℕ, pos, Text, lit, none, some, List, [], ◌∷◌, ◌≡◌, refl, show_i64, text_eq,
  parse_i64, from_utf8_lossy,
}
use squirreldb.Base.HashMap
use squirreldb.Base.Results.{Result, ok}
use squirreldb.Security.Keys.{path_traversal, validate_object_key}
use squirreldb.Storage.Types.{MultipartUpload, CompletedPart, parse_copy_source}
use squirreldb.Storage.Actions.{Fault}
use squirreldb.Storage.Services.{StorageState}
use squirreldb.Storage.Responses.{Response}
use squirreldb.Storage.Routes.Range.{parse_range}
use squirreldb.Storage.Routes.Parts.{parse_complete_multipart_request, trim_matches}
use squirreldb.Storage.Routes.Multipart.{complete_multipart_upload}
use squirreldb.Storage.Routes.Object.{
  put_object, put_object_or_operation, get_object_or_operation, head_object,
}
use squirreldb.Storage.Routes.Deleting.{delete_object_or_operation, post_object_operation}
use squirreldb.Storage.Routes.Guarded.{Refuses, refusal, handlers-Refuses}
use squirreldb.Storage.Routes.Ordered.{
  IsAscending, AreOnRecord, complete_multipart_upload-IsAscending,
}
use squirreldb.Storage.Tests.World.{numbered}
use squirreldb.Storage.Tests.Store.{World, store, empty_world, rows_backend, files_backend}

range : parse_range (lit "bytes=2-5") ≡ some (2, some 5)
unfolding parse_range
range = refl

-- The last five bytes cannot be asked for.
suffix_range : parse_range (lit "bytes=-5") ≡ none
unfolding parse_range
suffix_range = refl

copied :
    parse_copy_source numbered (lit "/photos/a/b?versionId=7")
    ≡ some (record { bucket = lit "photos"; key = lit "a/b"; version_id = some (lit "7") })
unfolding parse_copy_source
copied = refl

-- A tag in the entities of XML is not unquoted.
entities : trim_matches b'"' (lit "&quot;00&quot;") ≡ lit "&quot;00&quot;"
unfolding trim_matches
entities = refl

abbrev behind_put : World
unfolding put_object HashMap.insert
behind_put = (put_object store (lit "photos") (lit "k") [] (1 ∷ 2 ∷ []) empty_world).1

abbrev quote : ℕ → Text
quote c = c ∷ []

handlers-Refuses_example :
    Refuses
      (refusal quote path_traversal)
      (put_object_or_operation store quote (lit "photos") (lit "../x") [] [] [])
    × Refuses
        (refusal quote path_traversal)
        (get_object_or_operation store quote (lit "photos") (lit "../x") [] [])
    × Refuses
        (refusal quote path_traversal)
        (head_object store quote (lit "photos") (lit "../x") [])
    × Refuses
        (refusal quote path_traversal)
        (delete_object_or_operation store quote (lit "photos") (lit "../x") [])
    × Refuses
        (refusal quote path_traversal)
        (post_object_operation store quote (λ t. []) (lit "photos") (lit "../x") [] [])
unfolding validate_object_key
handlers-Refuses_example =
    handlers-Refuses store quote (λ t. []) (lit "photos") (lit "../x") [] [] [] path_traversal refl

-- The store, where the upload 7 is under way and each of its parts is there.
abbrev uploading : StorageState numbered World
uploading = record store {
  backend = record rows_backend {
    get_multipart_upload = λ u w. (
      ok (
          some (record {
            upload_id = 7;
            bucket = lit "photos";
            key = lit "k";
            content_type = none;
            metadata = squirreldb.Cache.Json.null;
            initiated_at = 0;
          })),
      w,
    );
    get_multipart_part = λ u n w. (
      ok (
          some (record {
            upload_id = 7;
            part_number = n;
            etag = lit "00";
            size = pos 2;
            storage_path = show_i64 n;
            created_at = 0;
          })),
      w,
    );
    delete_multipart_upload = λ u w. (ok tt, w);
  };
  storage = record files_backend {
    assemble_parts = λ b k v ps w. (ok (lit "path", (lit "00-2", pos 4)), w);
  };
}

abbrev two_captures : Text → List (Text × Text)
two_captures t = (lit "1", lit "00") ∷ (lit "2", lit "00") ∷ []

abbrev upload_params : List (Text × Text)
upload_params = (lit "uploadId", lit "7") ∷ []

abbrev completed : Result Fault Response × World
unfolding complete_multipart_upload HashMap.insert HashMap.get
completed =
    complete_multipart_upload uploading two_captures (lit "photos") (lit "k") upload_params []
      empty_world

complete_multipart_upload-IsAscending_example :
    (id : ℕ) × (upload : MultipartUpload numbered) × (parts : List CompletedPart) × (paths : List
      Text)
    × (version_id : ℕ) × (written : Written) × (w1 : World) × (w2 : World) × (w3 : World)
    × (w4 : World) × (uuid_param numbered upload_params (lit "uploadId") ≡ some id)
    × (uploading.backend.get_multipart_upload id empty_world ≡ (ok (some upload), w1))
    × (parse_complete_multipart_request two_captures (from_utf8_lossy []) ≡ ok parts)
    × (is_empty parts ≡ false)
    × IsAscending (pos 0) parts
    × AreOnRecord uploading id parts paths w1 w2
    × (uploading.new_v4 w2 ≡ (ok version_id, w3))
    × (uploading.storage.assemble_parts (lit "photos") (lit "k") version_id paths w3
        ≡ (ok written, w4))
unfolding completed complete_multipart_upload HashMap.insert HashMap.get text_eq parse_i64
complete_multipart_upload-IsAscending_example =
    complete_multipart_upload-IsAscending uploading two_captures (lit "photos") (lit "k")
      upload_params [] _ empty_world completed.1 refl
