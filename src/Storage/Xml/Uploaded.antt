-- ===== src/Storage/Xml/Uploaded.antt =====
-- What the reader gets from the documents of uploads in parts.
use squirreldb.Base.{Text, lit, show_i64, text_eq, some, ◌++◌, ◌≡◌, refl, [], ◌∷◌, List, Bool, ℤ}
use squirreldb.Storage.Externals.{Platform, IsPlainPlatform}
use squirreldb.Storage.Types.{
  InitiateMultipartUploadResponse, CompleteMultipartUploadResponse, MultipartPart, MultipartUpload,
}
use squirreldb.Storage.Xml.Common.{declaration, show_bool}
use squirreldb.Storage.Xml.Uploads.{
  initiate_multipart_upload_xml, complete_multipart_upload_xml, part_xml, list_parts_xml,
  upload_xml, list_multipart_uploads_xml, copy_object_result_xml,
}
use squirreldb.Storage.Xml.Reader
use squirreldb.Storage.Xml.Reader.{Leaf, run}
use squirreldb.Storage.Xml.Moves.{
  Moves, silent, named, ◌⟫◌, ◌⟩◌, start, leaf, quoted, quoted_leaf, each_values, each-Moves,
  Moves-read,
}
use squirreldb.Storage.Xml.Spelling.{
  IsPlain-Spells, escape_xml-Spells, show_i64-Spells, show_bool-Spells,
}

abbrev pub initiate_multipart_upload_values : InitiateMultipartUploadResponse → List Leaf
initiate_multipart_upload_values response =
    named (lit "Bucket") response.bucket
    ++ named (lit "Key") response.key
    ++ named (lit "UploadId") response.upload_id

pub initiate_multipart_upload_xml-Moves :
    (a : InitiateMultipartUploadResponse)
    → Moves (initiate_multipart_upload_xml a) (initiate_multipart_upload_values a) [] []
unfolding run text_eq initiate_multipart_upload_xml
initiate_multipart_upload_xml-Moves response =
    start (silent declaration (λ t out. (_, refl)))
    ⟩ silent
        (lit "<InitiateMultipartUploadResult xmlns=\"http://s3.amazonaws.com/doc/2006-03-01/\">\n")
        (λ t out. (_, refl))
    ⟫ leaf (lit "  <Bucket>") (lit "</Bucket>\n") (lit "Bucket")
        {s = lit "InitiateMultipartUploadResult" ∷ []} (λ t out. refl) (λ t out. (_, refl))
        (escape_xml-Spells response.bucket)
    ⟫ leaf (lit "  <Key>") (lit "</Key>\n") (lit "Key") (λ t out. refl) (λ t out. (_, refl))
        (escape_xml-Spells response.key)
    ⟫ leaf (lit "  <UploadId>") (lit "</UploadId>\n") (lit "UploadId") (λ t out. refl)
        (λ t out. (_, refl)) (escape_xml-Spells response.upload_id)
    ⟩ silent (lit "</InitiateMultipartUploadResult>") (λ t out. (_, refl))

abbrev pub complete_multipart_upload_values : CompleteMultipartUploadResponse → List Leaf
complete_multipart_upload_values response =
    named (lit "Location") response.location
    ++ named (lit "Bucket") response.bucket
    ++ named (lit "Key") response.key
    ++ named (lit "ETag") (quoted response.etag)

pub complete_multipart_upload_xml-Moves :
    (a : CompleteMultipartUploadResponse)
    → Moves (complete_multipart_upload_xml a) (complete_multipart_upload_values a) [] []
unfolding run text_eq complete_multipart_upload_xml
complete_multipart_upload_xml-Moves response =
    start (silent declaration (λ t out. (_, refl)))
    ⟩ silent
        (lit "<CompleteMultipartUploadResult xmlns=\"http://s3.amazonaws.com/doc/2006-03-01/\">\n")
        (λ t out. (_, refl))
    ⟫ leaf (lit "  <Location>") (lit "</Location>\n") (lit "Location") (λ t out. refl)
        (λ t out. (_, refl)) (escape_xml-Spells response.location)
    ⟫ leaf (lit "  <Bucket>") (lit "</Bucket>\n") (lit "Bucket")
        {s = lit "CompleteMultipartUploadResult" ∷ []} (λ t out. refl) (λ t out. (_, refl))
        (escape_xml-Spells response.bucket)
    ⟫ leaf (lit "  <Key>") (lit "</Key>\n") (lit "Key") (λ t out. refl) (λ t out. (_, refl))
        (escape_xml-Spells response.key)
    ⟫ quoted_leaf (lit "  <ETag>\"") (lit "\"</ETag>\n") (lit "ETag") (λ t out. refl)
        (λ t out. (_, refl)) (escape_xml-Spells response.etag)
    ⟩ silent (lit "</CompleteMultipartUploadResult>") (λ t out. (_, refl))

abbrev pub part_values : (x : Platform) → MultipartPart x → List Leaf
part_values x part =
    named (lit "PartNumber") (show_i64 part.part_number)
    ++ named (lit "LastModified") (x.to_rfc3339 part.created_at)
    ++ named (lit "ETag") (quoted part.etag)
    ++ named (lit "Size") (show_i64 part.size)

pub part_xml-Moves :
    (x : Platform) (h : IsPlainPlatform x) {s : List Text} (a : MultipartPart x)
    → Moves (part_xml x a) (part_values x a) s s
unfolding run text_eq
part_xml-Moves x h part =
    start (silent (lit "  <Part>\n") (λ t out. (_, refl)))
    ⟫ leaf (lit "    <PartNumber>") (lit "</PartNumber>\n") (lit "PartNumber") (λ t out. refl)
        (λ t out. (_, refl)) (show_i64-Spells part.part_number)
    ⟫ leaf (lit "    <LastModified>") (lit "</LastModified>\n") (lit "LastModified") (λ t out. refl)
        (λ t out. (_, refl)) (IsPlain-Spells _ (h.times part.created_at))
    ⟫ quoted_leaf (lit "    <ETag>\"") (lit "\"</ETag>\n") (lit "ETag") (λ t out. refl)
        (λ t out. (_, refl)) (escape_xml-Spells part.etag)
    ⟫ leaf (lit "    <Size>") (lit "</Size>\n") (lit "Size") (λ t out. refl) (λ t out. (_, refl))
        (show_i64-Spells part.size)
    ⟩ silent (lit "  </Part>\n") (λ t out. (_, refl))

abbrev pub list_parts_values :
    (x : Platform) → Text → Text → Text → List (MultipartPart x) → ℤ → Bool → List Leaf
list_parts_values x bucket key upload_id parts max_parts is_truncated =
    named (lit "Bucket") bucket
    ++ named (lit "Key") key
    ++ named (lit "UploadId") upload_id
    ++ named (lit "MaxParts") (show_i64 max_parts)
    ++ named (lit "IsTruncated") (show_bool is_truncated)
    ++ each_values (part_values x) parts

pub list_parts_xml-Moves :
    (x : Platform) (h : IsPlainPlatform x) (a : Text) (b : Text) (c : Text)
    (d : List (MultipartPart x)) (e : ℤ) (f : Bool)
    → Moves (list_parts_xml x a b c d e f) (list_parts_values x a b c d e f) [] []
unfolding run text_eq list_parts_xml
list_parts_xml-Moves x h bucket key upload_id parts max_parts is_truncated =
    start (silent declaration (λ t out. (_, refl)))
    ⟩ silent (lit "<ListPartsResult xmlns=\"http://s3.amazonaws.com/doc/2006-03-01/\">\n")
        (λ t out. (_, refl))
    ⟫ leaf (lit "  <Bucket>") (lit "</Bucket>\n") (lit "Bucket") {s = lit "ListPartsResult" ∷ []}
        (λ t out. refl) (λ t out. (_, refl)) (escape_xml-Spells bucket)
    ⟫ leaf (lit "  <Key>") (lit "</Key>\n") (lit "Key") (λ t out. refl) (λ t out. (_, refl))
        (escape_xml-Spells key)
    ⟫ leaf (lit "  <UploadId>") (lit "</UploadId>\n") (lit "UploadId") (λ t out. refl)
        (λ t out. (_, refl)) (escape_xml-Spells upload_id)
    ⟫ leaf (lit "  <MaxParts>") (lit "</MaxParts>\n") (lit "MaxParts") (λ t out. refl)
        (λ t out. (_, refl)) (show_i64-Spells max_parts)
    ⟫ leaf (lit "  <IsTruncated>") (lit "</IsTruncated>\n") (lit "IsTruncated") (λ t out. refl)
        (λ t out. (_, refl)) (show_bool-Spells is_truncated)
    ⟫ each-Moves (part_xml x) (part_values x) _ (λ a. part_xml-Moves x h a) parts
    ⟩ silent (lit "</ListPartsResult>") (λ t out. (_, refl))

abbrev pub upload_values : (x : Platform) → MultipartUpload x → List Leaf
upload_values x upload =
    named (lit "Key") upload.key
    ++ named (lit "UploadId") (x.uuid_to_string upload.upload_id)
    ++ named (lit "Initiated") (x.to_rfc3339 upload.initiated_at)

pub upload_xml-Moves :
    (x : Platform) (h : IsPlainPlatform x) {s : List Text} (a : MultipartUpload x)
    → Moves (upload_xml x a) (upload_values x a) s s
unfolding run text_eq
upload_xml-Moves x h upload =
    start (silent (lit "  <Upload>\n") (λ t out. (_, refl)))
    ⟫ leaf (lit "    <Key>") (lit "</Key>\n") (lit "Key") (λ t out. refl) (λ t out. (_, refl))
        (escape_xml-Spells upload.key)
    ⟫ leaf (lit "    <UploadId>") (lit "</UploadId>\n") (lit "UploadId") (λ t out. refl)
        (λ t out. (_, refl)) (IsPlain-Spells _ (h.identifiers upload.upload_id))
    ⟫ leaf (lit "    <Initiated>") (lit "</Initiated>\n") (lit "Initiated") (λ t out. refl)
        (λ t out. (_, refl)) (IsPlain-Spells _ (h.times upload.initiated_at))
    ⟩ silent (lit "  </Upload>\n") (λ t out. (_, refl))

abbrev pub list_multipart_uploads_values :
    (x : Platform) → Text → List (MultipartUpload x) → ℤ → Bool → List Leaf
list_multipart_uploads_values x bucket uploads max_uploads is_truncated =
    named (lit "Bucket") bucket
    ++ named (lit "MaxUploads") (show_i64 max_uploads)
    ++ named (lit "IsTruncated") (show_bool is_truncated)
    ++ each_values (upload_values x) uploads

pub list_multipart_uploads_xml-Moves :
    (x : Platform) (h : IsPlainPlatform x) (a : Text) (b : List (MultipartUpload x)) (c : ℤ)
    (d : Bool)
    → Moves (list_multipart_uploads_xml x a b c d) (list_multipart_uploads_values x a b c d) [] []
unfolding run text_eq list_multipart_uploads_xml
list_multipart_uploads_xml-Moves x h bucket uploads max_uploads is_truncated =
    start (silent declaration (λ t out. (_, refl)))
    ⟩ silent
        (lit "<ListMultipartUploadsResult xmlns=\"http://s3.amazonaws.com/doc/2006-03-01/\">\n")
        (λ t out. (_, refl))
    ⟫ leaf (lit "  <Bucket>") (lit "</Bucket>\n") (lit "Bucket")
        {s = lit "ListMultipartUploadsResult" ∷ []} (λ t out. refl) (λ t out. (_, refl))
        (escape_xml-Spells bucket)
    ⟫ leaf (lit "  <MaxUploads>") (lit "</MaxUploads>\n") (lit "MaxUploads") (λ t out. refl)
        (λ t out. (_, refl)) (show_i64-Spells max_uploads)
    ⟫ leaf (lit "  <IsTruncated>") (lit "</IsTruncated>\n") (lit "IsTruncated") (λ t out. refl)
        (λ t out. (_, refl)) (show_bool-Spells is_truncated)
    ⟫ each-Moves (upload_xml x) (upload_values x) _ (λ a. upload_xml-Moves x h a) uploads
    ⟩ silent (lit "</ListMultipartUploadsResult>") (λ t out. (_, refl))

abbrev pub copy_object_result_values : (x : Platform) → Text → x.DateTime → List Leaf
copy_object_result_values x etag last_modified =
    named (lit "ETag") (quoted etag) ++ named (lit "LastModified") (x.to_rfc3339 last_modified)

pub copy_object_result_xml-Moves :
    (x : Platform) (h : IsPlainPlatform x) (a : Text) (b : x.DateTime)
    → Moves (copy_object_result_xml x a b) (copy_object_result_values x a b) [] []
unfolding run text_eq copy_object_result_xml
copy_object_result_xml-Moves x h etag last_modified =
    start (silent declaration (λ t out. (_, refl)))
    ⟩ silent (lit "<CopyObjectResult>\n") (λ t out. (_, refl))
    ⟫ quoted_leaf (lit "  <ETag>\"") (lit "\"</ETag>\n") (lit "ETag") (λ t out. refl)
        (λ t out. (_, refl)) (escape_xml-Spells etag)
    ⟫ leaf (lit "  <LastModified>") (lit "</LastModified>\n") (lit "LastModified") (λ t out. refl)
        (λ t out. (_, refl)) (IsPlain-Spells _ (h.times last_modified))
    ⟩ silent (lit "</CopyObjectResult>") (λ t out. (_, refl))

-- The answer to a new upload is read back as its values, whatever characters they hold.
pub read-initiate_multipart_upload_xml :
    (a : InitiateMultipartUploadResponse)
    → Reader.read (initiate_multipart_upload_xml a) ≡ some (initiate_multipart_upload_values a)
read-initiate_multipart_upload_xml a = Moves-read (initiate_multipart_upload_xml-Moves a)

-- The answer to a completed upload is read back as its values, whatever characters they hold.
pub read-complete_multipart_upload_xml :
    (a : CompleteMultipartUploadResponse)
    → Reader.read (complete_multipart_upload_xml a) ≡ some (complete_multipart_upload_values a)
read-complete_multipart_upload_xml a = Moves-read (complete_multipart_upload_xml-Moves a)

-- A list of parts is read back as its values, whatever characters they hold, where times and
-- identifiers are written without markup.
pub read-list_parts_xml :
    (x : Platform)
    → IsPlainPlatform x
    → (a : Text) (b : Text) (c : Text) (d : List (MultipartPart x)) (e : ℤ) (f : Bool)
    → Reader.read (list_parts_xml x a b c d e f) ≡ some (list_parts_values x a b c d e f)
read-list_parts_xml x h a b c d e f = Moves-read (list_parts_xml-Moves x h a b c d e f)

-- A list of uploads is read back as its values, whatever characters they hold, where times and
-- identifiers are written without markup.
pub read-list_multipart_uploads_xml :
    (x : Platform)
    → IsPlainPlatform x
    → (a : Text) (b : List (MultipartUpload x)) (c : ℤ) (d : Bool)
    → Reader.read (list_multipart_uploads_xml x a b c d)
      ≡ some (list_multipart_uploads_values x a b c d)
read-list_multipart_uploads_xml x h a b c d =
    Moves-read (list_multipart_uploads_xml-Moves x h a b c d)

-- The answer to a copy is read back as its values, whatever characters they hold, where times
-- and identifiers are written without markup.
pub read-copy_object_result_xml :
    (x : Platform)
    → IsPlainPlatform x
    → (a : Text) (b : x.DateTime)
    → Reader.read (copy_object_result_xml x a b) ≡ some (copy_object_result_values x a b)
read-copy_object_result_xml x h a b = Moves-read (copy_object_result_xml-Moves x h a b)
