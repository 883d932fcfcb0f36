-- ===== src/Storage/Xml/Uploads.antt =====
-- crates/sqrld/src/storage/xml.rs: the documents of uploads in parts.
use squirreldb.Base.{Text, lit, show_i64, Bool, ℤ, List, ◌++◌}
use squirreldb.Storage.Externals.{Platform}
use squirreldb.Storage.Types.{
  InitiateMultipartUploadResponse, CompleteMultipartUploadResponse, MultipartPart, MultipartUpload,
}
use squirreldb.Storage.Xml.Common.{declaration, each, wrap, show_bool}
use squirreldb.Storage.Xml.Escape.{escape_xml}

unfoldable pub initiate_multipart_upload_xml : InitiateMultipartUploadResponse → Text
initiate_multipart_upload_xml response =
    declaration
    ++ lit "<InitiateMultipartUploadResult xmlns=\"http://s3.amazonaws.com/doc/2006-03-01/\">\n"
    ++ wrap (lit "  <Bucket>") (escape_xml response.bucket) (lit "</Bucket>\n")
    ++ wrap (lit "  <Key>") (escape_xml response.key) (lit "</Key>\n")
    ++ wrap (lit "  <UploadId>") (escape_xml response.upload_id) (lit "</UploadId>\n")
    ++ lit "</InitiateMultipartUploadResult>"

unfoldable pub complete_multipart_upload_xml : CompleteMultipartUploadResponse → Text
complete_multipart_upload_xml response =
    declaration
    ++ lit "<CompleteMultipartUploadResult xmlns=\"http://s3.amazonaws.com/doc/2006-03-01/\">\n"
    ++ wrap (lit "  <Location>") (escape_xml response.location) (lit "</Location>\n")
    ++ wrap (lit "  <Bucket>") (escape_xml response.bucket) (lit "</Bucket>\n")
    ++ wrap (lit "  <Key>") (escape_xml response.key) (lit "</Key>\n")
    ++ wrap (lit "  <ETag>\"") (escape_xml response.etag) (lit "\"</ETag>\n")
    ++ lit "</CompleteMultipartUploadResult>"

module _ (x : Platform) where
  abbrev pub part_xml : MultipartPart x → Text
  part_xml part =
      lit "  <Part>\n"
      ++ wrap (lit "    <PartNumber>") (show_i64 part.part_number) (lit "</PartNumber>\n")
      ++ wrap (lit "    <LastModified>") (x.to_rfc3339 part.created_at) (lit "</LastModified>\n")
      ++ wrap (lit "    <ETag>\"") (escape_xml part.etag) (lit "\"</ETag>\n")
      ++ wrap (lit "    <Size>") (show_i64 part.size) (lit "</Size>\n")
      ++ lit "  </Part>\n"

  unfoldable pub list_parts_xml : Text → Text → Text → List (MultipartPart x) → ℤ → Bool → Text
  list_parts_xml bucket key upload_id parts max_parts is_truncated =
      declaration
      ++ lit "<ListPartsResult xmlns=\"http://s3.amazonaws.com/doc/2006-03-01/\">\n"
      ++ wrap (lit "  <Bucket>") (escape_xml bucket) (lit "</Bucket>\n")
      ++ wrap (lit "  <Key>") (escape_xml key) (lit "</Key>\n")
      ++ wrap (lit "  <UploadId>") (escape_xml upload_id) (lit "</UploadId>\n")
      ++ wrap (lit "  <MaxParts>") (show_i64 max_parts) (lit "</MaxParts>\n")
      ++ wrap (lit "  <IsTruncated>") (show_bool is_truncated) (lit "</IsTruncated>\n")
      ++ each part_xml parts
      ++ lit "</ListPartsResult>"

  abbrev pub upload_xml : MultipartUpload x → Text
  upload_xml upload =
      lit "  <Upload>\n"
      ++ wrap (lit "    <Key>") (escape_xml upload.key) (lit "</Key>\n")
      ++ wrap (lit "    <UploadId>") (x.uuid_to_string upload.upload_id) (lit "</UploadId>\n")
      ++ wrap (lit "    <Initiated>") (x.to_rfc3339 upload.initiated_at) (lit "</Initiated>\n")
      ++ lit "  </Upload>\n"

  unfoldable pub list_multipart_uploads_xml : Text → List (MultipartUpload x) → ℤ → Bool → Text
  list_multipart_uploads_xml bucket uploads max_uploads is_truncated =
      declaration
      ++ lit "<ListMultipartUploadsResult xmlns=\"http://s3.amazonaws.com/doc/2006-03-01/\">\n"
      ++ wrap (lit "  <Bucket>") (escape_xml bucket) (lit "</Bucket>\n")
      ++ wrap (lit "  <MaxUploads>") (show_i64 max_uploads) (lit "</MaxUploads>\n")
      ++ wrap (lit "  <IsTruncated>") (show_bool is_truncated) (lit "</IsTruncated>\n")
      ++ each upload_xml uploads
      ++ lit "</ListMultipartUploadsResult>"

  unfoldable pub copy_object_result_xml : Text → x.DateTime → Text
  copy_object_result_xml etag last_modified =
      declaration
      ++ lit "<CopyObjectResult>\n"
      ++ wrap (lit "  <ETag>\"") (escape_xml etag) (lit "\"</ETag>\n")
      ++ wrap (lit "  <LastModified>") (x.to_rfc3339 last_modified) (lit "</LastModified>\n")
      ++ lit "</CopyObjectResult>"
