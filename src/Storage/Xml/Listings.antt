-- ===== src/Storage/Xml/Listings.antt =====
-- crates/sqrld/src/storage/xml.rs: the lists of buckets and of objects.
use squirreldb.Base.{Text, lit, show_i64, Option, none, some, ◌++◌}
use squirreldb.Storage.Externals.{Platform}
use squirreldb.Storage.Types.{
  Owner, BucketInfo, ListBucketsResponse, ObjectInfo, ListObjectsResponse,
}
use squirreldb.Storage.Xml.Common.{declaration, optional, each, wrap, show_bool}
use squirreldb.Storage.Xml.Escape.{escape_xml}

abbrev pub owner_name : Text → Text
owner_name name = wrap (lit "    <DisplayName>") (escape_xml name) (lit "</DisplayName>\n")

abbrev pub bucket_owner : Owner → Text
bucket_owner owner =
    lit "  <Owner>\n"
    ++ wrap (lit "    <ID>") (escape_xml owner.id) (lit "</ID>\n")
    ++ optional owner_name owner.display_name
    ++ lit "  </Owner>\n"

abbrev pub object_owner_name : Text → Text
object_owner_name name = wrap (lit "      <DisplayName>") (escape_xml name) (lit "</DisplayName>\n")

abbrev pub object_owner : Owner → Text
object_owner owner =
    lit "    <Owner>\n"
    ++ wrap (lit "      <ID>") (escape_xml owner.id) (lit "</ID>\n")
    ++ optional object_owner_name owner.display_name
    ++ lit "    </Owner>\n"

abbrev pub delimiter_xml : Text → Text
delimiter_xml delimiter = wrap (lit "  <Delimiter>") (escape_xml delimiter) (lit "</Delimiter>\n")

abbrev pub token_xml : Text → Text
token_xml token =
    wrap (lit "  <ContinuationToken>") (escape_xml token) (lit "</ContinuationToken>\n")

abbrev pub next_token_xml : Text → Text
next_token_xml token =
    wrap (lit "  <NextContinuationToken>") (escape_xml token) (lit "</NextContinuationToken>\n")

abbrev pub prefix_xml : Option Text → Text
prefix_xml none = lit "  <Prefix></Prefix>\n"
prefix_xml (some prefix) = wrap (lit "  <Prefix>") (escape_xml prefix) (lit "</Prefix>\n")

abbrev pub common_prefix_xml : Text → Text
common_prefix_xml prefix =
    lit "  <CommonPrefixes>\n"
    ++ wrap (lit "    <Prefix>") (escape_xml prefix) (lit "</Prefix>\n")
    ++ lit "  </CommonPrefixes>\n"

module _ (x : Platform) where
  abbrev pub bucket_xml : BucketInfo x → Text
  bucket_xml bucket =
      lit "    <Bucket>\n"
      ++ wrap (lit "      <Name>") (escape_xml bucket.name) (lit "</Name>\n")
      ++ wrap (lit "      <CreationDate>") (x.to_rfc3339 bucket.creation_date)
          (lit "</CreationDate>\n")
      ++ lit "    </Bucket>\n"

  unfoldable pub list_buckets_xml : ListBucketsResponse x → Text
  list_buckets_xml response =
      declaration
      ++ lit "<ListAllMyBucketsResult xmlns=\"http://s3.amazonaws.com/doc/2006-03-01/\">\n"
      ++ optional bucket_owner response.owner
      ++ lit "  <Buckets>\n"
      ++ each bucket_xml response.buckets
      ++ lit "  </Buckets>\n"
      ++ lit "</ListAllMyBucketsResult>"

  abbrev pub object_xml : ObjectInfo x → Text
  object_xml obj =
      lit "  <Contents>\n"
      ++ wrap (lit "    <Key>") (escape_xml obj.key) (lit "</Key>\n")
      ++ wrap (lit "    <LastModified>") (x.to_rfc3339 obj.last_modified) (lit "</LastModified>\n")
      ++ wrap (lit "    <ETag>\"") (escape_xml obj.etag) (lit "\"</ETag>\n")
      ++ wrap (lit "    <Size>") (show_i64 obj.size) (lit "</Size>\n")
      ++ wrap (lit "    <StorageClass>") (escape_xml obj.storage_class) (lit "</StorageClass>\n")
      ++ optional object_owner obj.owner
      ++ lit "  </Contents>\n"

  unfoldable pub list_objects_v2_xml : ListObjectsResponse x → Text
  list_objects_v2_xml response =
      declaration
      ++ lit "<ListBucketResult xmlns=\"http://s3.amazonaws.com/doc/2006-03-01/\">\n"
      ++ wrap (lit "  <Name>") (escape_xml response.name) (lit "</Name>\n")
      ++ prefix_xml response.prefix
      ++ wrap (lit "  <MaxKeys>") (show_i64 response.max_keys) (lit "</MaxKeys>\n")
      ++ wrap (lit "  <KeyCount>") (show_i64 response.key_count) (lit "</KeyCount>\n")
      ++ wrap (lit "  <IsTruncated>") (show_bool response.is_truncated) (lit "</IsTruncated>\n")
      ++ optional delimiter_xml response.delimiter
      ++ optional token_xml response.continuation_token
      ++ optional next_token_xml response.next_continuation_token
      ++ each object_xml response.contents
      ++ each common_prefix_xml response.common_prefixes
      ++ lit "</ListBucketResult>"
