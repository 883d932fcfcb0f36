-- ===== src/Storage/Error.antt =====
-- crates/sqrld/src/storage/error.rs: errors, how they are made, and the document and the status that
-- answer a request with one.
use squirreldb.Base.{Text, lit, Option, none, some, ◌++◌, ℕ}
use squirreldb.Storage.Codes
use squirreldb.Storage.Codes.{StorageErrorCode, as_str, http_status}
use squirreldb.Storage.Xml.Common.{declaration, optional, wrap}
use squirreldb.Storage.Xml.Escape.{escape_xml}

pub record StorageError : Type 0 where
  pub code : StorageErrorCode
  pub message : Text
  pub resource : Option Text
  pub request_id : Option Text

-- `StorageError::new`
abbrev pub new_error : StorageErrorCode → Text → StorageError
new_error code message = record {
  code = code;
  message = message;
  resource = none;
  request_id = none;
}

abbrev pub with_resource : StorageError → Text → StorageError
with_resource e resource = record e { resource = some resource }

abbrev pub with_request_id : StorageError → Text → StorageError
with_request_id e request_id = record e { request_id = some request_id }

abbrev pub access_denied : Text → StorageError
access_denied message = new_error Codes.access_denied message

abbrev pub no_such_bucket : Text → StorageError
no_such_bucket bucket =
    with_resource
      (new_error Codes.no_such_bucket (lit "The specified bucket does not exist: " ++ bucket))
      bucket

abbrev pub no_such_key : Text → StorageError
no_such_key key =
    with_resource (new_error Codes.no_such_key (lit "The specified key does not exist.")) key

abbrev pub bucket_already_exists : Text → StorageError
bucket_already_exists bucket =
    with_resource
      (new_error Codes.bucket_already_exists (lit "The requested bucket name is not available."))
      bucket

abbrev pub bucket_not_empty : Text → StorageError
bucket_not_empty bucket =
    with_resource
      (new_error Codes.bucket_not_empty (lit "The bucket you tried to delete is not empty.")) bucket

abbrev pub internal_error : Text → StorageError
internal_error message = new_error Codes.internal_error message

abbrev pub invalid_argument : Text → StorageError
invalid_argument message = new_error Codes.invalid_argument message

abbrev pub invalid_bucket_name : Text → StorageError
invalid_bucket_name name =
    new_error Codes.invalid_bucket_name (lit "The specified bucket is not valid: " ++ name)

abbrev pub no_such_upload : Text → StorageError
no_such_upload upload_id =
    with_resource (new_error Codes.no_such_upload (lit "The specified upload does not exist."))
      upload_id

abbrev pub resource_xml : Text → Text
resource_xml resource = wrap (lit "  <Resource>") (escape_xml resource) (lit "</Resource>\n")

abbrev pub request_id_xml : Text → Text
request_id_xml request_id =
    wrap (lit "  <RequestId>") (escape_xml request_id) (lit "</RequestId>\n")

unfoldable pub to_xml : StorageError → Text
to_xml e =
    declaration
    ++ lit "<Error>\n"
    ++ wrap (lit "  <Code>") (as_str e.code) (lit "</Code>\n")
    ++ wrap (lit "  <Message>") (escape_xml e.message) (lit "</Message>\n")
    ++ optional resource_xml e.resource
    ++ optional request_id_xml e.request_id
    ++ lit "</Error>"

-- What a client gets: the status and the body.
pub record ErrorResponse : Type 0 where
  pub status : ℕ
  pub body : Text

-- `into_response`
unfoldable pub into_response : StorageError → ErrorResponse
unfolding to_xml
into_response e = record { status = http_status e.code; body = to_xml e }

-- `Display`
unfoldable pub show_error : StorageError → Text
show_error e = as_str e.code ++ lit ": " ++ e.message
