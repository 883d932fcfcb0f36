-- ===== src/Storage/Codes.antt =====
-- crates/sqrld/src/storage/error.rs: the codes of the S3 interface, their names and the HTTP status
-- that each is answered with.
use squirreldb.Base.{ℕ, Text, lit}

pub data StorageErrorCode : Type 0 where
  access_denied account_problem all_access_disabled ambiguous_grant_by_email_address :
      StorageErrorCode
  authorization_header_malformed bad_digest bucket_already_exists : StorageErrorCode
  bucket_already_owned_by_you bucket_not_empty credentials_not_supported : StorageErrorCode
  cross_location_logging_prohibited entity_too_small entity_too_large expired_token :
      StorageErrorCode
  illegal_versioning_configuration_exception incomplete_body : StorageErrorCode
  incorrect_number_of_files_in_post_request inline_data_too_large internal_error : StorageErrorCode
  invalid_access_key_id invalid_addressing_header invalid_argument invalid_bucket_name :
      StorageErrorCode
  invalid_bucket_state invalid_digest invalid_encryption_algorithm_error : StorageErrorCode
  invalid_location_constraint invalid_object_state invalid_part invalid_part_order :
      StorageErrorCode
  invalid_payer invalid_policy_document invalid_range invalid_request invalid_security :
      StorageErrorCode
  invalid_soap_request invalid_storage_class invalid_target_bucket_for_logging : StorageErrorCode
  invalid_token invalid_uri key_too_long_error malformed_acl_error malformed_post_request :
      StorageErrorCode
  malformed_xml max_message_length_exceeded max_post_pre_data_length_exceeded_error :
      StorageErrorCode
  metadata_too_large method_not_allowed missing_attachment missing_content_length : StorageErrorCode
  missing_request_body_error missing_security_element missing_security_header : StorageErrorCode
  no_logging_status_for_key no_such_bucket no_such_bucket_policy no_such_key : StorageErrorCode
  no_such_lifecycle_configuration no_such_upload no_such_version not_implemented : StorageErrorCode
  not_signed_up operation_aborted permanent_redirect precondition_failed redirect : StorageErrorCode
  restore_already_in_progress request_is_not_multi_part_content request_timeout : StorageErrorCode
  request_time_too_skewed request_torrent_of_bucket_error signature_does_not_match :
      StorageErrorCode
  service_unavailable slow_down temporary_redirect token_refresh_required : StorageErrorCode
  too_many_buckets unexpected_content unresolvable_grant_by_email_address : StorageErrorCode
  user_key_must_be_specified : StorageErrorCode

unfoldable pub as_str : StorageErrorCode → Text
as_str access_denied = lit "AccessDenied"
as_str account_problem = lit "AccountProblem"
as_str all_access_disabled = lit "AllAccessDisabled"
as_str ambiguous_grant_by_email_address = lit "AmbiguousGrantByEmailAddress"
as_str authorization_header_malformed = lit "AuthorizationHeaderMalformed"
as_str bad_digest = lit "BadDigest"
as_str bucket_already_exists = lit "BucketAlreadyExists"
as_str bucket_already_owned_by_you = lit "BucketAlreadyOwnedByYou"
as_str bucket_not_empty = lit "BucketNotEmpty"
as_str credentials_not_supported = lit "CredentialsNotSupported"
as_str cross_location_logging_prohibited = lit "CrossLocationLoggingProhibited"
as_str entity_too_small = lit "EntityTooSmall"
as_str entity_too_large = lit "EntityTooLarge"
as_str expired_token = lit "ExpiredToken"
as_str illegal_versioning_configuration_exception = lit "IllegalVersioningConfigurationException"
as_str incomplete_body = lit "IncompleteBody"
as_str incorrect_number_of_files_in_post_request = lit "IncorrectNumberOfFilesInPostRequest"
as_str inline_data_too_large = lit "InlineDataTooLarge"
as_str internal_error = lit "InternalError"
as_str invalid_access_key_id = lit "InvalidAccessKeyId"
as_str invalid_addressing_header = lit "InvalidAddressingHeader"
as_str invalid_argument = lit "InvalidArgument"
as_str invalid_bucket_name = lit "InvalidBucketName"
as_str invalid_bucket_state = lit "InvalidBucketState"
as_str invalid_digest = lit "InvalidDigest"
as_str invalid_encryption_algorithm_error = lit "InvalidEncryptionAlgorithmError"
as_str invalid_location_constraint = lit "InvalidLocationConstraint"
as_str invalid_object_state = lit "InvalidObjectState"
as_str invalid_part = lit "InvalidPart"
as_str invalid_part_order = lit "InvalidPartOrder"
as_str invalid_payer = lit "InvalidPayer"
as_str invalid_policy_document = lit "InvalidPolicyDocument"
as_str invalid_range = lit "InvalidRange"
as_str invalid_request = lit "InvalidRequest"
as_str invalid_security = lit "InvalidSecurity"
as_str invalid_soap_request = lit "InvalidSOAPRequest"
as_str invalid_storage_class = lit "InvalidStorageClass"
as_str invalid_target_bucket_for_logging = lit "InvalidTargetBucketForLogging"
as_str invalid_token = lit "InvalidToken"
as_str invalid_uri = lit "InvalidURI"
as_str key_too_long_error = lit "KeyTooLongError"
as_str malformed_acl_error = lit "MalformedACLError"
as_str malformed_post_request = lit "MalformedPOSTRequest"
as_str malformed_xml = lit "MalformedXML"
as_str max_message_length_exceeded = lit "MaxMessageLengthExceeded"
as_str max_post_pre_data_length_exceeded_error = lit "MaxPostPreDataLengthExceededError"
as_str metadata_too_large = lit "MetadataTooLarge"
as_str method_not_allowed = lit "MethodNotAllowed"
as_str missing_attachment = lit "MissingAttachment"
as_str missing_content_length = lit "MissingContentLength"
as_str missing_request_body_error = lit "MissingRequestBodyError"
as_str missing_security_element = lit "MissingSecurityElement"
as_str missing_security_header = lit "MissingSecurityHeader"
as_str no_logging_status_for_key = lit "NoLoggingStatusForKey"
as_str no_such_bucket = lit "NoSuchBucket"
as_str no_such_bucket_policy = lit "NoSuchBucketPolicy"
as_str no_such_key = lit "NoSuchKey"
as_str no_such_lifecycle_configuration = lit "NoSuchLifecycleConfiguration"
as_str no_such_upload = lit "NoSuchUpload"
as_str no_such_version = lit "NoSuchVersion"
as_str not_implemented = lit "NotImplemented"
as_str not_signed_up = lit "NotSignedUp"
as_str operation_aborted = lit "OperationAborted"
as_str permanent_redirect = lit "PermanentRedirect"
as_str precondition_failed = lit "PreconditionFailed"
as_str redirect = lit "Redirect"
as_str restore_already_in_progress = lit "RestoreAlreadyInProgress"
as_str request_is_not_multi_part_content = lit "RequestIsNotMultiPartContent"
as_str request_timeout = lit "RequestTimeout"
as_str request_time_too_skewed = lit "RequestTimeTooSkewed"
as_str request_torrent_of_bucket_error = lit "RequestTorrentOfBucketError"
as_str signature_does_not_match = lit "SignatureDoesNotMatch"
as_str service_unavailable = lit "ServiceUnavailable"
as_str slow_down = lit "SlowDown"
as_str temporary_redirect = lit "TemporaryRedirect"
as_str token_refresh_required = lit "TokenRefreshRequired"
as_str too_many_buckets = lit "TooManyBuckets"
as_str unexpected_content = lit "UnexpectedContent"
as_str unresolvable_grant_by_email_address = lit "UnresolvableGrantByEmailAddress"
as_str user_key_must_be_specified = lit "UserKeyMustBeSpecified"

-- The status by its number in HTTP.
unfoldable pub http_status : StorageErrorCode → ℕ
http_status access_denied = 403
http_status account_problem = 403
http_status all_access_disabled = 403
http_status authorization_header_malformed = 400
http_status bad_digest = 400
http_status bucket_already_exists = 409
http_status bucket_already_owned_by_you = 409
http_status bucket_not_empty = 409
http_status entity_too_small = 400
http_status entity_too_large = 400
http_status expired_token = 400
http_status internal_error = 500
http_status invalid_access_key_id = 403
http_status invalid_argument = 400
http_status invalid_bucket_name = 400
http_status invalid_digest = 400
http_status invalid_part = 400
http_status invalid_part_order = 400
http_status invalid_range = 416
http_status invalid_request = 400
http_status invalid_token = 400
http_status malformed_xml = 400
http_status method_not_allowed = 405
http_status missing_content_length = 411
http_status no_such_bucket = 404
http_status no_such_key = 404
http_status no_such_upload = 404
http_status no_such_version = 404
http_status not_implemented = 501
http_status precondition_failed = 412
http_status request_timeout = 400
http_status request_time_too_skewed = 403
http_status signature_does_not_match = 403
http_status service_unavailable = 503
http_status slow_down = 503
http_status too_many_buckets = 400
http_status _ = 500
