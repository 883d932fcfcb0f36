-- ===== src/Storage/Reported.antt =====
-- The document of an error, as the reader of documents reads it.
use squirreldb.Base.{
  arith, Text, lit, ◌≡◌, refl, ◌++◌, some, List, [], ◌∷◌, Bool, true, ◌&&◌, ◌||◌, not, ◌==◌,
  text_eq,
}
use squirreldb.Storage.Externals.{IsPlain}
use squirreldb.Storage.Codes
use squirreldb.Storage.Codes.{StorageErrorCode, as_str}
use squirreldb.Storage.Error.{StorageError, to_xml, resource_xml, request_id_xml}
use squirreldb.Storage.Xml.Reader
use squirreldb.Storage.Xml.Reader.{Leaf, run}
use squirreldb.Storage.Xml.Moves.{
  Moves, Spells, silent, named, ◌⟫◌, ◌⟩◌, start, leaf, optional_values, optional-Moves, Moves-read,
}
use squirreldb.Storage.Xml.Spelling.{IsPlain-Spells, escape_xml-Spells}
use squirreldb.Storage.Xml.Common.{declaration}

abbrev is_plain : Text → Bool
is_plain [] = true
is_plain (c ∷ cs) = not (c == b'<' || c == b'>' || c == b'&') && is_plain cs

is_plain-IsPlain : (t : Text) → is_plain t ≡ true → IsPlain t
is_plain-IsPlain [] h = tt
is_plain-IsPlain (c ∷ cs) h = ground (arith, is_plain-IsPlain cs)

as_str-plain : (c : StorageErrorCode) → is_plain (as_str c) ≡ true
unfolding as_str
as_str-plain Codes.access_denied = refl
as_str-plain Codes.account_problem = refl
as_str-plain Codes.all_access_disabled = refl
as_str-plain Codes.ambiguous_grant_by_email_address = refl
as_str-plain Codes.authorization_header_malformed = refl
as_str-plain Codes.bad_digest = refl
as_str-plain Codes.bucket_already_exists = refl
as_str-plain Codes.bucket_already_owned_by_you = refl
as_str-plain Codes.bucket_not_empty = refl
as_str-plain Codes.credentials_not_supported = refl
as_str-plain Codes.cross_location_logging_prohibited = refl
as_str-plain Codes.entity_too_small = refl
as_str-plain Codes.entity_too_large = refl
as_str-plain Codes.expired_token = refl
as_str-plain Codes.illegal_versioning_configuration_exception = refl
as_str-plain Codes.incomplete_body = refl
as_str-plain Codes.incorrect_number_of_files_in_post_request = refl
as_str-plain Codes.inline_data_too_large = refl
as_str-plain Codes.internal_error = refl
as_str-plain Codes.invalid_access_key_id = refl
as_str-plain Codes.invalid_addressing_header = refl
as_str-plain Codes.invalid_argument = refl
as_str-plain Codes.invalid_bucket_name = refl
as_str-plain Codes.invalid_bucket_state = refl
as_str-plain Codes.invalid_digest = refl
as_str-plain Codes.invalid_encryption_algorithm_error = refl
as_str-plain Codes.invalid_location_constraint = refl
as_str-plain Codes.invalid_object_state = refl
as_str-plain Codes.invalid_part = refl
as_str-plain Codes.invalid_part_order = refl
as_str-plain Codes.invalid_payer = refl
as_str-plain Codes.invalid_policy_document = refl
as_str-plain Codes.invalid_range = refl
as_str-plain Codes.invalid_request = refl
as_str-plain Codes.invalid_security = refl
as_str-plain Codes.invalid_soap_request = refl
as_str-plain Codes.invalid_storage_class = refl
as_str-plain Codes.invalid_target_bucket_for_logging = refl
as_str-plain Codes.invalid_token = refl
as_str-plain Codes.invalid_uri = refl
as_str-plain Codes.key_too_long_error = refl
as_str-plain Codes.malformed_acl_error = refl
as_str-plain Codes.malformed_post_request = refl
as_str-plain Codes.malformed_xml = refl
as_str-plain Codes.max_message_length_exceeded = refl
as_str-plain Codes.max_post_pre_data_length_exceeded_error = refl
as_str-plain Codes.metadata_too_large = refl
as_str-plain Codes.method_not_allowed = refl
as_str-plain Codes.missing_attachment = refl
as_str-plain Codes.missing_content_length = refl
as_str-plain Codes.missing_request_body_error = refl
as_str-plain Codes.missing_security_element = refl
as_str-plain Codes.missing_security_header = refl
as_str-plain Codes.no_logging_status_for_key = refl
as_str-plain Codes.no_such_bucket = refl
as_str-plain Codes.no_such_bucket_policy = refl
as_str-plain Codes.no_such_key = refl
as_str-plain Codes.no_such_lifecycle_configuration = refl
as_str-plain Codes.no_such_upload = refl
as_str-plain Codes.no_such_version = refl
as_str-plain Codes.not_implemented = refl
as_str-plain Codes.not_signed_up = refl
as_str-plain Codes.operation_aborted = refl
as_str-plain Codes.permanent_redirect = refl
as_str-plain Codes.precondition_failed = refl
as_str-plain Codes.redirect = refl
as_str-plain Codes.restore_already_in_progress = refl
as_str-plain Codes.request_is_not_multi_part_content = refl
as_str-plain Codes.request_timeout = refl
as_str-plain Codes.request_time_too_skewed = refl
as_str-plain Codes.request_torrent_of_bucket_error = refl
as_str-plain Codes.signature_does_not_match = refl
as_str-plain Codes.service_unavailable = refl
as_str-plain Codes.slow_down = refl
as_str-plain Codes.temporary_redirect = refl
as_str-plain Codes.token_refresh_required = refl
as_str-plain Codes.too_many_buckets = refl
as_str-plain Codes.unexpected_content = refl
as_str-plain Codes.unresolvable_grant_by_email_address = refl
as_str-plain Codes.user_key_must_be_specified = refl

as_str-Spells : (c : StorageErrorCode) → Spells (as_str c) (as_str c)
as_str-Spells c = IsPlain-Spells _ (is_plain-IsPlain _ (as_str-plain c))

abbrev pub resource_values : Text → List Leaf
resource_values resource = named (lit "Resource") resource

pub resource_xml-Moves : {s : List Text} (a : Text) → Moves (resource_xml a) (resource_values a) s s
unfolding run text_eq
resource_xml-Moves resource =
    leaf (lit "  <Resource>") (lit "</Resource>\n") (lit "Resource") (λ t out. refl)
      (λ t out. (_, refl)) (escape_xml-Spells resource)

abbrev pub request_id_values : Text → List Leaf
request_id_values request_id = named (lit "RequestId") request_id

pub request_id_xml-Moves :
    {s : List Text} (a : Text) → Moves (request_id_xml a) (request_id_values a) s s
unfolding run text_eq
request_id_xml-Moves request_id =
    leaf (lit "  <RequestId>") (lit "</RequestId>\n") (lit "RequestId") (λ t out. refl)
      (λ t out. (_, refl)) (escape_xml-Spells request_id)

abbrev pub to_values : StorageError → List Leaf
to_values e =
    named (lit "Code") (as_str e.code)
    ++ named (lit "Message") e.message
    ++ optional_values resource_values e.resource
    ++ optional_values request_id_values e.request_id

pub to_xml-Moves : (a : StorageError) → Moves (to_xml a) (to_values a) [] []
unfolding run text_eq to_xml
to_xml-Moves e =
    start (silent declaration (λ t out. (_, refl)))
    ⟩ silent (lit "<Error>\n") (λ t out. (_, refl))
    ⟫ leaf (lit "  <Code>") (lit "</Code>\n") (lit "Code") (λ t out. refl) (λ t out. (_, refl))
        (as_str-Spells e.code)
    ⟫ leaf (lit "  <Message>") (lit "</Message>\n") (lit "Message") (λ t out. refl)
        (λ t out. (_, refl)) (escape_xml-Spells e.message)
    ⟫ optional-Moves resource_xml resource_values _ (λ a. resource_xml-Moves a) e.resource
    ⟫ optional-Moves request_id_xml request_id_values _ (λ a. request_id_xml-Moves a) e.request_id
    ⟩ silent (lit "</Error>") (λ t out. (_, refl))

-- The document of an error is read back as its code's name, its message and, where it has them, its
-- resource and its request's identifier, whatever characters these hold: nothing in them closes an
-- element or opens one.
pub read-to_xml : (e : StorageError) → Reader.read (to_xml e) ≡ some (to_values e)
read-to_xml e = Moves-read (to_xml-Moves e)
