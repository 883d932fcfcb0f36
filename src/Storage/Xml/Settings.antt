-- ===== src/Storage/Xml/Settings.antt =====
-- crates/sqrld/src/storage/xml.rs: versioning, access and lifecycle of a bucket, and the result of
-- deleting objects.
use squirreldb.Base.{Text, lit, show_i64, Bool, true, false, ℤ, Option, List, ◌++◌}
use squirreldb.Storage.Types.{
  Permission, full_control, write, write_acp, read, read_acp, Grantee, canonical_user, group,
  AclGrant, LifecycleRule, DeletedObject, DeleteError, DeleteResult,
}
use squirreldb.Storage.Xml.Common.{declaration, optional, each, wrap, show_bool}
use squirreldb.Storage.Xml.Escape.{escape_xml}

abbrev pub versioning_status : Bool → Text
versioning_status true = lit "Enabled"
versioning_status false = lit "Suspended"

unfoldable pub versioning_config_xml : Bool → Text
versioning_config_xml enabled =
    declaration
    ++ lit "<VersioningConfiguration xmlns=\"http://s3.amazonaws.com/doc/2006-03-01/\">\n"
    ++ wrap (lit "  <Status>") (versioning_status enabled) (lit "</Status>\n")
    ++ lit "</VersioningConfiguration>"

abbrev pub version_xml : Text → Text
version_xml vid = wrap (lit "    <VersionId>") (escape_xml vid) (lit "</VersionId>\n")

abbrev pub marker_xml : Bool → Text
marker_xml dm = wrap (lit "    <DeleteMarker>") (show_bool dm) (lit "</DeleteMarker>\n")

abbrev pub marker_version_xml : Text → Text
marker_version_xml vid =
    wrap (lit "    <DeleteMarkerVersionId>") (escape_xml vid) (lit "</DeleteMarkerVersionId>\n")

abbrev pub deleted_xml : DeletedObject → Text
deleted_xml deleted =
    lit "  <Deleted>\n"
    ++ wrap (lit "    <Key>") (escape_xml deleted.key) (lit "</Key>\n")
    ++ optional version_xml deleted.version_id
    ++ optional marker_xml deleted.delete_marker
    ++ optional marker_version_xml deleted.delete_marker_version_id
    ++ lit "  </Deleted>\n"

abbrev pub delete_error_xml : DeleteError → Text
delete_error_xml error =
    lit "  <Error>\n"
    ++ wrap (lit "    <Key>") (escape_xml error.key) (lit "</Key>\n")
    ++ optional version_xml error.version_id
    ++ wrap (lit "    <Code>") (escape_xml error.code) (lit "</Code>\n")
    ++ wrap (lit "    <Message>") (escape_xml error.message) (lit "</Message>\n")
    ++ lit "  </Error>\n"

unfoldable pub delete_result_xml : DeleteResult → Text
delete_result_xml result =
    declaration
    ++ lit "<DeleteResult xmlns=\"http://s3.amazonaws.com/doc/2006-03-01/\">\n"
    ++ each deleted_xml result.deleted
    ++ each delete_error_xml result.errors
    ++ lit "</DeleteResult>"

abbrev pub permission_to_str : Permission → Text
permission_to_str full_control = lit "FULL_CONTROL"
permission_to_str write = lit "WRITE"
permission_to_str write_acp = lit "WRITE_ACP"
permission_to_str read = lit "READ"
permission_to_str read_acp = lit "READ_ACP"

abbrev pub acl_owner_name : Text → Text
acl_owner_name name = wrap (lit "    <DisplayName>") (escape_xml name) (lit "</DisplayName>\n")

abbrev pub grantee_name : Text → Text
grantee_name name = wrap (lit "        <DisplayName>") (escape_xml name) (lit "</DisplayName>\n")

abbrev pub grantee_xml : Grantee → Text
grantee_xml (canonical_user id display_name) =
    lit
      "      <Grantee xmlns:xsi=\"http://www.w3.org/2001/XMLSchema-instance\" xsi:type=\"CanonicalUser\">\n"
    ++ wrap (lit "        <ID>") (escape_xml id) (lit "</ID>\n")
    ++ optional grantee_name display_name
    ++ lit "      </Grantee>\n"
grantee_xml (group uri) =
    lit
      "      <Grantee xmlns:xsi=\"http://www.w3.org/2001/XMLSchema-instance\" xsi:type=\"Group\">\n"
    ++ wrap (lit "        <URI>") (escape_xml uri) (lit "</URI>\n")
    ++ lit "      </Grantee>\n"

abbrev pub grant_xml : AclGrant → Text
grant_xml grant =
    lit "    <Grant>\n"
    ++ grantee_xml grant.grantee
    ++ wrap (lit "      <Permission>") (permission_to_str grant.permission) (lit "</Permission>\n")
    ++ lit "    </Grant>\n"

unfoldable pub acl_xml : Text → Option Text → List AclGrant → Text
acl_xml owner_id owner_name grants =
    declaration
    ++ lit "<AccessControlPolicy xmlns=\"http://s3.amazonaws.com/doc/2006-03-01/\">\n"
    ++ lit "  <Owner>\n"
    ++ wrap (lit "    <ID>") (escape_xml owner_id) (lit "</ID>\n")
    ++ optional acl_owner_name owner_name
    ++ lit "  </Owner>\n"
    ++ lit "  <AccessControlList>\n"
    ++ each grant_xml grants
    ++ lit "  </AccessControlList>\n"
    ++ lit "</AccessControlPolicy>"

abbrev pub rule_status : Bool → Text
rule_status true = lit "Enabled"
rule_status false = lit "Disabled"

abbrev pub rule_prefix_xml : Text → Text
rule_prefix_xml prefix = wrap (lit "    <Prefix>") (escape_xml prefix) (lit "</Prefix>\n")

abbrev pub days_xml : ℤ → Text
days_xml days =
    lit "    <Expiration>\n"
    ++ wrap (lit "      <Days>") (show_i64 days) (lit "</Days>\n")
    ++ lit "    </Expiration>\n"

abbrev pub noncurrent_xml : ℤ → Text
noncurrent_xml days =
    lit "    <NoncurrentVersionExpiration>\n"
    ++ wrap (lit "      <NoncurrentDays>") (show_i64 days) (lit "</NoncurrentDays>\n")
    ++ lit "    </NoncurrentVersionExpiration>\n"

abbrev pub rule_xml : LifecycleRule → Text
rule_xml rule =
    lit "  <Rule>\n"
    ++ wrap (lit "    <ID>") (escape_xml rule.id) (lit "</ID>\n")
    ++ wrap (lit "    <Status>") (rule_status rule.enabled) (lit "</Status>\n")
    ++ optional rule_prefix_xml rule.prefix
    ++ optional days_xml rule.expiration_days
    ++ optional noncurrent_xml rule.noncurrent_version_expiration_days
    ++ lit "  </Rule>\n"

unfoldable pub lifecycle_config_xml : List LifecycleRule → Text
lifecycle_config_xml rules =
    declaration
    ++ lit "<LifecycleConfiguration xmlns=\"http://s3.amazonaws.com/doc/2006-03-01/\">\n"
    ++ each rule_xml rules
    ++ lit "</LifecycleConfiguration>"
