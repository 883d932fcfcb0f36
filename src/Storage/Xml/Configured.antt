-- ===== src/Storage/Xml/Configured.antt =====
-- What the reader gets from the settings of a bucket and from the result of deleting.
use squirreldb.Base.{
  arith, Text, lit, show_i64, text_eq, some, ◌++◌, ◌≡◌, refl, [], List, Bool, ℤ, true, false,
}
use squirreldb.Storage.Types.{LifecycleRule, DeletedObject, DeleteError, DeleteResult}
use squirreldb.Storage.Xml.Common.{declaration, show_bool}
use squirreldb.Storage.Xml.Settings.{
  versioning_config_xml, version_xml, marker_xml, marker_version_xml, deleted_xml, delete_error_xml,
  delete_result_xml, rule_prefix_xml, days_xml, noncurrent_xml, rule_xml, lifecycle_config_xml,
  versioning_status, rule_status,
}
use squirreldb.Storage.Xml.Reader
use squirreldb.Storage.Xml.Reader.{Leaf, run}
use squirreldb.Storage.Xml.Moves.{
  Moves, Spells, silent, named, ◌⟫◌, ◌⟩◌, start, leaf, optional_values, each_values, optional-Moves,
  each-Moves, Moves-read,
}
use squirreldb.Storage.Xml.Spelling.{
  IsPlain-Spells, escape_xml-Spells, show_i64-Spells, show_bool-Spells,
}

versioning_status-Spells : (b : Bool) → Spells (versioning_status b) (versioning_status b)
versioning_status-Spells true = IsPlain-Spells (lit "Enabled") (ground arith)
versioning_status-Spells false = IsPlain-Spells (lit "Suspended") (ground arith)

rule_status-Spells : (b : Bool) → Spells (rule_status b) (rule_status b)
rule_status-Spells true = IsPlain-Spells (lit "Enabled") (ground arith)
rule_status-Spells false = IsPlain-Spells (lit "Disabled") (ground arith)

abbrev pub versioning_config_values : Bool → List Leaf
versioning_config_values enabled = named (lit "Status") (versioning_status enabled)

pub versioning_config_xml-Moves :
    (a : Bool) → Moves (versioning_config_xml a) (versioning_config_values a) [] []
unfolding run text_eq versioning_config_xml
versioning_config_xml-Moves enabled =
    start (silent declaration (λ t out. (_, refl)))
    ⟩ silent (lit "<VersioningConfiguration xmlns=\"http://s3.amazonaws.com/doc/2006-03-01/\">\n")
        (λ t out. (_, refl))
    ⟫ leaf (lit "  <Status>") (lit "</Status>\n") (lit "Status") (λ t out. refl)
        (λ t out. (_, refl)) (versioning_status-Spells enabled)
    ⟩ silent (lit "</VersioningConfiguration>") (λ t out. (_, refl))

abbrev pub version_values : Text → List Leaf
version_values vid = named (lit "VersionId") vid

pub version_xml-Moves : {s : List Text} (a : Text) → Moves (version_xml a) (version_values a) s s
unfolding run text_eq
version_xml-Moves vid =
    leaf (lit "    <VersionId>") (lit "</VersionId>\n") (lit "VersionId") (λ t out. refl)
      (λ t out. (_, refl)) (escape_xml-Spells vid)

abbrev pub marker_values : Bool → List Leaf
marker_values dm = named (lit "DeleteMarker") (show_bool dm)

pub marker_xml-Moves : {s : List Text} (a : Bool) → Moves (marker_xml a) (marker_values a) s s
unfolding run text_eq
marker_xml-Moves dm =
    leaf (lit "    <DeleteMarker>") (lit "</DeleteMarker>\n") (lit "DeleteMarker") (λ t out. refl)
      (λ t out. (_, refl)) (show_bool-Spells dm)

abbrev pub marker_version_values : Text → List Leaf
marker_version_values vid = named (lit "DeleteMarkerVersionId") vid

pub marker_version_xml-Moves :
    {s : List Text} (a : Text) → Moves (marker_version_xml a) (marker_version_values a) s s
unfolding run text_eq
marker_version_xml-Moves vid =
    leaf (lit "    <DeleteMarkerVersionId>") (lit "</DeleteMarkerVersionId>\n")
      (lit "DeleteMarkerVersionId") (λ t out. refl) (λ t out. (_, refl)) (escape_xml-Spells vid)

abbrev pub deleted_values : DeletedObject → List Leaf
deleted_values deleted =
    named (lit "Key") deleted.key
    ++ optional_values version_values deleted.version_id
    ++ optional_values marker_values deleted.delete_marker
    ++ optional_values marker_version_values deleted.delete_marker_version_id

pub deleted_xml-Moves :
    {s : List Text} (a : DeletedObject) → Moves (deleted_xml a) (deleted_values a) s s
unfolding run text_eq
deleted_xml-Moves deleted =
    start (silent (lit "  <Deleted>\n") (λ t out. (_, refl)))
    ⟫ leaf (lit "    <Key>") (lit "</Key>\n") (lit "Key") (λ t out. refl) (λ t out. (_, refl))
        (escape_xml-Spells deleted.key)
    ⟫ optional-Moves version_xml version_values _ (λ a. version_xml-Moves a) deleted.version_id
    ⟫ optional-Moves marker_xml marker_values _ (λ a. marker_xml-Moves a) deleted.delete_marker
    ⟫ optional-Moves marker_version_xml marker_version_values _ (λ a. marker_version_xml-Moves a)
        deleted.delete_marker_version_id
    ⟩ silent (lit "  </Deleted>\n") (λ t out. (_, refl))

abbrev pub delete_error_values : DeleteError → List Leaf
delete_error_values error =
    named (lit "Key") error.key
    ++ optional_values version_values error.version_id
    ++ named (lit "Code") error.code
    ++ named (lit "Message") error.message

pub delete_error_xml-Moves :
    {s : List Text} (a : DeleteError) → Moves (delete_error_xml a) (delete_error_values a) s s
unfolding run text_eq
delete_error_xml-Moves error =
    start (silent (lit "  <Error>\n") (λ t out. (_, refl)))
    ⟫ leaf (lit "    <Key>") (lit "</Key>\n") (lit "Key") (λ t out. refl) (λ t out. (_, refl))
        (escape_xml-Spells error.key)
    ⟫ optional-Moves version_xml version_values _ (λ a. version_xml-Moves a) error.version_id
    ⟫ leaf (lit "    <Code>") (lit "</Code>\n") (lit "Code") (λ t out. refl) (λ t out. (_, refl))
        (escape_xml-Spells error.code)
    ⟫ leaf (lit "    <Message>") (lit "</Message>\n") (lit "Message") (λ t out. refl)
        (λ t out. (_, refl)) (escape_xml-Spells error.message)
    ⟩ silent (lit "  </Error>\n") (λ t out. (_, refl))

abbrev pub delete_result_values : DeleteResult → List Leaf
delete_result_values result =
    each_values deleted_values result.deleted ++ each_values delete_error_values result.errors

pub delete_result_xml-Moves :
    (a : DeleteResult) → Moves (delete_result_xml a) (delete_result_values a) [] []
unfolding run text_eq delete_result_xml
delete_result_xml-Moves result =
    start (silent declaration (λ t out. (_, refl)))
    ⟩ silent (lit "<DeleteResult xmlns=\"http://s3.amazonaws.com/doc/2006-03-01/\">\n")
        (λ t out. (_, refl))
    ⟫ each-Moves deleted_xml deleted_values _ (λ a. deleted_xml-Moves a) result.deleted
    ⟫ each-Moves delete_error_xml delete_error_values _ (λ a. delete_error_xml-Moves a)
        result.errors
    ⟩ silent (lit "</DeleteResult>") (λ t out. (_, refl))

abbrev pub rule_prefix_values : Text → List Leaf
rule_prefix_values prefix = named (lit "Prefix") prefix

pub rule_prefix_xml-Moves :
    {s : List Text} (a : Text) → Moves (rule_prefix_xml a) (rule_prefix_values a) s s
unfolding run text_eq
rule_prefix_xml-Moves prefix =
    leaf (lit "    <Prefix>") (lit "</Prefix>\n") (lit "Prefix") (λ t out. refl)
      (λ t out. (_, refl)) (escape_xml-Spells prefix)

abbrev pub days_values : ℤ → List Leaf
days_values days = named (lit "Days") (show_i64 days)

pub days_xml-Moves : {s : List Text} (a : ℤ) → Moves (days_xml a) (days_values a) s s
unfolding run text_eq
days_xml-Moves days =
    start (silent (lit "    <Expiration>\n") (λ t out. (_, refl)))
    ⟫ leaf (lit "      <Days>") (lit "</Days>\n") (lit "Days") (λ t out. refl) (λ t out. (_, refl))
        (show_i64-Spells days)
    ⟩ silent (lit "    </Expiration>\n") (λ t out. (_, refl))

abbrev pub noncurrent_values : ℤ → List Leaf
noncurrent_values days = named (lit "NoncurrentDays") (show_i64 days)

pub noncurrent_xml-Moves :
    {s : List Text} (a : ℤ) → Moves (noncurrent_xml a) (noncurrent_values a) s s
unfolding run text_eq
noncurrent_xml-Moves days =
    start (silent (lit "    <NoncurrentVersionExpiration>\n") (λ t out. (_, refl)))
    ⟫ leaf (lit "      <NoncurrentDays>") (lit "</NoncurrentDays>\n") (lit "NoncurrentDays")
        (λ t out. refl) (λ t out. (_, refl)) (show_i64-Spells days)
    ⟩ silent (lit "    </NoncurrentVersionExpiration>\n") (λ t out. (_, refl))

abbrev pub rule_values : LifecycleRule → List Leaf
rule_values rule =
    named (lit "ID") rule.id
    ++ named (lit "Status") (rule_status rule.enabled)
    ++ optional_values rule_prefix_values rule.prefix
    ++ optional_values days_values rule.expiration_days
    ++ optional_values noncurrent_values rule.noncurrent_version_expiration_days

pub rule_xml-Moves : {s : List Text} (a : LifecycleRule) → Moves (rule_xml a) (rule_values a) s s
unfolding run text_eq
rule_xml-Moves rule =
    start (silent (lit "  <Rule>\n") (λ t out. (_, refl)))
    ⟫ leaf (lit "    <ID>") (lit "</ID>\n") (lit "ID") (λ t out. refl) (λ t out. (_, refl))
        (escape_xml-Spells rule.id)
    ⟫ leaf (lit "    <Status>") (lit "</Status>\n") (lit "Status") (λ t out. refl)
        (λ t out. (_, refl)) (rule_status-Spells rule.enabled)
    ⟫ optional-Moves rule_prefix_xml rule_prefix_values _ (λ a. rule_prefix_xml-Moves a) rule.prefix
    ⟫ optional-Moves days_xml days_values _ (λ a. days_xml-Moves a) rule.expiration_days
    ⟫ optional-Moves noncurrent_xml noncurrent_values _ (λ a. noncurrent_xml-Moves a)
        rule.noncurrent_version_expiration_days
    ⟩ silent (lit "  </Rule>\n") (λ t out. (_, refl))

abbrev pub lifecycle_config_values : List LifecycleRule → List Leaf
lifecycle_config_values rules = each_values rule_values rules

pub lifecycle_config_xml-Moves :
    (a : List LifecycleRule) → Moves (lifecycle_config_xml a) (lifecycle_config_values a) [] []
unfolding run text_eq lifecycle_config_xml
lifecycle_config_xml-Moves rules =
    start (silent declaration (λ t out. (_, refl)))
    ⟩ silent (lit "<LifecycleConfiguration xmlns=\"http://s3.amazonaws.com/doc/2006-03-01/\">\n")
        (λ t out. (_, refl))
    ⟫ each-Moves rule_xml rule_values _ (λ a. rule_xml-Moves a) rules
    ⟩ silent (lit "</LifecycleConfiguration>") (λ t out. (_, refl))

-- The setting of versions is read back as its values, whatever characters they hold.
pub read-versioning_config_xml :
    (a : Bool) → Reader.read (versioning_config_xml a) ≡ some (versioning_config_values a)
read-versioning_config_xml a = Moves-read (versioning_config_xml-Moves a)

-- The answer to a deletion is read back as its values, whatever characters they hold.
pub read-delete_result_xml :
    (a : DeleteResult) → Reader.read (delete_result_xml a) ≡ some (delete_result_values a)
read-delete_result_xml a = Moves-read (delete_result_xml-Moves a)

-- A list of rules is read back as its values, whatever characters they hold.
pub read-lifecycle_config_xml :
    (a : List LifecycleRule)
    → Reader.read (lifecycle_config_xml a) ≡ some (lifecycle_config_values a)
read-lifecycle_config_xml a = Moves-read (lifecycle_config_xml-Moves a)
