-- ===== src/Storage/Xml/Granted.antt =====
-- What the reader gets from a list of grants.
use squirreldb.Base.{arith, Text, lit, text_eq, Option, some, ◌++◌, ◌≡◌, refl, [], List}
use squirreldb.Storage.Types.{
  Permission, full_control, write, write_acp, read, read_acp, Grantee, canonical_user, group,
  AclGrant,
}
use squirreldb.Storage.Xml.Common.{declaration}
use squirreldb.Storage.Xml.Settings.{
  acl_owner_name, grantee_name, grantee_xml, grant_xml, acl_xml, permission_to_str,
}
use squirreldb.Storage.Xml.Reader
use squirreldb.Storage.Xml.Reader.{Leaf, run}
use squirreldb.Storage.Xml.Moves.{
  Moves, Spells, silent, named, ◌⟫◌, ◌⟩◌, start, leaf, optional_values, each_values, optional-Moves,
  each-Moves, Moves-read,
}
use squirreldb.Storage.Xml.Spelling.{IsPlain-Spells, escape_xml-Spells}

permission_to_str-Spells : (p : Permission) → Spells (permission_to_str p) (permission_to_str p)
permission_to_str-Spells full_control = IsPlain-Spells (lit "FULL_CONTROL") (ground arith)
permission_to_str-Spells write = IsPlain-Spells (lit "WRITE") (ground arith)
permission_to_str-Spells write_acp = IsPlain-Spells (lit "WRITE_ACP") (ground arith)
permission_to_str-Spells read = IsPlain-Spells (lit "READ") (ground arith)
permission_to_str-Spells read_acp = IsPlain-Spells (lit "READ_ACP") (ground arith)

abbrev pub acl_owner_name_values : Text → List Leaf
acl_owner_name_values name = named (lit "DisplayName") name

pub acl_owner_name-Moves :
    {s : List Text} (a : Text) → Moves (acl_owner_name a) (acl_owner_name_values a) s s
unfolding run text_eq
acl_owner_name-Moves name =
    leaf (lit "    <DisplayName>") (lit "</DisplayName>\n") (lit "DisplayName") (λ t out. refl)
      (λ t out. (_, refl)) (escape_xml-Spells name)

abbrev pub grantee_name_values : Text → List Leaf
grantee_name_values name = named (lit "DisplayName") name

pub grantee_name-Moves :
    {s : List Text} (a : Text) → Moves (grantee_name a) (grantee_name_values a) s s
unfolding run text_eq
grantee_name-Moves name =
    leaf (lit "        <DisplayName>") (lit "</DisplayName>\n") (lit "DisplayName") (λ t out. refl)
      (λ t out. (_, refl)) (escape_xml-Spells name)

abbrev pub grantee_values : Grantee → List Leaf
grantee_values (canonical_user id display_name) =
    named (lit "ID") id ++ optional_values grantee_name_values display_name
grantee_values (group uri) = named (lit "URI") uri

pub grantee_xml-Moves : {s : List Text} (a : Grantee) → Moves (grantee_xml a) (grantee_values a) s s
unfolding run text_eq
grantee_xml-Moves (canonical_user id display_name) =
    start (
      silent
        (lit
          "      <Grantee xmlns:xsi=\"http://www.w3.org/2001/XMLSchema-instance\" xsi:type=\"CanonicalUser\">\n")
        (λ t out. (_, refl)))
    ⟫ leaf (lit "        <ID>") (lit "</ID>\n") (lit "ID") (λ t out. refl) (λ t out. (_, refl))
        (escape_xml-Spells id)
    ⟫ optional-Moves grantee_name grantee_name_values _ (λ a. grantee_name-Moves a) display_name
    ⟩ silent (lit "      </Grantee>\n") (λ t out. (_, refl))
grantee_xml-Moves (group uri) =
    start (
      silent
        (lit
          "      <Grantee xmlns:xsi=\"http://www.w3.org/2001/XMLSchema-instance\" xsi:type=\"Group\">\n")
        (λ t out. (_, refl)))
    ⟫ leaf (lit "        <URI>") (lit "</URI>\n") (lit "URI") (λ t out. refl) (λ t out. (_, refl))
        (escape_xml-Spells uri)
    ⟩ silent (lit "      </Grantee>\n") (λ t out. (_, refl))

abbrev pub grant_values : AclGrant → List Leaf
grant_values grant =
    grantee_values grant.grantee ++ named (lit "Permission") (permission_to_str grant.permission)

pub grant_xml-Moves : {s : List Text} (a : AclGrant) → Moves (grant_xml a) (grant_values a) s s
unfolding run text_eq
grant_xml-Moves grant =
    start (silent (lit "    <Grant>\n") (λ t out. (_, refl)))
    ⟫ grantee_xml-Moves grant.grantee
    ⟫ leaf (lit "      <Permission>") (lit "</Permission>\n") (lit "Permission") (λ t out. refl)
        (λ t out. (_, refl)) (permission_to_str-Spells grant.permission)
    ⟩ silent (lit "    </Grant>\n") (λ t out. (_, refl))

abbrev pub acl_values : Text → Option Text → List AclGrant → List Leaf
acl_values owner_id owner_name grants =
    named (lit "ID") owner_id
    ++ optional_values acl_owner_name_values owner_name
    ++ each_values grant_values grants

pub acl_xml-Moves :
    (a : Text) (b : Option Text) (c : List AclGrant)
    → Moves (acl_xml a b c) (acl_values a b c) [] []
unfolding run text_eq acl_xml
acl_xml-Moves owner_id owner_name grants =
    start (silent declaration (λ t out. (_, refl)))
    ⟩ silent (lit "<AccessControlPolicy xmlns=\"http://s3.amazonaws.com/doc/2006-03-01/\">\n")
        (λ t out. (_, refl))
    ⟩ silent (lit "  <Owner>\n") (λ t out. (_, refl))
    ⟫ leaf (lit "    <ID>") (lit "</ID>\n") (lit "ID") (λ t out. refl) (λ t out. (_, refl))
        (escape_xml-Spells owner_id)
    ⟫ optional-Moves acl_owner_name acl_owner_name_values _ (λ a. acl_owner_name-Moves a) owner_name
    ⟩ silent (lit "  </Owner>\n") (λ t out. (_, refl))
    ⟩ silent (lit "  <AccessControlList>\n") (λ t out. (_, refl))
    ⟫ each-Moves grant_xml grant_values _ (λ a. grant_xml-Moves a) grants
    ⟩ silent (lit "  </AccessControlList>\n") (λ t out. (_, refl))
    ⟩ silent (lit "</AccessControlPolicy>") (λ t out. (_, refl))

-- A list of grants is read back as its values, whatever characters they hold.
pub read-acl_xml :
    (a : Text) (b : Option Text) (c : List AclGrant)
    → Reader.read (acl_xml a b c) ≡ some (acl_values a b c)
read-acl_xml a b c = Moves-read (acl_xml-Moves a b c)
