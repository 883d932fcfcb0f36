-- ===== src/Server/Messages.antt =====
-- crates/types/src/protocol.rs: the messages of clients and servers, and crates/types/src/project.rs:
-- the roles in a project.
use squirreldb.Base.{Text, lit, text_eq, Bool, true, false, Option, none, some, if◌then◌else◌}
use squirreldb.Cache.Json.{Json}
use squirreldb.Sql.Filter.{StructuredQuery}
use squirreldb.Sql.Sanitize.{has_part}
use squirreldb.Subscriptions.{Uuid, ChangeEvent}

pub data QueryInput (N : Type 0) : Type 0 where
  structured : StructuredQuery N → QueryInput N
  script : Text → QueryInput N

unfoldable pub is_structured : {N : Type 0} → QueryInput N → Bool
is_structured (structured q) = true
is_structured (script s) = false

unfoldable pub table : {N : Type 0} → QueryInput N → Option Text
table (structured q) = some q.table
table (script s) = none

unfoldable pub contains : {N : Type 0} → QueryInput N → Text → Bool
contains (script s) pattern_text = has_part pattern_text s
contains (structured q) pattern_text = has_part pattern_text q.table

unfoldable pub as_script : {N : Type 0} → QueryInput N → Option Text
as_script (script s) = some s
as_script (structured q) = none

unfoldable pub as_structured : {N : Type 0} → QueryInput N → Option (StructuredQuery N)
as_structured (structured q) = some q
as_structured (script s) = none

pub data ClientMessage (N : Type 0) : Type 0 where
  select_project : Text → Uuid → ClientMessage N
  query subscribe : Text → QueryInput N → ClientMessage N
  unsubscribe : Text → ClientMessage N
  insert : Text → Text → Json N → ClientMessage N
  update : Text → Text → Uuid → Json N → ClientMessage N
  delete : Text → Text → Uuid → ClientMessage N
  list_collections list_projects ping : Text → ClientMessage N

-- `ClientMessage::id`
unfoldable pub request_id : {N : Type 0} → ClientMessage N → Text
request_id (select_project id project_id) = id
request_id (query id q) = id
request_id (subscribe id q) = id
request_id (unsubscribe id) = id
request_id (insert id collection content) = id
request_id (update id collection document_id content) = id
request_id (delete id collection document_id) = id
request_id (list_collections id) = id
request_id (list_projects id) = id
request_id (ping id) = id

pub data ServerMessage (N : Type 0) : Type 0 where
  result : Text → Json N → ServerMessage N
  change : Text → ChangeEvent N → ServerMessage N
  subscribed unsubscribed pong : Text → ServerMessage N
  project_selected : Text → Uuid → ServerMessage N
  error : Text → Text → ServerMessage N

-- The field `id`, which every message has.
abbrev pub answer_id : {N : Type 0} → ServerMessage N → Text
answer_id (result id v) = id
answer_id (change id event) = id
answer_id (subscribed id) = id
answer_id (unsubscribed id) = id
answer_id (pong id) = id
answer_id (project_selected id project_id) = id
answer_id (error id message) = id

pub data ProjectRole : Type 0 where
  owner admin member viewer : ProjectRole

unfoldable pub show_role : ProjectRole → Text
show_role owner = lit "owner"
show_role admin = lit "admin"
show_role member = lit "member"
show_role viewer = lit "viewer"

-- `FromStr`; `to_lowercase` of the standard library is a parameter.
unfoldable pub parse_role : (Text → Text) → Text → Option ProjectRole
parse_role to_lowercase s =
    if text_eq (to_lowercase s) (lit "owner")
    then some owner
    else if text_eq (to_lowercase s) (lit "admin")
    then some admin
    else if text_eq (to_lowercase s) (lit "member")
    then some member
    else if text_eq (to_lowercase s) (lit "viewer")
    then some viewer
    else none

unfoldable pub can_write : ProjectRole → Bool
can_write viewer = false
can_write role = true

unfoldable pub can_read : ProjectRole → Bool
can_read role = true

unfoldable pub can_manage_members : ProjectRole → Bool
can_manage_members owner = true
can_manage_members admin = true
can_manage_members role = false

unfoldable pub can_delete_project : ProjectRole → Bool
can_delete_project owner = true
can_delete_project role = false
