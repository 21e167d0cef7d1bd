-- ===== src/Mock/Lifecycle.antt =====
-- internal/mockserver/arp_lifecycle.go: the state of the mock ARP server, and its projects. A handler
-- runs under the lock of the state, as one step.
pub mod Workspaces
pub mod Agents
pub mod Steps
use spec_torture.Base.{
  ℕ, ◌+◌, String, Bool, true, false, not, ◌&&◌, Option, none, some, List, [], ◌∷◌, ◌==◌, any, ltb,
  map, if◌then◌else◌,
}
use spec_torture.Base.Int.{pos}
use spec_torture.Base.Dict.{Dict, lookup, insert, delete}
use spec_torture.Base.Text.{concat, decimal}
use spec_torture.Base.Strings.{trim_prefix}
use spec_torture.Value.{
  Value, null, text, int, arr, obj, Fields, field, no_fields, of_items, of_fields,
}

pub record MockProject : Type 0 where
  pub name : String
  pub repo : Value
  pub created_at : String
  pub agents : Option Value

-- A workspace holds the maps of the agents that were spawned with it: here their ids, under which they
-- stay in the state as long as the workspace does.
pub record MockWorkspace : Type 0 where
  pub name : String
  pub project : String
  pub status : String
  pub agents : List String
  pub dir : String
  pub created_at : String

-- The map of an agent; a token id is there with a scope or a permission.
pub record MockAgent : Type 0 where
  pub id : String
  pub template : String
  pub workspace : String
  pub status : String
  pub port : ℕ
  pub direct_url : String
  pub proxy_url : String
  pub started_at : String
  pub name : Option Value
  pub scope : Option Value
  pub permission : Option Value

-- `arpState`, with the ids for which a goroutine sleeps that will mark the agent as ready
pub record ArpState : Type 0 where
  pub projects : Dict MockProject
  pub workspaces : Dict MockWorkspace
  pub agents : Dict MockAgent
  pub next_port : ℕ
  pub next_agent_n : ℕ
  pub sleeping : List String

-- `newARPState`
abbrev pub new_arp_state : ArpState
new_arp_state = record {
  projects = [];
  workspaces = [];
  agents = [];
  next_port = 10001;
  next_agent_n = 1;
  sleeping = [];
}

-- A request as the handlers read it: `body` is the decoded object, `query` has the first values.
pub record MockRequest : Type 0 where
  pub method : String
  pub path : String
  pub query : Dict String
  pub body : Option (Dict Value)

pub record MockReply : Type 0 where
  pub status : ℕ
  pub body : Value

abbrev pub reply_of : ℕ → Value → MockReply
reply_of status body = record { status = status; body = body }

-- `writeHTTPError`, whose text is shortened where it quotes a name
abbrev pub error_reply : ℕ → String → MockReply
error_reply status message = reply_of status (obj (field "error" (text message) no_fields))

abbrev pub method_not_allowed : MockReply
method_not_allowed = reply_of 405 (text "method not allowed")

abbrev pub ok_reply : String → MockReply
ok_reply name = reply_of 200 (obj (field "status" (text "ok") (field "name" (text name) no_fields)))

-- a failed type assertion gives ""
abbrev pub text_or_empty : Option Value → String
text_or_empty (some (text s)) = s
text_or_empty _ = ""

abbrev pub or_null : Option Value → Value
or_null none = null
or_null (some v) = v

-- an entry that is there only with a value
abbrev pub with_entry : String → Option Value → Dict Value → Dict Value
with_entry k none rest = rest
with_entry k (some v) rest = (k, v) ∷ rest

abbrev pub values {ℓ} : {A : Type ℓ} → Dict A → List A
values [] = []
values ((k, a) ∷ m) = a ∷ values m

unfoldable pub project_value : MockProject → Value
unfolding insert
project_value p = obj (
    of_fields (
      ("name", text p.name)
      ∷ ("repo", p.repo)
      ∷ ("created_at", text p.created_at)
      ∷ with_entry "agents" p.agents []))

abbrev pub new_project : String → String → Dict Value → MockProject
new_project now name body = record {
  name = name;
  repo = or_null (lookup "repo" body);
  created_at = now;
  agents = lookup "agents" body;
}

-- the project of a POST, with the time at which it is made
abbrev pub add_project : String → ArpState → Dict Value → String → MockReply × ArpState
add_project now s body name =
    if name == "" then (error_reply 400 "name is required", s) else elim (lookup name s.projects) [
      | some p ↦ (error_reply 409 "project already exists", s)
      | none ↦
          let p : MockProject = new_project now name body in
          (reply_of 201 (project_value p), record s { projects = insert name p s.projects })
    ]

abbrev pub post_project : String → ArpState → Option (Dict Value) → MockReply × ArpState
post_project now s none = (error_reply 400 "invalid JSON body", s)
post_project now s (some body) = add_project now s body (text_or_empty (lookup "name" body))

-- `handleARPProjectsCRUD`
unfoldable pub handle_projects_crud : String → ArpState → MockRequest → MockReply × ArpState
unfolding project_value insert lookup
handle_projects_crud now s r =
    if r.method == "GET"
    then (reply_of 200 (arr (of_items (map project_value (values s.projects)))), s)
    else if r.method == "POST"
    then post_project now s r.body
    else (method_not_allowed, s)

-- an active workspace of the project
abbrev pub is_active_in : String → MockWorkspace → Bool
is_active_in name ws = ws.project == name && ws.status == "active"

abbrev pub drop_project : ArpState → String → Option MockProject → MockReply × ArpState
drop_project s name none = (error_reply 404 "project not found", s)
drop_project s name (some p) =
    if any (is_active_in name) (values s.workspaces)
    then (error_reply 409 "project has active workspaces", s)
    else (ok_reply name, record s { projects = delete name s.projects })

abbrev pub get_project : Option MockProject → MockReply
get_project none = error_reply 404 "project not found"
get_project (some p) = reply_of 200 (project_value p)

-- `handleARPProjectByName`
unfoldable pub handle_project_by_name : ArpState → MockRequest → MockReply × ArpState
unfolding project_value delete lookup trim_prefix
handle_project_by_name s r =
    let name : String = trim_prefix r.path "/api/projects/" in
    if name == ""
    then (error_reply 400 "project name required", s)
    else if r.method == "GET"
    then (get_project (lookup name s.projects), s)
    else if r.method == "DELETE"
    then drop_project s name (lookup name s.projects)
    else (method_not_allowed, s)
