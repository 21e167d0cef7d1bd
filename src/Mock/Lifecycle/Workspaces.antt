-- ===== src/Mock/Lifecycle/Workspaces.antt =====
-- internal/mockserver/arp_lifecycle.go: the workspaces of the mock ARP server.
use spec_torture.Base.{
  String, Bool, false, ◌&&◌, ◌||◌, Option, none, some, List, [], ◌∷◌, ◌++◌, ◌==◌, map, filter,
  if◌then◌else◌,
}
use spec_torture.Base.Dict.{Dict, lookup, insert, delete}
use spec_torture.Base.Text.{concat}
use spec_torture.Base.Strings.{trim_prefix}
use spec_torture.Value.{Value, text, arr, obj, items, fields, of_items, of_fields}
use spec_torture.Mock.Lifecycle.{
  MockProject, MockWorkspace, MockAgent, ArpState, MockRequest, MockReply, reply_of, error_reply,
  method_not_allowed, ok_reply, text_or_empty, values,
}
use spec_torture.Mock.Lifecycle.Agents.{
  Setting, fresh_agent, start_agent, agent_value, agent_fields, passes,
}

abbrev listed_agent : Option MockAgent → List Value → List Value
listed_agent none rest = rest
listed_agent (some a) rest = agent_value a ∷ rest

-- the agents of a list of ids, as they are now
unfoldable pub agents_of : Dict MockAgent → List String → List Value
unfolding lookup
agents_of as_ [] = []
agents_of as_ (id ∷ ids) = let rest = agents_of as_ ids in listed_agent (lookup id as_) rest

abbrev pub workspace_value : MockWorkspace → List Value → Value
workspace_value ws as_ = obj (
    of_fields (
      ("name", text ws.name)
      ∷ ("project", text ws.project)
      ∷ ("status", text ws.status)
      ∷ ("agents", arr (of_items as_))
      ∷ ("dir", text ws.dir)
      ∷ ("created_at", text ws.created_at)
      ∷ []))

unfoldable pub list_mock_workspaces : Dict String → List MockWorkspace → List MockWorkspace
unfolding lookup
list_mock_workspaces query wss =
    filter
      (λ ws. passes (lookup "project" query) ws.project && passes (lookup "status" query) ws.status)
      wss

-- the template is a map whose name is the text
abbrev pub is_named : String → Value → Bool
unfolding lookup
is_named name (obj fs) = elim (lookup "name" (fields fs)) [
  | none ↦ false
  | some v ↦ elim v [ text s ↦ s == name | _ ↦ false ]
]
is_named name v = false

-- one agent for each template of the name, with the ids of those before it
unfoldable pub spawn_named :
    Setting → String → String → List Value → List String × ArpState → List String × ArpState
unfolding start_agent
spawn_named env workspace name [] (ids, s) = (ids, s)
spawn_named env workspace name (t ∷ ts) (ids, s) =
    let a : MockAgent = fresh_agent env s workspace name in
    let skipped = spawn_named env workspace name ts (ids, s) in
    let spawned = spawn_named env workspace name ts (ids ++ (a.id ∷ []), start_agent a s) in
    if is_named name t then spawned else skipped

-- the loop over `auto_agents`; a name that is not a text counts as ""
unfoldable pub spawn_all :
    Setting → String → List Value → List Value → List String × ArpState → List String × ArpState
unfolding spawn_named
spawn_all env workspace templates [] x = x
spawn_all env workspace templates (n ∷ ns) x =
    spawn_all env workspace templates ns
      (spawn_named env workspace (text_or_empty (some n)) templates x)

-- a failed type assertion gives no items
abbrev pub items_or_none : Option Value → List Value
items_or_none (some (arr vs)) = items vs
items_or_none _ = []

abbrev templates_of : Option MockProject → List Value
templates_of none = []
templates_of (some p) = items_or_none p.agents

abbrev pub new_workspace : String → String → String → MockWorkspace
new_workspace now name project = record {
  name = name;
  project = project;
  status = "active";
  agents = [];
  dir = concat "/tmp/workspaces/" name;
  created_at = now;
}

abbrev pub with_workspace : String → MockWorkspace → ArpState → ArpState
with_workspace name ws s = record s { workspaces = insert name ws s.workspaces }

-- the new workspace takes the place of an old one of its name
unfoldable pub put_workspace :
    Setting → ArpState → Dict Value → String → String → MockReply × ArpState
unfolding spawn_all agents_of insert lookup concat agent_fields
put_workspace env s body name project =
    if name == "" || project == ""
    then (error_reply 400 "name and project are required", s)
    else elim (lookup project s.projects) [
      | none ↦ (error_reply 400 "project does not exist", s)
      | some p ↦
          let ws : MockWorkspace = new_workspace env.now name project in
          let (ids, s') =
            spawn_all env name (items_or_none p.agents) (items_or_none (lookup "auto_agents" body))
              ([], with_workspace name ws s) in
          (
            reply_of 201 (workspace_value ws (agents_of s'.agents ids)),
            with_workspace name (record ws { agents = ids }) s',
          )
    ]

abbrev pub post_workspace : Setting → ArpState → Option (Dict Value) → MockReply × ArpState
post_workspace env s none = (error_reply 400 "invalid JSON body", s)
post_workspace env s (some body) =
    put_workspace env s body (text_or_empty (lookup "name" body))
      (text_or_empty (lookup "project" body))

-- `handleARPWorkspacesCRUD`
unfoldable pub handle_workspaces_crud : Setting → ArpState → MockRequest → MockReply × ArpState
unfolding list_mock_workspaces put_workspace agents_of lookup
handle_workspaces_crud env s r =
    if r.method == "GET"
    then (
      reply_of 200 (
          arr (
            of_items (
              map (λ ws. workspace_value ws (agents_of s.agents ws.agents))
                (list_mock_workspaces r.query (values s.workspaces))))),
      s,
    )
    else if r.method == "POST"
    then post_workspace env s r.body
    else (method_not_allowed, s)

-- the loop that stops the agents of a workspace takes them out of the map
unfoldable pub drop_agents : String → Dict MockAgent → Dict MockAgent
drop_agents name [] = []
drop_agents name ((k, a) ∷ m) =
    let rest = drop_agents name m in if a.workspace == name then rest else (k, a) ∷ rest

abbrev show_workspace : ArpState → String → Option MockWorkspace → MockReply
show_workspace s name none = error_reply 404 "workspace not found"
show_workspace s name (some ws) =
    reply_of 200
      (workspace_value ws (map agent_value (filter (λ a. a.workspace == name) (values s.agents))))

abbrev pub drop_workspace : ArpState → String → Option MockWorkspace → MockReply × ArpState
drop_workspace s name none = (error_reply 404 "workspace not found", s)
drop_workspace s name (some ws) = (
  ok_reply name,
  record s { agents = drop_agents name s.agents; workspaces = delete name s.workspaces },
)

-- `handleARPWorkspaceByName`
unfoldable pub handle_workspace_by_name : ArpState → MockRequest → MockReply × ArpState
unfolding drop_agents agent_fields delete lookup trim_prefix
handle_workspace_by_name s r =
    let name : String = trim_prefix r.path "/api/workspaces/" in
    if name == ""
    then (error_reply 400 "workspace name required", s)
    else if r.method == "GET"
    then (show_workspace s name (lookup name s.workspaces), s)
    else if r.method == "DELETE"
    then drop_workspace s name (lookup name s.workspaces)
    else (method_not_allowed, s)
