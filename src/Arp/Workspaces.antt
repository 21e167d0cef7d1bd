-- ===== src/Arp/Workspaces.antt =====
-- arp/server/workspace.go
pub mod Destroy
use spec_torture.Base.{
  ℕ, String, Bool, true, false, not, ◌&&◌, Option, none, some, List, [], ◌∷◌, ◌==◌, ◌++◌, get_elem?,
  length, if◌then◌else◌,
}
use spec_torture.Base.Dict.{Dict, lookup, insert, delete, keys}
use spec_torture.Arp.Handler.{
  ok, pure, gets, or_fail, guard, modify, ◌>>=◌, ◌>>◌, invalid_argument, permission_denied,
  not_found, already_exists,
}
use spec_torture.Arp.Messages.{
  Asked, named, unnamed, Project, Permission, Workspace, WorkspaceStatus, WorkspaceEventType,
  AgentInstance,
}
use spec_torture.Arp.State.{WorkspaceEntry, Server, World, Action, load_workspace, store_workspace}
use spec_torture.Arp.Scope.{can_access_project}
use spec_torture.Arp.Auth.{Principal, Call, authenticate, workspace_visible}
use spec_torture.Arp.Tokens.{clock}
use spec_torture.Arp.Events.{build_workspace_pb, publish_workspace}
use spec_torture.Arp.Agents.Spawn.{SpawnArgs, spawn_agent_internal}
use spec_torture.Arp.Agents.Lifecycle.{stop_agent_internal}
use spec_torture.Arp.Agents.Queries.{sorted_ids, text_passes}

pub record CreateWorkspaceRequest : Type 0 where
  pub name : String
  pub project : String
  pub branch : String
  pub auto_agents : List String

-- `s.workspaces[name] = ws`, with the entry's address
unfoldable pub add_workspace : String → WorkspaceEntry → Action ℕ
add_workspace name e s =
    let at = length s.workspace_heap in
    (
      ok at,
      record s {
        workspace_heap = s.workspace_heap ++ e ∷ [];
        workspaces = insert name at s.workspaces;
      },
    )

abbrev pub auto_args : String → String → SpawnArgs
auto_args workspace template = record {
  workspace = workspace;
  template = template;
  name = "";
  env = [];
  scope = none;
  perm = Permission.unspecified;
  fixed_id = "";
}

-- A fresh entry. The source computes a branch from the request and the project and drops it.
abbrev pub fresh_workspace : (name project dir : String) → ℕ → WorkspaceEntry
fresh_workspace name project dir now = record {
  pb = record {
    name = name;
    project = project;
    dir = dir;
    agents = [];
    status = WorkspaceStatus.active;
    created_at = some now;
  };
  project = project;
  dir = dir;
  agents = [];
}

module _ (w : World) where
  unfoldable pub make_workspace : String → String → Action ℕ
  make_workspace name project = do
    root ← gets (λ s. s.cfg.workspace_root)
    now ← clock w
    add_workspace name (fresh_workspace name project (w.join_path root name) now)

  -- the locked region of `CreateWorkspace`
  unfoldable pub install_workspace : Principal → CreateWorkspaceRequest → Action ℕ
  install_workspace p req = do
    proj ← gets (λ s. lookup req.project s.projects)
    or_fail not_found proj
    guard (can_access_project p.scope req.project) permission_denied
    old ← gets (λ s. lookup req.name s.workspaces)
    guard (elim old [ none ↦ true | some _ ↦ false ]) already_exists
    make_workspace req.name req.project

  -- the loop over `auto_agents`, which ends at the first failure
  unfoldable pub auto_spawn : Principal → String → List String → Action (Unit {0})
  auto_spawn p workspace [] = pure tt
  auto_spawn p workspace (t ∷ ts) = do
    done ← spawn_agent_internal w p (auto_args workspace t)
    auto_spawn done.1 workspace ts

  unfoldable pub create_workspace : Call → CreateWorkspaceRequest → Action Workspace
  create_workspace call req = do
    p ← authenticate w call
    guard (not (req.name == "")) invalid_argument
    guard (not (req.project == "")) invalid_argument
    at ← install_workspace p req
    auto_spawn p req.name req.auto_agents
    e ← load_workspace at
    gets (λ s. build_workspace_pb s e)

-- the entry that the map names
unfoldable pub workspace_named : Server → String → Option WorkspaceEntry
workspace_named s name = elim (lookup name s.workspaces) [
  | none ↦ none
  | some at ↦ get_elem? s.workspace_heap at
]

pub record ListWorkspacesRequest : Type 0 where
  pub project : String
  pub status : Asked WorkspaceStatus

abbrev pub same_state : WorkspaceStatus → WorkspaceStatus → Bool
same_state WorkspaceStatus.unspecified WorkspaceStatus.unspecified = true
same_state WorkspaceStatus.active WorkspaceStatus.active = true
same_state WorkspaceStatus.inactive WorkspaceStatus.inactive = true
same_state _ _ = false

abbrev pub state_passes : Asked WorkspaceStatus → WorkspaceStatus → Bool
state_passes (named WorkspaceStatus.unspecified) actual = true
state_passes (named wanted) actual = same_state actual wanted
state_passes (unnamed n) actual = false

unfoldable pub workspace_passes : Server → Principal → ListWorkspacesRequest → WorkspaceEntry → Bool
workspace_passes s p req e =
    workspace_visible s p e
    && (text_passes req.project e.project && state_passes req.status e.pb.status)

unfoldable pub collect_workspaces : Server → (WorkspaceEntry → Bool) → List String → List Workspace
collect_workspaces s pass [] = []
collect_workspaces s pass (name ∷ names) =
    let rest = collect_workspaces s pass names in
    elim (workspace_named s name) [
      | none ↦ rest
      | some e ↦ if pass e then build_workspace_pb s e ∷ rest else rest
    ]

unfoldable pub list_workspaces : World → Call → ListWorkspacesRequest → Action (List Workspace)
list_workspaces w call req = do
  p ← authenticate w call
  gets (λ s. collect_workspaces s (workspace_passes s p req) (sorted_ids s.workspaces))

-- `s.workspaces[name]`, if the principal may see it
unfoldable pub find_workspace : Principal → String → Action ℕ
find_workspace p name = do
  found ← gets (λ s. lookup name s.workspaces)
  at ← or_fail not_found found
  e ← load_workspace at
  seen ← gets (λ s. workspace_visible s p e)
  guard seen permission_denied
  pure at

unfoldable pub get_workspace : World → Call → String → Action Workspace
get_workspace w call name = do
  p ← authenticate w call
  guard (not (name == "")) invalid_argument
  at ← find_workspace p name
  e ← load_workspace at
  gets (λ s. build_workspace_pb s e)

unfoldable pub stop_all : World → List String → Server → Server
stop_all w [] s = s
stop_all w (id ∷ ids) s = stop_all w ids (stop_agent_internal w id s)

unfoldable pub delete_agents : List String → Server → Server
delete_agents [] s = s
delete_agents (id ∷ ids) s = delete_agents ids (record s { agents = delete id s.agents })

abbrev pub inactive_entry : WorkspaceEntry → WorkspaceEntry
inactive_entry e = record e { pb = record e.pb { status = WorkspaceStatus.inactive } }

-- `ws.pb.Status = INACTIVE`, through the pointer
unfoldable pub deactivate : ℕ → Server → Server
deactivate at s = elim (get_elem? s.workspace_heap at) [
  | none ↦ s
  | some e ↦ store_workspace at (inactive_entry e) s
]

unfoldable pub remove_workspace : String → Server → Server
remove_workspace name s = record s { workspaces = delete name s.workspaces }

-- what follows the checks of `DestroyWorkspace`: each agent is stopped, then forgotten
unfoldable pub tear_down : World → ℕ → String → List String → Server → Server
tear_down w at name ids s =
    publish_workspace at WorkspaceEventType.destroyed none
      (remove_workspace name (deactivate at (delete_agents ids (stop_all w ids s))))

unfoldable pub destroy_workspace : World → Call → String → Action (Unit {0})
destroy_workspace w call name = do
  p ← authenticate w call
  guard (not (name == "")) invalid_argument
  at ← find_workspace p name
  e ← load_workspace at
  modify (tear_down w at name e.agents)
