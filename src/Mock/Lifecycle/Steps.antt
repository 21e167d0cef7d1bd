-- ===== src/Mock/Lifecycle/Steps.antt =====
-- internal/mockserver/arp_lifecycle.go: what may happen to the state of the mock ARP server, in any
-- order: requests, and goroutines that wake up.
pub mod Entries
pub mod Valid
pub mod Handlers
pub mod Kept
use spec_torture.Base.{String, Bool, true, false, List, [], ◌∷◌, ◌++◌, ◌≡◌, ◌==◌, if◌then◌else◌}
use spec_torture.Base.Strings.{has_prefix}
use spec_torture.Mock.Lifecycle.{
  ArpState, new_arp_state, MockRequest, MockReply, error_reply, handle_projects_crud,
  handle_project_by_name,
}
use spec_torture.Mock.Lifecycle.Agents.{Setting, wake, handle_agents_crud, handle_agent_by_id}
use spec_torture.Mock.Lifecycle.Workspaces.{handle_workspaces_crud, handle_workspace_by_name}

-- `registerARPLifecycleHandlers`; another path is not of this component
unfoldable pub serve : Setting → ArpState → MockRequest → MockReply × ArpState
unfolding handle_projects_crud handle_project_by_name handle_workspaces_crud
    handle_workspace_by_name handle_agents_crud handle_agent_by_id has_prefix
serve env s r =
    if r.path == "/api/projects"
    then handle_projects_crud env.now s r
    else if has_prefix r.path "/api/projects/"
    then handle_project_by_name s r
    else if r.path == "/api/workspaces"
    then handle_workspaces_crud env s r
    else if has_prefix r.path "/api/workspaces/"
    then handle_workspace_by_name s r
    else if r.path == "/api/agents"
    then handle_agents_crud env s r
    else if has_prefix r.path "/api/agents/"
    then handle_agent_by_id s r
    else (error_reply 404 "", s)

-- The states that the mock server can reach: a goroutine wakes up at any time after it was started,
-- and once.
pub data Reachable : ArpState → Type 0 where
  begins : Reachable new_arp_state
  serves :
      {s : ArpState} (env : Setting) (r : MockRequest) → Reachable s → Reachable (serve env s r).1
  wakes :
      {s : ArpState} (before after : List String) (id : String)
      → s.sleeping ≡ before ++ (id ∷ after)
      → Reachable s
      → Reachable (wake id (record s { sleeping = before ++ after }))
