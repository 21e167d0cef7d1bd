-- ===== src/Arp/Projects.antt =====
-- arp/server/project.go
pub mod Unregister
use spec_torture.Base.{
  ℕ, String, Bool, true, false, not, ◌&&◌, Option, none, some, List, [], ◌∷◌, ◌==◌, get_elem?, any,
  if◌then◌else◌,
}
use spec_torture.Base.Dict.{Dict, lookup, insert, delete, keys}
use spec_torture.Base.Sort.{sort_strings}
use spec_torture.Arp.Handler.{
  ok, pure, gets, or_fail, guard, modify, ◌>>=◌, ◌>>◌, invalid_argument, permission_denied,
  not_found, failed_precondition,
}
use spec_torture.Arp.Messages.{Project, AgentTemplate, AgentStatus}
use spec_torture.Arp.State.{AgentEntry, Server, World, Action}
use spec_torture.Arp.Scope.{can_access_project, is_admin}
use spec_torture.Arp.Auth.{Principal, Call, authenticate}
use spec_torture.Arp.Agents.Queries.{sorted_ids, agent_named}

-- the loop over the sorted names
unfoldable pub visible_projects : Server → Principal → List String → List Project
visible_projects s p [] = []
visible_projects s p (name ∷ names) =
    let rest = visible_projects s p names in
    if not (can_access_project p.scope name)
    then rest
    else elim (lookup name s.projects) [ none ↦ rest | some proj ↦ proj ∷ rest ]

unfoldable pub list_projects : World → Call → Action (List Project)
list_projects w call = do
  p ← authenticate w call
  gets (λ s. visible_projects s p (sorted_ids s.projects))

pub record RegisterProjectRequest : Type 0 where
  pub name : String
  pub repo : String
  pub branch : String
  pub agents : List AgentTemplate

abbrev pub or_main : String → String
or_main branch = if branch == "" then "main" else branch

abbrev pub registered : RegisterProjectRequest → Project
registered req = record {
  name = req.name;
  repo = req.repo;
  branch = or_main req.branch;
  agents = req.agents;
}

unfoldable pub put_project : String → Project → Server → Server
put_project name proj s = record s { projects = insert name proj s.projects }

unfoldable pub register_project : World → Call → RegisterProjectRequest → Action Project
register_project w call req = do
  p ← authenticate w call
  guard (not (req.name == "")) invalid_argument
  guard (not (req.repo == "")) invalid_argument
  guard (is_admin p.perm) permission_denied
  guard (can_access_project p.scope req.name) permission_denied
  modify (put_project req.name (registered req))
  pure (registered req)

abbrev pub is_active : AgentStatus → Bool
is_active AgentStatus.stopped = false
is_active AgentStatus.error = false
is_active AgentStatus.unspecified = false
is_active _ = true

abbrev pub active_in : String → Option AgentEntry → Bool
active_in name none = false
active_in name (some e) = e.project == name && is_active e.pb.status

-- the loop over the agents
unfoldable pub has_active_agent : Server → String → Bool
has_active_agent s name = any (λ id. active_in name (agent_named s id)) (keys s.agents)

unfoldable pub remove_project : String → Server → Server
remove_project name s = record s { projects = delete name s.projects }

unfoldable pub unregister_project : World → Call → String → Action (Unit {0})
unregister_project w call name = do
  p ← authenticate w call
  guard (not (name == "")) invalid_argument
  guard (is_admin p.perm) permission_denied
  found ← gets (λ s. lookup name s.projects)
  or_fail not_found found
  guard (can_access_project p.scope name) permission_denied
  busy ← gets (λ s. has_active_agent s name)
  guard (not busy) failed_precondition
  modify (remove_project name)
