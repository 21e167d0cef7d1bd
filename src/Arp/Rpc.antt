-- ===== src/Arp/Rpc.antt =====
-- The services that arp/server/server.go registers, as one type of requests.
use spec_torture.Base.{String, List, [], ◌∷◌}
use spec_torture.Arp.State.{Server, World}
use spec_torture.Arp.Auth.{Call}
use spec_torture.Arp.Tokens
use spec_torture.Arp.Tokens.{CreateTokenRequest}
use spec_torture.Arp.Agents.Spawn
use spec_torture.Arp.Agents.Spawn.{SpawnAgentRequest}
use spec_torture.Arp.Agents.Lifecycle
use spec_torture.Arp.Agents.Queries
use spec_torture.Arp.Agents.Queries.{ListAgentsRequest}
use spec_torture.Arp.Projects
use spec_torture.Arp.Projects.{RegisterProjectRequest}
use spec_torture.Arp.Workspaces
use spec_torture.Arp.Workspaces.{CreateWorkspaceRequest, ListWorkspacesRequest}
use spec_torture.Arp.Discovery
use spec_torture.Arp.Discovery.{DiscoverAgentsRequest}
use spec_torture.Arp.Discovery.Watch

pub data Rpc : Type 0 where
  create_token : CreateTokenRequest → Rpc
  list_projects : Rpc
  register_project : RegisterProjectRequest → Rpc
  unregister_project : String → Rpc
  create_workspace : CreateWorkspaceRequest → Rpc
  list_workspaces : ListWorkspacesRequest → Rpc
  get_workspace : String → Rpc
  destroy_workspace : String → Rpc
  spawn_agent : SpawnAgentRequest → Rpc
  list_agents : ListAgentsRequest → Rpc
  get_agent_status : String → Rpc
  stop_agent : String → Rpc
  restart_agent : String → Rpc
  discover_agents : DiscoverAgentsRequest → Rpc
  watch_agent : String → Rpc
  watch_workspace : String → Rpc

-- The state after a call, whether it succeeds or fails. A watch is its opening part.
unfoldable pub handle : World → Call → Rpc → Server → Server
handle w call (create_token req) s = (Tokens.create_token w call req s).1
handle w call list_projects s = (Projects.list_projects w call s).1
handle w call (register_project req) s = (Projects.register_project w call req s).1
handle w call (unregister_project name) s = (Projects.unregister_project w call name s).1
handle w call (create_workspace req) s = (Workspaces.create_workspace w call req s).1
handle w call (list_workspaces req) s = (Workspaces.list_workspaces w call req s).1
handle w call (get_workspace name) s = (Workspaces.get_workspace w call name s).1
handle w call (destroy_workspace name) s = (Workspaces.destroy_workspace w call name s).1
handle w call (spawn_agent req) s = (Spawn.spawn_agent w call req s).1
handle w call (list_agents req) s = (Queries.list_agents w call req s).1
handle w call (get_agent_status id) s = (Queries.get_agent_status w call id s).1
handle w call (stop_agent id) s = (Lifecycle.stop_agent w call id s).1
handle w call (restart_agent id) s = (Lifecycle.restart_agent w call id s).1
handle w call (discover_agents req) s = (Discovery.discover_agents w call req s).1
handle w call (watch_agent id) s = (Watch.open_agent_watch w call id s).1
handle w call (watch_workspace name) s = (Watch.open_workspace_watch w call name s).1

-- a sequence of calls, by any callers
unfoldable pub handle_all : World → List (Call × Rpc) → Server → Server
handle_all w [] s = s
handle_all w ((call, rpc) ∷ calls) s = handle_all w calls (handle w call rpc s)
