-- ===== src/Arp/Steps/Calls.antt =====
-- The other handlers are sequences of steps, and so is any sequence of calls.
use spec_torture.Base.{String, List, [], ◌∷◌}
use spec_torture.Arp.Handler.Follows.{Follows-bind, Follows-pure}
use spec_torture.Arp.State.{WorkspaceEntry, Server, World}
use spec_torture.Arp.Auth.{Principal, Call}
use spec_torture.Arp.Tokens.{CreateTokenRequest, create_token}
use spec_torture.Arp.Projects.{
  RegisterProjectRequest, list_projects, register_project, unregister_project,
}
use spec_torture.Arp.Workspaces.{
  CreateWorkspaceRequest, ListWorkspacesRequest, add_workspace, make_workspace, install_workspace,
  auto_spawn, create_workspace, list_workspaces, find_workspace, get_workspace, destroy_workspace,
}
use spec_torture.Arp.Discovery.{
  DiscoverAgentsRequest, DiscoveryScope, probe, remote_cards, discover_agents, network,
}
use spec_torture.Arp.Discovery.Watch.{open_agent_watch, open_workspace_watch}
use spec_torture.Arp.Steps.{Step, Steps, one, here, Steps-append, Steps-IsPreorder}
use spec_torture.Arp.Steps.Parts.{Moves, question-Moves, quietly, move_rules}
use spec_torture.Arp.Steps.Entries.{
  put_project-IsQuiet, remove_project-IsQuiet, subscribe_agent-Moves, subscribe_workspace-Moves,
  tear_down-Steps,
}
use spec_torture.Arp.Steps.Agents.{
  spawn_agent_internal-Moves, spawn_agent-Moves, find_agent_for_caller-Moves, stop_agent-Moves,
  restart_agent-Moves, list_agents-Moves, get_agent_status-Moves,
}
use spec_torture.Arp.Rpc.{Rpc, handle, handle_all}

open_workspace-Moves : (e : WorkspaceEntry) → Moves (add_workspace e.pb.name e)
open_workspace-Moves e = record { at = λ s. one (Step.open_workspace e) }

find_workspace-Moves : (p : Principal) (name : String) → Moves (find_workspace p name)
unfolding find_workspace
find_workspace-Moves p name = search move_rules depth 12

ruleset project_rules = (put_project-IsQuiet, remove_project-IsQuiet, quietly)

module _ (w : World) where
  create_token-Moves : (call : Call) (req : CreateTokenRequest) → Moves (create_token w call req)
  unfolding create_token
  create_token-Moves call req = search move_rules depth 16

  list_projects-Moves : (call : Call) → Moves (list_projects w call)
  unfolding list_projects
  list_projects-Moves call = search move_rules depth 8

  register_project-Moves :
      (call : Call) (req : RegisterProjectRequest) → Moves (register_project w call req)
  unfolding register_project
  register_project-Moves call req = search (move_rules, project_rules) depth 16

  unregister_project-Moves : (call : Call) (name : String) → Moves (unregister_project w call name)
  unfolding unregister_project
  unregister_project-Moves call name = search (move_rules, project_rules) depth 20

  make_workspace-Moves : (name project : String) → Moves (make_workspace w name project)
  unfolding make_workspace
  make_workspace-Moves name project = search (move_rules, open_workspace-Moves) depth 8

  install_workspace-Moves :
      (p : Principal) (req : CreateWorkspaceRequest) → Moves (install_workspace w p req)
  unfolding install_workspace
  install_workspace-Moves p req = search (move_rules, make_workspace-Moves) depth 16

  auto_spawn-Moves :
      (p : Principal) (name : String) (ts : List String) → Moves (auto_spawn w p name ts)
  unfolding auto_spawn
  auto_spawn-Moves p name [] = search move_rules
  auto_spawn-Moves p name (t ∷ ts) =
      search (move_rules, spawn_agent_internal-Moves, λ (q : Principal). auto_spawn-Moves q name ts)
        depth 8

  create_workspace-Moves :
      (call : Call) (req : CreateWorkspaceRequest) → Moves (create_workspace w call req)
  unfolding create_workspace
  create_workspace-Moves call req =
      search (move_rules, install_workspace-Moves, auto_spawn-Moves) depth 16

  list_workspaces-Moves :
      (call : Call) (req : ListWorkspacesRequest) → Moves (list_workspaces w call req)
  unfolding list_workspaces
  list_workspaces-Moves call req = search move_rules depth 8

  get_workspace-Moves : (call : Call) (name : String) → Moves (get_workspace w call name)
  unfolding get_workspace
  get_workspace-Moves call name = search (move_rules, find_workspace-Moves) depth 12

  destroy_workspace-Moves : (call : Call) (name : String) → Moves (destroy_workspace w call name)
  unfolding destroy_workspace
  destroy_workspace-Moves call name =
      search (move_rules, find_workspace-Moves, tear_down-Steps) depth 12

  probe-Moves : (wanted : String) (urls : List String) → Moves (probe w wanted urls)
  unfolding probe
  probe-Moves wanted [] = search move_rules
  probe-Moves wanted (url ∷ urls) = Follows-bind Steps-IsPreorder _ _ question-Moves λ n.
      Follows-bind Steps-IsPreorder _ _ (probe-Moves wanted urls)
        λ rest. Follows-pure Steps-IsPreorder _

  remote_cards_on :
      (scope : DiscoveryScope) (wanted : String) (urls : List String)
      → Moves (remote_cards w (record { scope = scope; capability = wanted; urls = urls }))
  unfolding remote_cards
  remote_cards_on network wanted urls = probe-Moves wanted urls
  remote_cards_on _ wanted urls = search move_rules

  remote_cards-Moves : (req : DiscoverAgentsRequest) → Moves (remote_cards w req)
  remote_cards-Moves req = remote_cards_on req.scope req.capability req.urls

  discover_agents-Moves :
      (call : Call) (req : DiscoverAgentsRequest) → Moves (discover_agents w call req)
  unfolding discover_agents
  discover_agents-Moves call req = search (move_rules, remote_cards-Moves) depth 12

  open_agent_watch-Moves : (call : Call) (id : String) → Moves (open_agent_watch w call id)
  unfolding open_agent_watch
  open_agent_watch-Moves call id =
      search (move_rules, find_agent_for_caller-Moves, subscribe_agent-Moves) depth 16

  open_workspace_watch-Moves :
      (call : Call) (name : String) → Moves (open_workspace_watch w call name)
  unfolding open_workspace_watch
  open_workspace_watch-Moves call name =
      search (move_rules, find_workspace-Moves, subscribe_workspace-Moves) depth 16

  -- Every handler, on every branch, is a sequence of steps.
  pub handle-Steps : (call : Call) (rpc : Rpc) (s : Server) → Steps s (handle w call rpc s)
  unfolding handle
  handle-Steps call (Rpc.create_token req) s = (create_token-Moves call req).at s
  handle-Steps call Rpc.list_projects s = (list_projects-Moves call).at s
  handle-Steps call (Rpc.register_project req) s = (register_project-Moves call req).at s
  handle-Steps call (Rpc.unregister_project name) s = (unregister_project-Moves call name).at s
  handle-Steps call (Rpc.create_workspace req) s = (create_workspace-Moves call req).at s
  handle-Steps call (Rpc.list_workspaces req) s = (list_workspaces-Moves call req).at s
  handle-Steps call (Rpc.get_workspace name) s = (get_workspace-Moves call name).at s
  handle-Steps call (Rpc.destroy_workspace name) s = (destroy_workspace-Moves call name).at s
  handle-Steps call (Rpc.spawn_agent req) s = (spawn_agent-Moves w call req).at s
  handle-Steps call (Rpc.list_agents req) s = (list_agents-Moves w call req).at s
  handle-Steps call (Rpc.get_agent_status id) s = (get_agent_status-Moves w call id).at s
  handle-Steps call (Rpc.stop_agent id) s = (stop_agent-Moves w call id).at s
  handle-Steps call (Rpc.restart_agent id) s = (restart_agent-Moves w call id).at s
  handle-Steps call (Rpc.discover_agents req) s = (discover_agents-Moves call req).at s
  handle-Steps call (Rpc.watch_agent id) s = (open_agent_watch-Moves call id).at s
  handle-Steps call (Rpc.watch_workspace name) s = (open_workspace_watch-Moves call name).at s

  pub handle_all-Steps : (calls : List (Call × Rpc)) (s : Server) → Steps s (handle_all w calls s)
  unfolding handle_all
  handle_all-Steps [] s = here
  handle_all-Steps ((call, rpc) ∷ calls) s =
      Steps-append (handle-Steps call rpc s) (handle_all-Steps calls (handle w call rpc s))
