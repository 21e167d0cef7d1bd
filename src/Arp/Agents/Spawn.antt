-- ===== src/Arp/Agents/Spawn.antt =====
-- arp/server/agent.go: `spawnAgentInternal` and `SpawnAgent`.
use spec_torture.Base.{
  ℕ, String, Bool, Option, none, some, [], ◌∷◌, ◌++◌, ◌==◌, not, length, get_elem?, contains,
  if◌then◌else◌,
}
use spec_torture.Base.Int.{pos}
use spec_torture.Base.Dict.{Dict, lookup, insert}
use spec_torture.Value.{Value}
use spec_torture.Arp.Handler.{
  ok, pure, fail, gets, or_fail, guard, modify, on_error, ◌>>=◌, ◌>>◌, not_found, permission_denied,
  already_exists, internal, invalid_argument,
}
use spec_torture.Arp.Messages.{
  Scope, Permission, AgentTemplate, AgentInstance, AgentStatus, AgentEventType, WorkspaceEventType,
}
use spec_torture.Arp.State.{
  Handle, WorkspaceEntry, AgentEntry, TokenEntry, Server, World, Action, question, load_token,
  load_agent, load_workspace, store_workspace,
}
use spec_torture.Arp.Scope.{can_access_project}
use spec_torture.Arp.Auth.{Principal, Call, authenticate}
use spec_torture.Arp.Tokens.{new_id, clock, issue_token, token_id}
use spec_torture.Arp.Ports.{alloc_port, free_port}
use spec_torture.Arp.Cards.{backend_card_fallback, refresh_card}
use spec_torture.Arp.Events.{publish_agent_event, publish_workspace}
use spec_torture.Arp.Agents.{
  proxy_url, resolve_template, display_name, resolve_session, update_agent,
}

-- The arguments of a spawn; `fixed_id` is "" for an id of the server's choice.
pub record SpawnArgs : Type 0 where
  pub workspace : String
  pub template : String
  pub name : String
  pub env : Dict String
  pub scope : Option Scope
  pub perm : Permission
  pub fixed_id : String

-- What the first locked region leaves to the rest.
pub record Reservation : Type 0 where
  pub principal : Principal
  pub workspace_at : ℕ
  pub template : AgentTemplate
  pub port : ℕ
  pub child : TokenEntry
  pub agent_id : String
  pub agent_at : ℕ

-- `s.agents[id] = entry`, with the entry's address
unfoldable pub add_agent : String → AgentEntry → Action ℕ
add_agent id e s =
    let a = length s.agent_heap in
    (ok a, record s { agent_heap = s.agent_heap ++ e ∷ []; agents = insert id a s.agents })

-- `ws.agents[id] = true`
unfoldable pub join_workspace : ℕ → String → Server → Server
join_workspace at id s = elim (get_elem? s.workspace_heap at) [
  | none ↦ s
  | some e ↦
      if contains e.agents id
      then s
      else store_workspace at (record e { agents = e.agents ++ id ∷ [] }) s
]

-- the entry of an agent that is about to start
abbrev pub starting_entry :
    SpawnArgs
    → WorkspaceEntry
    → AgentTemplate
    → ℕ
    → TokenEntry
    → (session spawned_by base : String) → ℕ
    → String
    → AgentEntry
starting_entry r ws tmpl port child session spawned_by base now id = record {
  pb = record {
    id = id;
    template = r.template;
    workspace = r.workspace;
    status = AgentStatus.starting;
    port = port;
    direct_url = "";
    proxy_url = proxy_url base id;
    pid = 0;
    card = none;
    token_id = child.id;
    session_id = session;
    spawned_by = spawned_by;
    started_at = some now;
  };
  handle = none;
  template = tmpl;
  project = ws.project;
  name = display_name r.name r.template;
  env = r.env;
  card_base = [];
}

module _ (w : World) where
  unfoldable pub choose_id : SpawnArgs → Action String
  choose_id r =
      if r.fixed_id == "" then new_id w (display_name r.name r.template) else pure r.fixed_id

  -- the id, once it is known to be new
  unfoldable pub claim_id : SpawnArgs → Action String
  claim_id r = do
    id ← choose_id r
    taken ← gets (λ s. lookup id s.agents)
    guard (elim taken [ none ↦ Bool.true | some _ ↦ Bool.false ]) already_exists
    pure id

  -- from the allocated port on: a failure to issue the token or to claim the id gives it back
  unfoldable pub reserve_with :
      SpawnArgs → Principal → ℕ → WorkspaceEntry → AgentTemplate → ℕ → Action Reservation
  reserve_with r p ws_at ws tmpl port = do
    (session, p') ← resolve_session w p
    child_at ←
        on_error (free_port port)
          (issue_token w (some p') r.scope r.perm (display_name r.name r.template) session (pos 0))
    child ← load_token child_at
    id ← on_error (free_port port) (claim_id r)
    spawned_by ← token_id p'.token
    base ← gets (λ s. s.cfg.gateway_base_url)
    now ← clock w
    a ← add_agent id (starting_entry r ws tmpl port child session spawned_by base now id)
    modify (join_workspace ws_at id)
    pure (record {
      principal = p';
      workspace_at = ws_at;
      template = tmpl;
      port = port;
      child = child;
      agent_id = id;
      agent_at = a;
    })

  -- the first locked region
  unfoldable pub reserve : Principal → SpawnArgs → Action Reservation
  reserve p r = do
    found ← gets (λ s. lookup r.workspace s.workspaces)
    ws_at ← or_fail not_found found
    ws ← load_workspace ws_at
    guard (can_access_project p.scope ws.project) permission_denied
    resolved ← gets (λ s. resolve_template s ws.project r.template)
    tmpl ← or_fail not_found resolved
    port ← alloc_port w
    reserve_with r p ws_at ws tmpl port

  -- Backend.Spawn, between the regions
  unfoldable pub start : Reservation → SpawnArgs → Action (Option Handle)
  start res r = do
    ws ← load_workspace res.workspace_at
    n ← question
    pure (
        w.spawn n (record {
          agent_id = res.agent_id;
          template = res.template;
          workspace = r.workspace;
          workspace_dir = ws.dir;
          port = res.port;
          env = r.env;
          token = res.child.bearer;
        }))

abbrev pub set_status : AgentStatus → AgentEntry → AgentEntry
set_status st e = record e { pb = record e.pb { status = st } }

-- the region after a failed start: the agent stays listed, in error, and its port is given back
unfoldable pub abandon : String → ℕ → Server → Server
abandon id port s = elim (lookup id s.agents) [
  | none ↦ free_port port s
  | some a ↦ free_port port (update_agent a (set_status AgentStatus.error) s)
]

module _ (w : World) where
  -- `FetchAgentCard`, or the fallback
  unfoldable pub card_or_fallback : AgentTemplate → String → Action (Dict Value)
  card_or_fallback t url = do
    n ← question
    pure (elim (w.fetch_card n url) [ none ↦ backend_card_fallback t url | some card ↦ card ])

  abbrev pub ready_entry : Handle → Dict Value → AgentEntry → AgentEntry
  ready_entry h card e = refresh_card w (record e {
    handle = some h;
    card_base = card;
    pb = record e.pb {
      direct_url = h.direct_url;
      port = h.port;
      pid = h.pid;
      status = AgentStatus.ready;
    };
  })

  -- the region after a successful start, and the publications
  unfoldable pub finish_spawn : Reservation → Handle → Action AgentInstance
  finish_spawn res h = do
    card ← card_or_fallback res.template h.direct_url
    modify (update_agent res.agent_at (ready_entry h card))
    e ← load_agent res.agent_at
    modify (publish_workspace res.workspace_at WorkspaceEventType.spawned (some e.pb))
    modify (publish_agent_event res.agent_at AgentEventType.status_changed none)
    pure e.pb

  unfoldable pub settle : Reservation → Option Handle → Action AgentInstance
  settle res none = do modify (abandon res.agent_id res.port); fail internal
  settle res (some h) = finish_spawn res h

  -- `spawnAgentInternal`: the agent's message, and the principal as `resolveSession` leaves it
  unfoldable pub spawn_agent_internal : Principal → SpawnArgs → Action (AgentInstance × Principal)
  spawn_agent_internal p r = do
    res ← reserve w p r
    started ← start w res r
    pb ← settle res started
    pure (pb, res.principal)

pub record SpawnAgentRequest : Type 0 where
  pub workspace : String
  pub template : String
  pub name : String
  pub env : Dict String
  pub scope : Option Scope
  pub permission : Permission

unfoldable pub spawn_agent : World → Call → SpawnAgentRequest → Action AgentInstance
spawn_agent w call req = do
  p ← authenticate w call
  guard (not (req.workspace == "")) invalid_argument
  guard (not (req.template == "")) invalid_argument
  done ← spawn_agent_internal w p (record {
    workspace = req.workspace;
    template = req.template;
    name = req.name;
    env = req.env;
    scope = req.scope;
    perm = req.permission;
    fixed_id = "";
  })
  pure done.0
