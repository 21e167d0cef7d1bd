-- ===== src/Arp/Steps/Agents.antt =====
-- The handlers of arp/server/agent.go are sequences of steps.
use spec_torture.Base.{
  ℕ, ◌+◌, ◌≡◌, String, Option, none, some, arith, get_elem?, Option-cases, Bool-cases, inl, inr,
  ◌==◌, eq_iff,
}
use spec_torture.Base.Dict.{Dict}
use spec_torture.Value.{Value}
use spec_torture.Arp.Handler.{◌>>=◌, on_error}
use spec_torture.Arp.Handler.Follows.{Follows-on_error}
use spec_torture.Arp.Messages.{AgentTemplate}
use spec_torture.Arp.State.{
  Handle, WorkspaceEntry, AgentEntry, TokenEntry, Server, World, Action, load_token, question,
}
use spec_torture.Arp.Auth.{Principal, Call}
use spec_torture.Arp.Tokens.{new_id}
use spec_torture.Arp.Ports.{free_port}
use spec_torture.Arp.Cards.{refresh_card}
use spec_torture.Arp.Agents.{
  session_of, token_session, resolve_session_on, resolve_session, find_agent_for_caller,
}
use spec_torture.Arp.Agents.Spawn.{
  SpawnArgs, Reservation, add_agent, choose_id, claim_id, reserve_with, reserve, start,
  card_or_fallback, ready_entry, finish_spawn, settle, spawn_agent_internal, spawn_agent,
  SpawnAgentRequest,
}
use spec_torture.Arp.Agents.Lifecycle.{
  stop_agent, restarted_at, finish_restart, settle_restart, start_again, restart_agent,
}
use spec_torture.Arp.Agents.Queries.{ListAgentsRequest, list_agents, get_agent_status}
use spec_torture.Arp.Steps.{Step, Steps, here, next, one, Steps-IsPreorder}
use spec_torture.Arp.Steps.Parts.{Moves, quietly, free_port-IsQuiet, move_rules, modify-Moves}
use spec_torture.Arp.Steps.Entries.{
  KeepsAgent, update_agent-Steps, join_workspace-Steps, stop_agent_internal-Steps, abandon-Steps,
  abandon_restart-Steps, publish_agent_event-IsQuiet, publish_workspace-IsQuiet,
}

abbrev ticked : Server → Server
ticked s = record s { tick = s.tick + 1 }

-- The session of a token is set only where it was "".
session_of-Steps :
    (w : World) (a : ℕ) (tok : TokenEntry) (s : Server)
    → get_elem? s.token_heap a ≡ some tok
    → Steps s (session_of w a tok s).1
unfolding session_of new_id question ◌>>=◌
session_of-Steps w a tok s found = elim (Bool-cases (tok.session_id == "")) [
  | inl unset ↦ rw unset (
      next {t = ticked s} (one (Step.quiet (ground arith)))
        (Step.first_session a tok _ found ((eq_iff _ _).0 unset)))
  | inr kept ↦ rw kept here
]

token_session-Moves : (w : World) (a : ℕ) → Moves (token_session w a)
unfolding token_session load_token ◌>>=◌
token_session-Moves w a = record {
  at = λ s. elim (Option-cases (get_elem? s.token_heap a)) [
    | inl missing ↦ rw missing here
    | inr (tok, found) ↦ rw found (session_of-Steps w a tok s found)
  ];
}

module _ (w : World) where
  resolve_session_on-Moves : (t : Option ℕ) (p : Principal) → Moves (resolve_session_on w t p)
  unfolding resolve_session_on
  resolve_session_on-Moves none p = search move_rules
  resolve_session_on-Moves (some a) p = search (move_rules, token_session-Moves)

  resolve_session-Moves : (p : Principal) → Moves (resolve_session w p)
  unfolding resolve_session
  resolve_session-Moves p = resolve_session_on-Moves p.token p

  choose_id-Moves : (r : SpawnArgs) → Moves (choose_id w r)
  unfolding choose_id
  choose_id-Moves r = search move_rules

  claim_id-Moves : (r : SpawnArgs) → Moves (claim_id w r)
  unfolding claim_id
  claim_id-Moves r = search (move_rules, choose_id-Moves) depth 12

enlist-Moves : (e : AgentEntry) → Moves (add_agent e.pb.id e)
enlist-Moves e = record { at = λ s. one (Step.enlist e) }

undo_port : (port : ℕ) {A : Type 0} (m : Action A) → Moves m → Moves (on_error (free_port port) m)
undo_port port m h =
    Follows-on_error Steps-IsPreorder (free_port port) m (quietly _ (free_port-IsQuiet port)) h

module _ (w : World) where
  reserve_with-Moves :
      (r : SpawnArgs) (p : Principal) (ws_at : ℕ) (ws : WorkspaceEntry) (tmpl : AgentTemplate)
      (port : ℕ)
      → Moves (reserve_with w r p ws_at ws tmpl port)
  unfolding reserve_with
  reserve_with-Moves r p ws_at ws tmpl port =
      search
        (
          move_rules, resolve_session-Moves, undo_port, claim_id-Moves, enlist-Moves, modify-Moves,
          join_workspace-Steps,
        )
        depth 24

  reserve-Moves : (p : Principal) (r : SpawnArgs) → Moves (reserve w p r)
  unfolding reserve
  reserve-Moves p r = search (move_rules, reserve_with-Moves) depth 16

  start-Moves : (res : Reservation) (r : SpawnArgs) → Moves (start w res r)
  unfolding start
  start-Moves res r = search move_rules depth 12

  card_or_fallback-Moves : (t : AgentTemplate) (url : String) → Moves (card_or_fallback w t url)
  unfolding card_or_fallback
  card_or_fallback-Moves t url = search move_rules

  ready_entry-KeepsAgent : (h : Handle) (card : Dict Value) → KeepsAgent (ready_entry w h card)
  unfolding refresh_card
  ready_entry-KeepsAgent h card e = ground arith

  restarted-KeepsAgent :
      (h : Handle) (card : Dict Value) (now : ℕ)
      → KeepsAgent (λ e. ready_entry w h card (restarted_at now e))
  unfolding refresh_card
  restarted-KeepsAgent h card now e = ground arith

ruleset entry_rules = (
  update_agent-Steps, ready_entry-KeepsAgent, restarted-KeepsAgent, publish_agent_event-IsQuiet,
  publish_workspace-IsQuiet, quietly, abandon-Steps, abandon_restart-Steps, card_or_fallback-Moves,
)

module _ (w : World) where
  finish_spawn-Moves : (res : Reservation) (h : Handle) → Moves (finish_spawn w res h)
  unfolding finish_spawn
  finish_spawn-Moves res h = search (move_rules, entry_rules) depth 16

  settle-Moves : (res : Reservation) (h : Option Handle) → Moves (settle w res h)
  unfolding settle
  settle-Moves res none = search (move_rules, entry_rules) depth 8
  settle-Moves res (some h) = finish_spawn-Moves res h

  pub spawn_agent_internal-Moves :
      (p : Principal) (r : SpawnArgs) → Moves (spawn_agent_internal w p r)
  unfolding spawn_agent_internal
  spawn_agent_internal-Moves p r =
      search (move_rules, reserve-Moves, start-Moves, settle-Moves) depth 12

  pub spawn_agent-Moves : (call : Call) (req : SpawnAgentRequest) → Moves (spawn_agent w call req)
  unfolding spawn_agent
  spawn_agent-Moves call req = search (move_rules, spawn_agent_internal-Moves) depth 12

pub find_agent_for_caller-Moves : (p : Principal) (id : String) → Moves (find_agent_for_caller p id)
unfolding find_agent_for_caller
find_agent_for_caller-Moves p id = search move_rules depth 12

module _ (w : World) where
  pub stop_agent-Moves : (call : Call) (id : String) → Moves (stop_agent w call id)
  unfolding stop_agent
  stop_agent-Moves call id =
      search (move_rules, find_agent_for_caller-Moves, stop_agent_internal-Steps) depth 12

  finish_restart-Moves : (a : ℕ) (h : Handle) → Moves (finish_restart w a h)
  unfolding finish_restart
  finish_restart-Moves a h = search (move_rules, entry_rules) depth 16

  settle_restart-Moves : (a port : ℕ) (h : Option Handle) → Moves (settle_restart w a port h)
  unfolding settle_restart
  settle_restart-Moves a port none = search (move_rules, entry_rules) depth 8
  settle_restart-Moves a port (some h) = finish_restart-Moves a h

  start_again-Moves : (e : AgentEntry) (dir : String) (port : ℕ) → Moves (start_again w e dir port)
  unfolding start_again
  start_again-Moves e dir port = search move_rules depth 12

  pub restart_agent-Moves : (call : Call) (id : String) → Moves (restart_agent w call id)
  unfolding restart_agent
  restart_agent-Moves call id =
      search
        (
          move_rules, find_agent_for_caller-Moves, stop_agent_internal-Steps, start_again-Moves,
          settle_restart-Moves,
        )
        depth 20

  pub list_agents-Moves : (call : Call) (req : ListAgentsRequest) → Moves (list_agents w call req)
  unfolding list_agents
  list_agents-Moves call req = search move_rules depth 8

  pub get_agent_status-Moves : (call : Call) (id : String) → Moves (get_agent_status w call id)
  unfolding get_agent_status
  get_agent_status-Moves call id = search (move_rules, find_agent_for_caller-Moves) depth 12
