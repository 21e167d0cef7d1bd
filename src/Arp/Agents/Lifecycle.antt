-- ===== src/Arp/Agents/Lifecycle.antt =====
-- arp/server/agent.go: `stopAgentInternal`, `StopAgent` and `RestartAgent`.
pub mod Stopped
pub mod StopCall
use spec_torture.Base.{ℕ, String, Option, none, some, ◌==◌, not, get_elem?}
use spec_torture.Base.Dict.{lookup}
use spec_torture.Arp.Handler.{
  pure, fail, gets, guard, modify, ◌>>=◌, ◌>>◌, internal, invalid_argument,
}
use spec_torture.Arp.Messages.{AgentInstance, AgentStatus, AgentEventType}
use spec_torture.Arp.State.{Handle, AgentEntry, Server, World, Action, question, load_agent}
use spec_torture.Arp.Auth.{Call, authenticate}
use spec_torture.Arp.Tokens.{clock}
use spec_torture.Arp.Ports.{alloc_port, free_port}
use spec_torture.Arp.Cards.{refresh_card}
use spec_torture.Arp.Events.{publish_agent_event}
use spec_torture.Arp.Agents.{find_agent_for_caller, update_agent}
use spec_torture.Arp.Agents.Spawn.{set_status, card_or_fallback, ready_entry}

-- gives back the port that the agent's message names
unfoldable pub release_port : ℕ → Server → Server
release_port a s = elim (get_elem? s.agent_heap a) [ none ↦ s | some e ↦ free_port e.pb.port s ]

module _ (w : World) where
  abbrev pub stopping_entry : AgentEntry → AgentEntry
  stopping_entry e = refresh_card w (set_status AgentStatus.stopping e)

  -- the first locked region, and its publication
  unfoldable pub begin_stop : ℕ → Server → Server
  begin_stop a s =
      publish_agent_event a AgentEventType.status_changed none (update_agent a (stopping_entry) s)

  abbrev pub stopped_entry : AgentEntry → AgentEntry
  stopped_entry e =
      refresh_card w
        (record e { handle = none; pb = record e.pb { status = AgentStatus.stopped; pid = 0 } })

  -- the second locked region, after `handle.Stop`, and its publication
  unfoldable pub finish_stop : ℕ → Server → Server
  finish_stop a s =
      publish_agent_event a AgentEventType.agent_stopped none
        (update_agent a stopped_entry (release_port a s))

  -- `stopAgentInternal`: it never fails, and an id that names no agent is nothing to do. The grace
  -- period and the result of `handle.Stop` leave no trace in the server.
  unfoldable pub stop_agent_internal : String → Server → Server
  stop_agent_internal id s = elim (lookup id s.agents) [
    | none ↦ s
    | some a ↦ finish_stop a (begin_stop a s)
  ]

  unfoldable pub stop_agent : Call → String → Action AgentInstance
  stop_agent call id = do
    p ← authenticate w call
    guard (not (id == "")) invalid_argument
    a ← find_agent_for_caller p id
    modify (stop_agent_internal id)
    e ← load_agent a
    pure e.pb

-- `dirOf(s.workspaces[name])`
unfoldable pub dir_of : Server → String → String
dir_of s name = elim (lookup name s.workspaces) [
  | none ↦ ""
  | some at ↦ elim (get_elem? s.workspace_heap at) [ none ↦ "" | some e ↦ e.dir ]
]

-- the region after a failed restart
unfoldable pub abandon_restart : ℕ → ℕ → Server → Server
abandon_restart a port s = free_port port (update_agent a (set_status AgentStatus.error) s)

abbrev pub restarted_at : ℕ → AgentEntry → AgentEntry
restarted_at now e = record e { pb = record e.pb { started_at = some now } }

module _ (w : World) where
  unfoldable pub finish_restart : ℕ → Handle → Action AgentInstance
  finish_restart a h = do
    old ← load_agent a
    card ← card_or_fallback w old.template h.direct_url
    now ← clock w
    modify (update_agent a (λ e. ready_entry w h card (restarted_at now e)))
    e ← load_agent a
    modify (publish_agent_event a AgentEventType.card_updated e.pb.card)
    modify (publish_agent_event a AgentEventType.status_changed none)
    pure e.pb

  unfoldable pub settle_restart : ℕ → ℕ → Option Handle → Action AgentInstance
  settle_restart a port none = do modify (abandon_restart a port); fail internal
  settle_restart a port (some h) = finish_restart a h

  -- Backend.Spawn, with no child token: the source leaves `Token` out of this `SpawnSpec`.
  unfoldable pub start_again : AgentEntry → String → ℕ → Action (Option Handle)
  start_again e dir port = do
    n ← question
    pure (
        w.spawn n (record {
          agent_id = e.pb.id;
          template = e.template;
          workspace = e.pb.workspace;
          workspace_dir = dir;
          port = port;
          env = e.env;
          token = "";
        }))

  unfoldable pub restart_agent : Call → String → Action AgentInstance
  restart_agent call id = do
    p ← authenticate w call
    guard (not (id == "")) invalid_argument
    a ← find_agent_for_caller p id
    e ← load_agent a
    dir ← gets (λ s. dir_of s e.pb.workspace)
    modify (stop_agent_internal w e.pb.id)
    port ← alloc_port w
    started ← start_again e dir port
    settle_restart a port started
