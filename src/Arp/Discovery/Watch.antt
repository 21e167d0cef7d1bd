-- ===== src/Arp/Discovery/Watch.antt =====
-- arp/server/discovery.go: `WatchAgent` and `WatchWorkspace`. A stream accepts some number of
-- messages and then fails, or is never refused; a cancelled context ends the loop like a channel that
-- brings nothing more.
pub mod Prefix
use spec_torture.Base.{
  ℕ, zero, suc, String, Bool, true, false, not, some, List, [], ◌∷◌, ◌==◌, if◌then◌else◌,
}
use spec_torture.Arp.Handler.{pure, gets, guard, ◌>>=◌, ◌>>◌, invalid_argument}
use spec_torture.Arp.Messages.{
  AgentEvent, AgentEventType, Workspace, WorkspaceEvent, WorkspaceEventType,
}
use spec_torture.Arp.State.{AgentEntry, Server, World, Action, load_agent, load_workspace}
use spec_torture.Arp.Auth.{Call, authenticate}
use spec_torture.Arp.Events.{subscribe_agent, subscribe_workspace, build_workspace_pb}
use spec_torture.Arp.Agents.{find_agent_for_caller}
use spec_torture.Arp.Agents.Queries.{sorted_ids, collect_agents}
use spec_torture.Arp.Workspaces.{find_workspace}

-- The events that are sent, from those that the channel brings: the loop ends after an event that
-- `last` marks, and at the first refused send.
unfoldable pub forward : {E : Type 0} → (E → Bool) → ℕ → List E → List E
forward last room [] = []
forward last zero (ev ∷ evs) = []
forward last (suc room) (ev ∷ evs) =
    let rest = forward last room evs in if last ev then ev ∷ [] else ev ∷ rest

abbrev pub agent_gone : AgentEvent → Bool
agent_gone ev = elim ev.event_type [ AgentEventType.agent_stopped ↦ true | _ ↦ false ]

abbrev pub workspace_gone : WorkspaceEvent → Bool
workspace_gone ev = elim ev.event_type [ WorkspaceEventType.destroyed ↦ true | _ ↦ false ]

-- The event sent at once, and the number of the subscription.
unfoldable pub open_agent_watch : World → Call → String → Action (AgentEvent × ℕ)
open_agent_watch w call id = do
  p ← authenticate w call
  guard (not (id == "")) invalid_argument
  a ← find_agent_for_caller p id
  e ← load_agent a
  sub ← subscribe_agent id
  pure (
    record { event_type = AgentEventType.status_changed; agent = e.pb; agent_card = e.pb.card },
    sub,
  )

-- What a watcher is sent: the first event, then what the channel brings.
unfoldable pub agent_stream : AgentEvent → ℕ → List AgentEvent → List AgentEvent
agent_stream initial zero evs = []
agent_stream initial (suc room) evs = initial ∷ forward agent_gone room evs

abbrev pub in_workspace : String → AgentEntry → Bool
in_workspace name e = e.pb.workspace == name

abbrev pub spawn_events : Workspace → List AgentEntry → List WorkspaceEvent
spawn_events ws [] = []
spawn_events ws (e ∷ es) =
    record { event_type = WorkspaceEventType.spawned; workspace = ws; agent = some e.pb }
    ∷ spawn_events ws es

-- the events for the agents already there
unfoldable pub initials : Server → String → Workspace → List WorkspaceEvent
initials s name ws = spawn_events ws (collect_agents s (in_workspace name) (sorted_ids s.agents))

unfoldable pub open_workspace_watch : World → Call → String → Action (List WorkspaceEvent × ℕ)
open_workspace_watch w call name = do
  p ← authenticate w call
  guard (not (name == "")) invalid_argument
  at ← find_workspace p name
  e ← load_workspace at
  first ← gets (λ s. initials s name (build_workspace_pb s e))
  sub ← subscribe_workspace name
  pure (first, sub)

-- the events already there are all sent before the loop begins
unfoldable pub workspace_stream :
    List WorkspaceEvent → ℕ → List WorkspaceEvent → List WorkspaceEvent
workspace_stream [] room evs = forward workspace_gone room evs
workspace_stream (ev ∷ first) zero evs = []
workspace_stream (ev ∷ first) (suc room) evs = ev ∷ workspace_stream first room evs
