-- ===== src/Arp/Steps/Entries.antt =====
-- The writes to entries and the publications are sequences of steps.
use spec_torture.Base.{
  ℕ, String, Option, none, List, [], ◌∷◌, arith, get_elem?, contains, Option-cases, Bool-cases, inl,
  inr,
}
use spec_torture.Base.Dict.{lookup}
use spec_torture.Arp.Messages.{
  AgentCard, AgentInstance, AgentEventType, WorkspaceEventType, AgentStatus,
}
use spec_torture.Arp.State.{AgentEntry, Server, World}
use spec_torture.Arp.Ports.{free_port}
use spec_torture.Arp.Events.{
  publish_agent_event, publish_workspace, subscribe_agent, subscribe_workspace,
}
use spec_torture.Arp.Agents.{update_agent}
use spec_torture.Arp.Agents.Spawn.{join_workspace, set_status, abandon}
use spec_torture.Arp.Agents.Lifecycle.{
  stopped_entry, begin_stop, release_port, finish_stop, stop_agent_internal, abandon_restart,
}
use spec_torture.Arp.Projects.{put_project, remove_project}
use spec_torture.Arp.Workspaces.{stop_all, delete_agents, deactivate, remove_workspace, tear_down}
use spec_torture.Arp.Cards.{refresh_card}
use spec_torture.Arp.Steps.{SameAgent, Step, Steps, here, next, one, Steps-append}
use spec_torture.Arp.Steps.Parts.{IsQuiet, Moves, quietly, free_port-IsQuiet}

pub publish_agent_event-IsQuiet :
    (a : ℕ) (type : AgentEventType) (card : Option AgentCard)
    → IsQuiet (publish_agent_event a type card)
unfolding publish_agent_event
publish_agent_event-IsQuiet a type card s = ground arith

pub publish_workspace-IsQuiet :
    (at : ℕ) (type : WorkspaceEventType) (agent : Option AgentInstance)
    → IsQuiet (publish_workspace at type agent)
unfolding publish_workspace
publish_workspace-IsQuiet at type agent s = ground arith

pub put_project-IsQuiet : (name : String) (proj : _) → IsQuiet (put_project name proj)
unfolding put_project
put_project-IsQuiet name proj s = ground arith

pub remove_project-IsQuiet : (name : String) → IsQuiet (remove_project name)
unfolding remove_project
remove_project-IsQuiet name s = ground arith

pub subscribe_agent-Moves : (id : String) → Moves (subscribe_agent id)
unfolding subscribe_agent
subscribe_agent-Moves id = record { at = λ s. one (Step.quiet (ground arith)) }

pub subscribe_workspace-Moves : (name : String) → Moves (subscribe_workspace name)
unfolding subscribe_workspace
subscribe_workspace-Moves name = record { at = λ s. one (Step.quiet (ground arith)) }

-- a function of an agent's entry that leaves its identity alone
abbrev pub KeepsAgent : (AgentEntry → AgentEntry) → Type 0
KeepsAgent f = (e : AgentEntry) → SameAgent e (f e)

pub update_agent-Steps :
    (a : ℕ) (f : AgentEntry → AgentEntry)
    → KeepsAgent f
    → (s : Server) → Steps s (update_agent a f s)
unfolding update_agent
update_agent-Steps a f keeps s = elim (Option-cases (get_elem? s.agent_heap a)) [
  | inl missing ↦ rw (missing, update_agent) here
  | inr (e, found) ↦ rw (found, update_agent) (one (Step.write_agent a e (f e) found (keeps e)))
]

pub refresh_card-KeepsAgent : (w : World) → KeepsAgent (refresh_card w)
unfolding refresh_card
refresh_card-KeepsAgent w e = ground arith

pub set_status-KeepsAgent : (st : AgentStatus) → KeepsAgent (set_status st)
set_status-KeepsAgent st e = ground arith

pub join_workspace-Steps : (at : ℕ) (id : String) (s : Server) → Steps s (join_workspace at id s)
unfolding join_workspace
join_workspace-Steps at id s = elim (Option-cases (get_elem? s.workspace_heap at)) [
  | inl missing ↦ rw (missing, join_workspace) here
  | inr (e, found) ↦ elim (Bool-cases (contains e.agents id)) [
    | inl in_it ↦ rw (found, in_it, join_workspace) here
    | inr new ↦
        rw (found, new, join_workspace) (one (Step.write_workspace at e _ found (ground arith)))
  ]
]

release_port-IsQuiet : (a : ℕ) → IsQuiet (release_port a)
unfolding release_port free_port
release_port-IsQuiet a s = ground arith

-- a quiet change after some steps
and_quietly : {s t : Server} (f : Server → Server) → IsQuiet f → Steps s t → Steps s (f t)
and_quietly f q p = next p (Step.quiet (q _))

module _ (w : World) where
  stop_marks : (st : AgentStatus) → KeepsAgent (λ e. refresh_card w (set_status st e))
  unfolding refresh_card
  stop_marks st e = ground arith

  begin_stop-Steps : (a : ℕ) (s : Server) → Steps s (begin_stop w a s)
  unfolding begin_stop
  begin_stop-Steps a s =
      and_quietly _ (publish_agent_event-IsQuiet a _ none)
        (update_agent-Steps a _ (stop_marks AgentStatus.stopping) s)

  stopped-KeepsAgent : KeepsAgent (stopped_entry w)
  unfolding refresh_card
  stopped-KeepsAgent e = ground arith

  finish_stop-Steps : (a : ℕ) (s : Server) → Steps s (finish_stop w a s)
  unfolding finish_stop
  finish_stop-Steps a s = and_quietly _ (publish_agent_event-IsQuiet a _ none) (
      Steps-append (quietly (release_port a) (release_port-IsQuiet a) s)
        (update_agent-Steps a _ stopped-KeepsAgent (release_port a s)))

  pub stop_agent_internal-Steps : (id : String) (s : Server) → Steps s (stop_agent_internal w id s)
  unfolding stop_agent_internal
  stop_agent_internal-Steps id s = elim (Option-cases (lookup id s.agents)) [
    | inl missing ↦ rw (missing, stop_agent_internal) here
    | inr (a, found) ↦
        rw (found, stop_agent_internal)
          (Steps-append (begin_stop-Steps a s) (finish_stop-Steps a (begin_stop w a s)))
  ]

  pub stop_all-Steps : (ids : List String) (s : Server) → Steps s (stop_all w ids s)
  unfolding stop_all
  stop_all-Steps [] s = here
  stop_all-Steps (id ∷ ids) s =
      Steps-append (stop_agent_internal-Steps id s)
        (stop_all-Steps ids (stop_agent_internal w id s))

pub abandon-Steps : (id : String) (port : ℕ) (s : Server) → Steps s (abandon id port s)
unfolding abandon
abandon-Steps id port s = elim (Option-cases (lookup id s.agents)) [
  | inl missing ↦ rw (missing, abandon) (quietly _ (free_port-IsQuiet port) s)
  | inr (a, found) ↦
      rw (found, abandon)
        (and_quietly _ (free_port-IsQuiet port)
          (update_agent-Steps a _ (set_status-KeepsAgent AgentStatus.error) s))
]

pub abandon_restart-Steps : (a port : ℕ) (s : Server) → Steps s (abandon_restart a port s)
unfolding abandon_restart
abandon_restart-Steps a port s =
    and_quietly _ (free_port-IsQuiet port)
      (update_agent-Steps a _ (set_status-KeepsAgent AgentStatus.error) s)

delete_agents-Steps : (ids : List String) (s : Server) → Steps s (delete_agents ids s)
unfolding delete_agents
delete_agents-Steps [] s = here
delete_agents-Steps (id ∷ ids) s =
    Steps-append (one (Step.forget_agent id)) (delete_agents-Steps ids _)

deactivate-Steps : (at : ℕ) (s : Server) → Steps s (deactivate at s)
unfolding deactivate
deactivate-Steps at s = elim (Option-cases (get_elem? s.workspace_heap at)) [
  | inl missing ↦ rw (missing, deactivate) here
  | inr (e, found) ↦ rw (found, deactivate) (one (Step.write_workspace at e _ found (ground arith)))
]

pub tear_down-Steps :
    (w : World) (at : ℕ) (name : String) (ids : List String) (s : Server)
    → Steps s (tear_down w at name ids s)
unfolding tear_down remove_workspace
tear_down-Steps w at name ids s = and_quietly _ (publish_workspace-IsQuiet at _ none) (
    next
      (Steps-append (stop_all-Steps w ids s)
        (Steps-append (delete_agents-Steps ids _) (deactivate-Steps at _)))
      (Step.close_workspace name))
