-- ===== src/Arp/Events.antt =====
-- arp/server/server.go: subscriptions, the publication of events, and the workspace message.
pub mod Channels
use spec_torture.Base.{
  ℕ, ◌+◌, String, Option, none, some, List, [], ◌∷◌, ◌++◌, length, get_elem?, eqb, ltb,
  if◌then◌else◌,
}
use spec_torture.Base.Dict.{lookup, insert}
use spec_torture.Base.Sort.{sort_strings}
use spec_torture.Arp.Handler.{ok}
use spec_torture.Arp.Messages.{
  AgentCard, AgentInstance, AgentEvent, AgentEventType, Workspace, WorkspaceEvent,
  WorkspaceEventType,
}
use spec_torture.Arp.State.{WorkspaceEntry, Subscribers, Server, Action}

-- `trySend` on a channel of capacity 32: a full channel drops the event.
unfoldable pub try_send {ℓ} : {E : Type ℓ} → E → List E → List E
try_send ev ch = if ltb (length ch) 32 then ch ++ ev ∷ [] else ch

module _ {E : Type 0} where
  unfoldable pub deliver : E → List (ℕ × List E) → List (ℕ × List E)
  unfolding try_send
  deliver ev [] = []
  deliver ev ((id, ch) ∷ subs) = (id, try_send ev ch) ∷ deliver ev subs

  -- The event goes to every channel under `key`.
  unfoldable pub broadcast : String → E → Subscribers E → Subscribers E
  unfolding deliver
  broadcast key ev subs = elim (lookup key subs) [
    | none ↦ subs
    | some chs ↦ insert key (deliver ev chs) subs
  ]

  -- A new channel under `key`; the inner map is made on first use.
  unfoldable pub subscribe : String → ℕ → Subscribers E → Subscribers E
  subscribe key id subs = elim (lookup key subs) [
    | none ↦ insert key ((id, []) ∷ []) subs
    | some chs ↦ insert key ((id, []) ∷ chs) subs
  ]

  drop_id : ℕ → List (ℕ × List E) → List (ℕ × List E)
  drop_id id [] = []
  drop_id id ((i, ch) ∷ subs) =
      let rest = drop_id id subs in if eqb i id then rest else (i, ch) ∷ rest

  unfoldable pub unsubscribe : String → ℕ → Subscribers E → Subscribers E
  unfolding drop_id
  unsubscribe key id subs = elim (lookup key subs) [
    | none ↦ subs
    | some chs ↦ insert key (drop_id id chs) subs
  ]

unfoldable pub subscribe_agent : String → Action ℕ
subscribe_agent agent_id s =
    let id = s.sub_seq + 1 in
    (ok id, record s { sub_seq = id; agent_subs = subscribe agent_id id s.agent_subs })

unfoldable pub unsubscribe_agent : String → ℕ → Server → Server
unsubscribe_agent agent_id id s = record s { agent_subs = unsubscribe agent_id id s.agent_subs }

unfoldable pub subscribe_workspace : String → Action ℕ
subscribe_workspace name s =
    let id = s.sub_seq + 1 in
    (ok id, record s { sub_seq = id; ws_subs = subscribe name id s.ws_subs })

unfoldable pub unsubscribe_workspace : String → ℕ → Server → Server
unsubscribe_workspace name id s = record s { ws_subs = unsubscribe name id s.ws_subs }

-- the messages of those of `ids` that the map still names
unfoldable pub listed_agents : Server → List String → List AgentInstance
listed_agents s [] = []
listed_agents s (id ∷ ids) =
    let rest = listed_agents s ids in
    elim (lookup id s.agents) [
      | none ↦ rest
      | some a ↦ elim (get_elem? s.agent_heap a) [ none ↦ rest | some e ↦ e.pb ∷ rest ]
    ]

-- `buildWorkspacePB`
unfoldable pub build_workspace_pb : Server → WorkspaceEntry → Workspace
unfolding listed_agents
build_workspace_pb s e = record e.pb { agents = listed_agents s (sort_strings e.agents) }

send_workspace : String → WorkspaceEvent → Server → Server
unfolding broadcast
send_workspace name ev s = record s { ws_subs = broadcast name ev s.ws_subs }

-- The mirrored event is sent only while the map names the workspace.
mirror : AgentInstance → WorkspaceEventType → Server → Server
unfolding send_workspace build_workspace_pb
mirror pb type s = elim (lookup pb.workspace s.workspaces) [
  | none ↦ s
  | some a ↦ elim (get_elem? s.workspace_heap a) [
    | none ↦ s
    | some e ↦
        send_workspace pb.workspace
          (record { event_type = type; workspace = build_workspace_pb s e; agent = some pb }) s
  ]
]

abbrev mirrored : AgentEventType → WorkspaceEventType
mirrored AgentEventType.agent_stopped = WorkspaceEventType.stopped
mirrored _ = WorkspaceEventType.changed

-- `publishAgentEvent`, of the message of an agent
publish_instance : AgentInstance → AgentEventType → Option AgentCard → Server → Server
unfolding mirror broadcast
publish_instance pb type card s =
    let ev : AgentEvent = record { event_type = type; agent = pb; agent_card = card } in
    mirror pb (mirrored type) (record s { agent_subs = broadcast pb.id ev s.agent_subs })

unfoldable pub publish_agent_event : ℕ → AgentEventType → Option AgentCard → Server → Server
unfolding publish_instance
publish_agent_event a type card s = elim (get_elem? s.agent_heap a) [
  | none ↦ s
  | some e ↦ publish_instance e.pb type card s
]

-- `publishWorkspaceSpawn` and `publishWorkspaceDestroyed`, of the entry at an address
unfoldable pub publish_workspace : ℕ → WorkspaceEventType → Option AgentInstance → Server → Server
unfolding send_workspace build_workspace_pb
publish_workspace at type agent s = elim (get_elem? s.workspace_heap at) [
  | none ↦ s
  | some e ↦
      send_workspace e.pb.name
        (record { event_type = type; workspace = build_workspace_pb s e; agent = agent }) s
]
