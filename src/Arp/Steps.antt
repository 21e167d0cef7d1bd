-- ===== src/Arp/Steps.antt =====
-- The primitive changes of the server's state, one for each kind of write that arp/server makes in a
-- locked region, as a step relation; and sequences of steps.
pub mod Parts
pub mod Entries
pub mod Agents
pub mod Calls
pub mod Rights
pub mod Pointers
use spec_torture.Base.{
  ℕ, ◌≡◌, refl, String, Bool, true, Option, none, some, List, [], ◌∷◌, ◌==◌, get_elem?,
}
use spec_torture.Base.Dict.{delete}
use spec_torture.Arp.State.{
  WorkspaceEntry, AgentEntry, TokenEntry, Server, store_token, store_agent, store_workspace,
}
use spec_torture.Arp.Tokens.{add_token}
use spec_torture.Arp.Agents.Spawn.{add_agent}
use spec_torture.Arp.Workspaces.{add_workspace}
use spec_torture.Arp.Handler.Follows.{IsPreorder}

-- Only the projects, the ports, the subscriptions and the clock may differ.
pub record Quiet (s t : Server) : Type 0 where
  pub cfg : t.cfg ≡ s.cfg
  pub workspaces : t.workspaces ≡ s.workspaces
  pub agents : t.agents ≡ s.agents
  pub tokens : t.tokens ≡ s.tokens
  pub by_bearer : t.by_bearer ≡ s.by_bearer
  pub workspace_heap : t.workspace_heap ≡ s.workspace_heap
  pub agent_heap : t.agent_heap ≡ s.agent_heap
  pub token_heap : t.token_heap ≡ s.token_heap

-- What no write to an agent's entry changes: where it stands and whose it is.
pub record SameAgent (e e' : AgentEntry) : Type 0 where
  pub id : e'.pb.id ≡ e.pb.id
  pub workspace : e'.pb.workspace ≡ e.pb.workspace
  pub template : e'.pb.template ≡ e.pb.template
  pub session_id : e'.pb.session_id ≡ e.pb.session_id
  pub token_id : e'.pb.token_id ≡ e.pb.token_id
  pub spawned_by : e'.pb.spawned_by ≡ e.pb.spawned_by
  pub project : e'.project ≡ e.project

pub record SameWorkspace (e e' : WorkspaceEntry) : Type 0 where
  pub name : e'.pb.name ≡ e.pb.name
  pub project : e'.project ≡ e.project
  pub dir : e'.dir ≡ e.dir

abbrev pub with_session_id : String → TokenEntry → TokenEntry
with_session_id sess tok = record tok { session_id = sess }

pub data Step : Server → Server → Type 0 where
  quiet : {s t : Server} → Quiet s t → Step s t
  mint : (tok : TokenEntry) {s : Server} → Step s (add_token tok s).1
  first_session :
      (a : ℕ) (tok : TokenEntry) (sess : String) {s : Server}
      → get_elem? s.token_heap a ≡ some tok
      → tok.session_id ≡ ""
      → Step s (store_token a (with_session_id sess tok) s)
  enlist : (e : AgentEntry) {s : Server} → Step s (add_agent e.pb.id e s).1
  write_agent :
      (a : ℕ) (e e' : AgentEntry) {s : Server}
      → get_elem? s.agent_heap a ≡ some e
      → SameAgent e e'
      → Step s (store_agent a e' s)
  forget_agent : (id : String) {s : Server} → Step s (record s { agents = delete id s.agents })
  open_workspace : (e : WorkspaceEntry) {s : Server} → Step s (add_workspace e.pb.name e s).1
  write_workspace :
      (at : ℕ) (e e' : WorkspaceEntry) {s : Server}
      → get_elem? s.workspace_heap at ≡ some e
      → SameWorkspace e e'
      → Step s (store_workspace at e' s)
  close_workspace :
      (name : String) {s : Server} → Step s (record s { workspaces = delete name s.workspaces })

pub data Steps (s : Server) : Server → Type 0 where
  here : Steps s s
  next : {t u : Server} → Steps s t → Step t u → Steps s u

pub Steps-append : {s t u : Server} → Steps s t → Steps t u → Steps s u
Steps-append p here = p
Steps-append p (next q st) = next (Steps-append p q) st

pub one : {s t : Server} → Step s t → Steps s t
one st = next here st

pub Steps-IsPreorder : IsPreorder Steps
Steps-IsPreorder = record { reflexive = λ s. here; transitive = λ s t u p q. Steps-append p q }

-- A property that every step keeps is kept by any number of them.
pub Steps-keep :
    {P : Server → Type 0}
    → ((s t : Server) → Step s t → P s → P t)
    → {s t : Server} → Steps s t
    → P s
    → P t
Steps-keep keep here p = p
Steps-keep keep (next {t} {u} q st) p = keep t u st (Steps-keep keep q p)
