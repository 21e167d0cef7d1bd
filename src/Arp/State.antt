-- ===== src/Arp/State.antt =====
-- The state of arp/server/server.go (`Server`), and what the server takes from outside (`World`).
-- The entries that Go reaches through pointers stand in heaps that only grow; a map holds the address
-- of its entry, so `tokens` and `byBearer` share one entry as they do in the source.
use spec_torture.Base.{ℕ, ◌+◌, String, Bool, Option, List, []}
use spec_torture.Base.{get_elem?, set}
use spec_torture.Base.Dict.{Dict}
use spec_torture.Value.{Value}
use spec_torture.Arp.Handler.{Handler, or_fail, internal, ok}
use spec_torture.Arp.Messages.{
  Scope, Permission, AgentTemplate, Project, AgentCard, AgentInstance, Workspace, AgentEvent,
  WorkspaceEvent,
}

-- `Config`, after `applyDefaults`.
pub record Config : Type 0 where
  pub gateway_base_url : String
  pub min_port : ℕ
  pub max_port : ℕ
  pub localhost_admin : Bool
  pub templates : Dict AgentTemplate
  pub workspace_root : String

-- backend.Handle: a started agent. `Stop` reports an error that every caller drops.
pub record Handle : Type 0 where
  pub direct_url : String
  pub port : ℕ
  pub pid : ℕ

-- backend.SpawnSpec
pub record SpawnSpec : Type 0 where
  pub agent_id : String
  pub template : AgentTemplate
  pub workspace : String
  pub workspace_dir : String
  pub port : ℕ
  pub env : Dict String
  pub token : String

pub record WorkspaceEntry : Type 0 where
  pub pb : Workspace
  pub project : String
  pub dir : String
  pub agents : List String

pub record AgentEntry : Type 0 where
  pub pb : AgentInstance
  pub handle : Option Handle
  pub template : AgentTemplate
  pub project : String
  pub name : String
  pub env : Dict String
  pub card_base : Dict Value

-- A zero `time.Time` is `none`.
pub record TokenEntry : Type 0 where
  pub id : String
  pub subject : String
  pub scope : Option Scope
  pub perm : Permission
  pub session_id : String
  pub parent_token_id : String
  pub bearer : String
  pub issued_at : Option ℕ
  pub expires_at : Option ℕ

-- A subscriber's channel is the list of the events that wait in it.
abbrev pub Subscribers : Type 0 → Type 0
Subscribers E = Dict (List (ℕ × List E))

-- `tick` counts the questions put to the `World`.
pub record Server : Type 0 where
  pub cfg : Config
  pub projects : Dict Project
  pub workspaces : Dict ℕ
  pub agents : Dict ℕ
  pub tokens : Dict ℕ
  pub by_bearer : Dict ℕ
  pub used_ports : List ℕ
  pub sub_seq : ℕ
  pub agent_subs : Subscribers AgentEvent
  pub ws_subs : Subscribers WorkspaceEvent
  pub workspace_heap : List WorkspaceEntry
  pub agent_heap : List AgentEntry
  pub token_heap : List TokenEntry
  pub tick : ℕ

-- What is not the server's own: the answers of the operating system, of the agent backend, of the
-- agents themselves and of library code. A numbered answer is the one to that many-th question.
pub record World : Type 0 where
  -- strings.Split(uuid.NewString(), "-")[0]
  pub uuid_head : ℕ → String
  -- hex.EncodeToString of 24 random bytes
  pub random_hex : ℕ → String
  -- time.Now().UTC()
  pub now : ℕ → ℕ
  -- whether the port can be listened on
  pub port_free : ℕ → ℕ → Bool
  -- backend.FreePort
  pub os_port : ℕ → Option ℕ
  -- Backend.Spawn
  pub spawn : ℕ → SpawnSpec → Option Handle
  -- a2a.Client.FetchAgentCard
  pub fetch_card : ℕ → String → Option (Dict Value)
  -- json.Marshal, then protojson.Unmarshal
  pub decode_card : Dict Value → Option AgentCard
  -- Format(time.RFC3339)
  pub rfc3339 : ℕ → String
  -- filepath.Join
  pub join_path : String → String → String
  -- net.SplitHostPort
  pub split_host : String → Option String
  -- whether the text is an IP address, and a loopback one
  pub ip_is_loopback : String → Bool

abbrev pub Action : Type 0 → Type 0
Action A = Handler Server A

-- the number of the next question
unfoldable pub question : Action ℕ
question s = (ok s.tick, record s { tick = s.tick + 1 })

-- A read through a pointer. Go cannot fail here; an address out of range would give `internal`.
unfoldable pub load_token : ℕ → Action TokenEntry
load_token a s = or_fail internal (get_elem? s.token_heap a) s

unfoldable pub load_agent : ℕ → Action AgentEntry
load_agent a s = or_fail internal (get_elem? s.agent_heap a) s

unfoldable pub load_workspace : ℕ → Action WorkspaceEntry
load_workspace a s = or_fail internal (get_elem? s.workspace_heap a) s

-- Writes through a pointer.
unfoldable pub store_token : ℕ → TokenEntry → Server → Server
store_token a t s = record s { token_heap = set s.token_heap a t }

unfoldable pub store_agent : ℕ → AgentEntry → Server → Server
store_agent a e s = record s { agent_heap = set s.agent_heap a e }

unfoldable pub store_workspace : ℕ → WorkspaceEntry → Server → Server
store_workspace a e s = record s { workspace_heap = set s.workspace_heap a e }

-- `New`, with the defaults already applied.
unfoldable pub new_server : Config → Server
new_server cfg = record {
  cfg = cfg;
  projects = [];
  workspaces = [];
  agents = [];
  tokens = [];
  by_bearer = [];
  used_ports = [];
  sub_seq = 0;
  agent_subs = [];
  ws_subs = [];
  workspace_heap = [];
  agent_heap = [];
  token_heap = [];
  tick = 0;
}
