-- ===== src/Arp/Messages.antt =====
-- The messages of proto/arp/v1 that the server keeps or answers with (generated as gen/arp/v1).
-- A message field that may be absent is an `Option`; an absent text is "".
use spec_torture.Base.{ℕ, ◌+◌, String, Bool, Option, List}
use spec_torture.Base.Int.{ℤ, pos, negsuc}
use spec_torture.Base.Dict.{Dict}
use spec_torture.Value.{Value}

pub record Scope : Type 0 where
  pub global : Bool
  pub projects : List String

-- An open proto3 enum: a peer may send any int32. `negative n` is -(n + 1), `beyond n` is n + 4.
pub data Permission : Type 0 where
  unspecified session project admin : Permission
  negative beyond : ℕ → Permission

abbrev pub permission_number : Permission → ℤ
permission_number (negative n) = negsuc n
permission_number unspecified = pos 0
permission_number session = pos 1
permission_number project = pos 2
permission_number admin = pos 3
permission_number (beyond n) = pos (n + 4)

-- The status in a filter, an open enum: one that has a name, or a number that has none.
pub data Asked (S : Type 0) : Type 0 where
  named : S → Asked S
  unnamed : ℤ → Asked S

-- The values that the server writes.
pub data AgentStatus : Type 0 where
  unspecified starting ready busy error stopping stopped : AgentStatus

pub data WorkspaceStatus : Type 0 where
  unspecified active inactive : WorkspaceStatus

pub data AgentEventType : Type 0 where
  status_changed card_updated agent_stopped : AgentEventType

pub data WorkspaceEventType : Type 0 where
  spawned changed stopped destroyed : WorkspaceEventType

pub record SkillConfig : Type 0 where
  pub id : String
  pub name : String
  pub description : String
  pub tags : List String

pub record CardConfig : Type 0 where
  pub name : String
  pub description : String
  pub skills : List SkillConfig

-- `port_env` and `health_check` are read only by the backend.
pub record AgentTemplate : Type 0 where
  pub name : String
  pub command : String
  pub env : Dict String
  pub capabilities : List String
  pub card_config : Option CardConfig

pub record Project : Type 0 where
  pub name : String
  pub repo : String
  pub branch : String
  pub agents : List AgentTemplate

-- lf.a2a.v1.AgentCard: `body` is every field that the server leaves as it was decoded.
pub record AgentCard : Type 0 where
  pub body : Dict Value
  pub supported_interfaces : List (String × String)
  pub metadata : Dict Value

-- Times are nanoseconds; a port or a process id is below 2 ^ 31, so int32 keeps it.
pub record AgentInstance : Type 0 where
  pub id : String
  pub template : String
  pub workspace : String
  pub status : AgentStatus
  pub port : ℕ
  pub direct_url : String
  pub proxy_url : String
  pub pid : ℕ
  pub card : Option AgentCard
  pub token_id : String
  pub session_id : String
  pub spawned_by : String
  pub started_at : Option ℕ

pub record Workspace : Type 0 where
  pub name : String
  pub project : String
  pub dir : String
  pub agents : List AgentInstance
  pub status : WorkspaceStatus
  pub created_at : Option ℕ

pub record Token : Type 0 where
  pub id : String
  pub subject : String
  pub scope : Option Scope
  pub permission : Permission
  pub session_id : String
  pub parent_token_id : String
  pub issued_at : Option ℕ
  pub expires_at : Option ℕ

pub record AgentEvent : Type 0 where
  pub event_type : AgentEventType
  pub agent : AgentInstance
  pub agent_card : Option AgentCard

pub record WorkspaceEvent : Type 0 where
  pub event_type : WorkspaceEventType
  pub workspace : Workspace
  pub agent : Option AgentInstance
