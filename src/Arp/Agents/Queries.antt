-- ===== src/Arp/Agents/Queries.antt =====
-- arp/server/agent.go: `ListAgents` and `GetAgentStatus`.
pub mod Exact
use spec_torture.Base.{
  ℕ, String, Bool, true, false, not, ◌&&◌, ◌||◌, Option, none, some, List, [], ◌∷◌, ◌==◌, get_elem?,
  if◌then◌else◌,
}
use spec_torture.Base.Dict.{Dict, lookup, keys}
use spec_torture.Base.Sort.{sort_strings}
use spec_torture.Arp.Handler.{ok, pure, gets, guard, ◌>>=◌, ◌>>◌, invalid_argument}
use spec_torture.Arp.Messages.{Asked, named, unnamed, AgentInstance, AgentStatus}
use spec_torture.Arp.State.{AgentEntry, Server, World, Action, load_agent}
use spec_torture.Arp.Auth.{Principal, Call, authenticate, can_see_agent}
use spec_torture.Arp.Agents.{find_agent_for_caller}

pub record ListAgentsRequest : Type 0 where
  pub workspace : String
  pub status : Asked AgentStatus
  pub template : String

abbrev pub same_status : AgentStatus → AgentStatus → Bool
same_status AgentStatus.unspecified AgentStatus.unspecified = true
same_status AgentStatus.starting AgentStatus.starting = true
same_status AgentStatus.ready AgentStatus.ready = true
same_status AgentStatus.busy AgentStatus.busy = true
same_status AgentStatus.error AgentStatus.error = true
same_status AgentStatus.stopping AgentStatus.stopping = true
same_status AgentStatus.stopped AgentStatus.stopped = true
same_status _ _ = false

-- an empty field of a request filters nothing
abbrev pub text_passes : String → String → Bool
text_passes wanted actual = wanted == "" || actual == wanted

-- no agent has a status without a name
abbrev pub status_passes : Asked AgentStatus → AgentStatus → Bool
status_passes (named AgentStatus.unspecified) actual = true
status_passes (named wanted) actual = same_status actual wanted
status_passes (unnamed n) actual = false

-- `sortedAgentIDs`
unfoldable pub sorted_ids : {V : Type 0} → Dict V → List String
unfolding sort_strings keys
sorted_ids m = sort_strings (keys m)

-- the entry that the map names
unfoldable pub agent_named : Server → String → Option AgentEntry
agent_named s id = elim (lookup id s.agents) [ none ↦ none | some a ↦ get_elem? s.agent_heap a ]

-- the tests of the loop's body, each of which skips the agent
unfoldable pub list_passes : Principal → ListAgentsRequest → AgentEntry → Bool
list_passes p req e =
    can_see_agent p e
    && (text_passes req.workspace e.pb.workspace
        && (status_passes req.status e.pb.status && text_passes req.template e.pb.template))

-- the loop over the sorted ids, for the entries that pass
unfoldable pub collect_agents : Server → (AgentEntry → Bool) → List String → List AgentEntry
collect_agents s pass [] = []
collect_agents s pass (id ∷ ids) =
    let rest = collect_agents s pass ids in
    elim (agent_named s id) [ none ↦ rest | some e ↦ if pass e then e ∷ rest else rest ]

abbrev pub messages : List AgentEntry → List AgentInstance
messages [] = []
messages (e ∷ es) = e.pb ∷ messages es

unfoldable pub list_agents : World → Call → ListAgentsRequest → Action (List AgentInstance)
list_agents w call req = do
  p ← authenticate w call
  gets (λ s. messages (collect_agents s (list_passes p req) (sorted_ids s.agents)))

unfoldable pub get_agent_status : World → Call → String → Action AgentInstance
get_agent_status w call id = do
  p ← authenticate w call
  guard (not (id == "")) invalid_argument
  a ← find_agent_for_caller p id
  e ← load_agent a
  pure e.pb
