-- ===== src/Arp/Discovery.antt =====
-- arp/server/discovery.go: discovery of agents, and the streams of events.
pub mod Watch
use spec_torture.Base.{
  ℕ, String, Bool, true, false, not, ◌&&◌, ◌||◌, Option, none, some, List, [], ◌∷◌, ◌==◌, ◌++◌,
  if◌then◌else◌,
}
use spec_torture.Base.Dict.{Dict}
use spec_torture.Value.{Value}
use spec_torture.Arp.Handler.{ok, pure, gets, ◌>>=◌, ◌>>◌}
use spec_torture.Arp.Messages.{AgentCard, AgentStatus}
use spec_torture.Arp.State.{AgentEntry, Server, World, Action, question}
use spec_torture.Arp.Auth.{Principal, Call, authenticate, can_see_agent}
use spec_torture.Arp.Cards.{enriched_card, map_to_agent_card, card_has_capability}
use spec_torture.Arp.Agents.Queries.{sorted_ids, collect_agents}

pub data DiscoveryScope : Type 0 where
  unspecified local network : DiscoveryScope

pub record DiscoverAgentsRequest : Type 0 where
  pub scope : DiscoveryScope
  pub capability : String
  pub urls : List String

abbrev pub is_up : AgentStatus → Bool
is_up AgentStatus.ready = true
is_up AgentStatus.busy = true
is_up _ = false

-- an empty capability filters nothing
abbrev pub capable : String → Dict Value → Bool
capable wanted card = wanted == "" || card_has_capability card wanted

unfoldable pub discover_passes : Principal → String → AgentEntry → Bool
discover_passes p wanted e = can_see_agent p e && (is_up e.pb.status && capable wanted e.card_base)

abbrev pub cards : World → List AgentEntry → List AgentCard
cards w [] = []
cards w (e ∷ es) = enriched_card w e ∷ cards w es

-- the card of one probed address, if it answers, fits and converts
unfoldable pub probed : World → String → Option (Dict Value) → List AgentCard
probed w wanted none = []
probed w wanted (some card) =
    if capable wanted card
    then elim (map_to_agent_card w card) [ none ↦ [] | some c ↦ c ∷ [] ]
    else []

unfoldable pub probe : World → String → List String → Action (List AgentCard)
probe w wanted [] = pure []
probe w wanted (url ∷ urls) = do
  n ← question
  rest ← probe w wanted urls
  pure (probed w wanted (w.fetch_card n url) ++ rest)

unfoldable pub remote_cards : World → DiscoverAgentsRequest → Action (List AgentCard)
remote_cards w req = elim req.scope [ network ↦ probe w req.capability req.urls | _ ↦ pure [] ]

unfoldable pub discover_agents : World → Call → DiscoverAgentsRequest → Action (List AgentCard)
discover_agents w call req = do
  p ← authenticate w call
  here ←
      gets
        (λ s. cards w (collect_agents s (discover_passes p req.capability) (sorted_ids s.agents)))
  there ← remote_cards w req
  pure (here ++ there)
