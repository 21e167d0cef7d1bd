-- ===== src/Arp/Witnesses/Access.antt =====
-- The theorems about access, tokens, cards, stops and streams, each at an input that meets its
-- hypotheses.
use spec_torture.Base.{ℕ, ◌≡◌, refl, none, some, List, [], ◌∷◌, ◌⊎◌, contains, get_elem?}
use spec_torture.Base.Int.{pos}
use spec_torture.Arp.Messages.{Permission, AgentEvent, AgentEventType, AgentInstance}
use spec_torture.Arp.State.{Server, Subscribers}
use spec_torture.Arp.Auth.Sound.{ByToken, ByPeer, authenticate_lem}
use spec_torture.Arp.Tokens.{CreateTokenRequest, CreateTokenResponse, create_token}
use spec_torture.Arp.Tokens.Create.{Created, create_token_lem}
use spec_torture.Arp.Cards.{skill_tags, backend_card_fallback, card_has_capability}
use spec_torture.Arp.Cards.Tags.{card_has_capability-backend_card_fallback}
use spec_torture.Arp.Agents.Lifecycle.{stop_agent, stop_agent_internal}
use spec_torture.Arp.Agents.Lifecycle.StopCall.{StoppedBy, stop_agent_lem}
use spec_torture.Arp.Agents.Lifecycle.Stopped.{IsStopped, stop_agent_internal-IsStopped}
use spec_torture.Arp.Discovery.Watch.{forward, agent_gone}
use spec_torture.Arp.Discovery.Watch.Prefix.{Sends, forward-Sends}
use spec_torture.Arp.Tests.{runs, world, echo, seeded, local}
use spec_torture.Arp.Witnesses.{
  both, confined, confined_call, populated, after_listing, entry_of, instance_of,
}

authenticate_lem_example :
    ByToken world confined_call populated confined ⊎ ByPeer world confined_call populated confined
unfolding runs
authenticate_lem_example =
    authenticate_lem world confined_call populated after_listing confined refl

abbrev token_request : CreateTokenRequest
token_request = record {
  subject = "more";
  scope = some both;
  permission = Permission.project;
  expires_in_seconds = pos 5;
}

abbrev token_answer : CreateTokenResponse
token_answer = record {
  token = record {
    id = "tok-iiiiiiiiii";
    subject = "more";
    scope = some both;
    permission = Permission.project;
    session_id = "";
    parent_token_id = "";
    issued_at = some 12;
    expires_at = some 5000000012;
  };
  bearer_token = "arp_iiiiiiiiiii";
}

abbrev created : Server
unfolding runs
created = (create_token world local token_request seeded).1

create_token_lem_example : Created world local seeded token_answer created
unfolding runs
create_token_lem_example =
    create_token_lem world local token_request seeded created token_answer refl

card_has_capability-backend_card_fallback_example :
    card_has_capability (backend_card_fallback echo "url") "say" ≡ contains (skill_tags echo) "say"
card_has_capability-backend_card_fallback_example =
    card_has_capability-backend_card_fallback echo "url" "say"

stop_agent_internal-IsStopped_example : IsStopped 1 9101 (stop_agent_internal world "a-2" populated)
unfolding runs
stop_agent_internal-IsStopped_example =
    stop_agent_internal-IsStopped world "a-2" populated 1 (entry_of "a-2" "s2") refl refl

abbrev after_stop : Server
unfolding runs
after_stop = (stop_agent world confined_call "a-1" populated).1

abbrev stopped_instance : AgentInstance
unfolding runs
stopped_instance = elim (get_elem? after_stop.agent_heap 0) [
  | none ↦ instance_of "a-1" "s1"
  | some e ↦ e.pb
]

stop_agent_lem_example : StoppedBy world confined_call "a-1" populated stopped_instance after_stop
unfolding runs
stop_agent_lem_example =
    stop_agent_lem world confined_call "a-1" populated after_stop stopped_instance refl

abbrev event_of : AgentEventType → AgentEvent
event_of type = record { event_type = type; agent = instance_of "a-1" "s1"; agent_card = none }

-- the last of the three follows the end
abbrev events : List AgentEvent
events =
    event_of AgentEventType.status_changed
    ∷ event_of AgentEventType.agent_stopped
    ∷ event_of AgentEventType.card_updated
    ∷ []

forward-Sends_example :
    (rest : List AgentEvent) × Sends agent_gone 5 events (forward agent_gone 5 events) rest
forward-Sends_example = forward-Sends agent_gone 5 events

abbrev many : ℕ → List ℕ
many ℕ.zero = []
many (ℕ.suc n) = n ∷ many n

abbrev subscribers : Subscribers ℕ
subscribers = ("a-1", (1, 7 ∷ []) ∷ []) ∷ ("a-2", (2, []) ∷ []) ∷ []
