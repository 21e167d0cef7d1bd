-- ===== src/Arp/Cards.antt =====
-- Agent cards: arp/server/a2aconv.go, the card builders of arp/server/server.go and agent.go, and
-- `SkillTags` of arp/backend/exec.go.
pub mod Tags
use spec_torture.Base.{
  ℕ, String, Bool, false, Option, none, some, List, [], ◌∷◌, ◌==◌, ◌++◌, contains, any, map,
  if◌then◌else◌,
}
use spec_torture.Base.Dict.{Dict, lookup, insert}
use spec_torture.Base.Text.{trim_space}
use spec_torture.Value.{Value, text, arr, obj, items, of_items, of_fields, fields}
use spec_torture.Arp.Messages.{AgentTemplate, SkillConfig, AgentCard, AgentStatus, AgentInstance}
use spec_torture.Arp.State.{AgentEntry, World}

abbrev pub empty_card : AgentCard
empty_card = record { body = []; supported_interfaces = []; metadata = [] }

-- `mapToAgentCard`, `none` for its error
unfoldable pub map_to_agent_card : World → Dict Value → Option AgentCard
map_to_agent_card w [] = some empty_card
map_to_agent_card w ((k, v) ∷ m) = w.decode_card ((k, v) ∷ m)

unfoldable pub agent_status_string : AgentStatus → String
agent_status_string AgentStatus.unspecified = "unspecified"
agent_status_string AgentStatus.starting = "starting"
agent_status_string AgentStatus.ready = "ready"
agent_status_string AgentStatus.busy = "busy"
agent_status_string AgentStatus.error = "error"
agent_status_string AgentStatus.stopping = "stopping"
agent_status_string AgentStatus.stopped = "stopped"

interfaces : AgentInstance → List (String × String)
interfaces pb =
    (pb.direct_url, "HTTP_JSON")
    ∷ (if pb.proxy_url == "" then [] else (pb.proxy_url, "HTTP_JSON") ∷ [])

started : World → Option ℕ → Dict Value
started w none = []
started w (some t) = ("started_at", text (w.rfc3339 t)) ∷ []

proxied : String → Dict Value
proxied url = if url == "" then [] else ("proxy_url", text url) ∷ []

unfoldable pub arp_meta : World → AgentEntry → Dict Value
unfolding started proxied agent_status_string
arp_meta w a =
    ("agent_id", text a.pb.id)
    ∷ ("workspace", text a.pb.workspace)
    ∷ ("project", text a.project)
    ∷ ("template", text a.pb.template)
    ∷ ("status", text (agent_status_string a.pb.status))
    ∷ ("direct_url", text a.pb.direct_url)
    ∷ (proxied a.pb.proxy_url ++ started w a.pb.started_at)

-- The metadata is text throughout, so `structpb.NewStruct` accepts it.
enrich : World → AgentEntry → AgentCard → AgentCard
enrich w a card = record card {
  supported_interfaces = interfaces a.pb;
  metadata = insert "arp" (obj (of_fields (arp_meta w a))) card.metadata;
}

unfoldable pub enriched_card : World → AgentEntry → AgentCard
unfolding map_to_agent_card interfaces arp_meta enrich
enriched_card w a = elim (map_to_agent_card w a.card_base) [
  | none ↦ enrich w a empty_card
  | some card ↦ enrich w a card
]

-- `refreshCard`
unfoldable pub refresh_card : World → AgentEntry → AgentEntry
unfolding enriched_card
refresh_card w a = record a { pb = record a.pb { card = some (enriched_card w a) } }

-- the tags with spaces trimmed, each once, in the order of their first occurrence
add_tags : List String → List String → List String
unfolding trim_space
add_tags [] seen = seen
add_tags (t ∷ ts) seen =
    let tag = trim_space t in
    add_tags ts (if tag == "" then seen else if contains seen tag then seen else seen ++ tag ∷ [])

skills_tags : List SkillConfig → List String → List String
unfolding add_tags
skills_tags [] seen = seen
skills_tags (k ∷ ks) seen = skills_tags ks (add_tags k.tags seen)

unfoldable pub skill_tags : AgentTemplate → List String
unfolding skills_tags
skill_tags t =
    let own = add_tags t.capabilities [] in
    elim t.card_config [ none ↦ own | some cfg ↦ skills_tags cfg.skills own ]

fallback_name : AgentTemplate → String
fallback_name t = elim t.card_config [
  | none ↦ t.name
  | some cfg ↦ if cfg.name == "" then t.name else cfg.name
]

fallback_description : AgentTemplate → String
fallback_description t = elim t.card_config [ none ↦ "" | some cfg ↦ cfg.description ]

abbrev pub texts : List String → Value
texts ts = arr (of_items (map text ts))

-- `backendCardFallback`
unfoldable pub backend_card_fallback : AgentTemplate → String → Dict Value
unfolding skill_tags fallback_name fallback_description
backend_card_fallback t direct_url =
    ("name", text (fallback_name t))
    ∷ ("description", text (fallback_description t))
    ∷ ("version", text "1.0.0")
    ∷ (
      "supported_interfaces",
      arr (
          of_items (
            obj (of_fields (("url", text direct_url) ∷ ("transport", text "HTTP_JSON") ∷ []))
            ∷ [])),
    )
    ∷ (
      "skills",
      arr (
          of_items (
            obj (
              of_fields (
                ("id", text t.name)
                ∷ ("name", text (fallback_name t))
                ∷ ("tags", texts (skill_tags t))
                ∷ []))
            ∷ [])),
    )
    ∷ ("default_input_modes", texts ("text/plain" ∷ []))
    ∷ ("default_output_modes", texts ("text/plain" ∷ []))
    ∷ []

-- the elements of a `[]any`, none for any other value
abbrev pub elements : Option Value → List Value
elements (some (arr vs)) = items vs
elements _ = []

abbrev pub member : String → Value → Option Value
member key (obj fs) = lookup key (fields fs)
member key _ = none

abbrev is_text : String → Value → Bool
is_text s (text t) = t == s
is_text s _ = false

-- `cardHasCapability`: a nil card is an empty one
unfoldable pub card_has_capability : Dict Value → String → Bool
card_has_capability card capability =
    any (λ skill. any (is_text capability) (elements (member "tags" skill)))
      (elements (lookup "skills" card))
