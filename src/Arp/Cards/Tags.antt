-- ===== src/Arp/Cards/Tags.antt =====
-- What a fallback card advertises.
use spec_torture.Base.{
  ◌≡◌, refl, ap, ◌∙◌, String, Bool, true, false, ◌||◌, List, [], ◌∷◌, any, contains, ◌==◌, map,
}
use spec_torture.Base.Dict.{lookup}
use spec_torture.Value.{text, items, of_items}
use spec_torture.Arp.Messages.{AgentTemplate}
use spec_torture.Arp.Cards.{skill_tags, backend_card_fallback, is_text, card_has_capability}

any_texts :
    (ts : List String) (cap : String)
    → any (is_text cap) (items (of_items (map text ts))) ≡ contains ts cap
any_texts [] cap = refl
any_texts (t ∷ ts) cap = ap (λ b. t == cap || b) (any_texts ts cap)

or_false : (b : Bool) → (b || false) ≡ b
or_false true = refl
or_false false = refl

-- The card made for an agent that serves none advertises exactly the tags of the agent's template,
-- so discovery by capability finds such an agent by those tags and no others.
pub card_has_capability-backend_card_fallback :
    (t : AgentTemplate) (url cap : String)
    → card_has_capability (backend_card_fallback t url) cap ≡ contains (skill_tags t) cap
unfolding card_has_capability backend_card_fallback lookup
card_has_capability-backend_card_fallback t url cap = or_false _ ∙ any_texts (skill_tags t) cap
