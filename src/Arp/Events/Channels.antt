-- ===== src/Arp/Events/Channels.antt =====
-- What a subscriber of arp/server/server.go finds in its channel.
use spec_torture.Base.{ℕ, zero, suc, String, Option, none, some, List, [], ◌∷◌, eqb, if◌then◌else◌}
use spec_torture.Base.Dict.{lookup}
use spec_torture.Arp.State.{Subscribers}
use spec_torture.Arp.Events.{broadcast}

abbrev pub take : {E : Type 0} → ℕ → List E → List E
take zero xs = []
take (suc n) [] = []
take (suc n) (x ∷ xs) = x ∷ take n xs

module _ {E : Type 0} where
  abbrev pub channel_in : ℕ → List (ℕ × List E) → Option (List E)
  channel_in id [] = none
  channel_in id ((i, ch) ∷ chs) = if eqb i id then some ch else channel_in id chs

  -- the events that wait in the channel of a subscriber under a key
  unfoldable pub channel : String → ℕ → Subscribers E → Option (List E)
  unfolding lookup
  channel key id subs = elim (lookup key subs) [ none ↦ none | some chs ↦ channel_in id chs ]

  -- the events are broadcast, one after the other
  unfoldable pub broadcast_all : String → List E → Subscribers E → Subscribers E
  unfolding broadcast
  broadcast_all key [] subs = subs
  broadcast_all key (ev ∷ evs) subs = broadcast_all key evs (broadcast key ev subs)
