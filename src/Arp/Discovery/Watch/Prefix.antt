-- ===== src/Arp/Discovery/Watch/Prefix.antt =====
-- What a watcher is sent of the events that its channel brings.
use spec_torture.Base.{
  ℕ, zero, suc, ◌≤◌, ◌≡◌, refl, Bool, true, false, List, [], ◌∷◌, ◌++◌, ◌⊎◌, inl, inr, arith,
  length, Bool-cases, ap,
}
use spec_torture.Arp.Discovery.Watch.{forward}

module _ {E : Type 0} (last : E → Bool) where
  -- No event but the last one marks the end.
  abbrev pub EndsAtLast : List E → Type 0
  EndsAtLast [] = Unit
  EndsAtLast (ev ∷ evs) = ((last ev ≡ false) ⊎ (evs ≡ [])) × EndsAtLast evs

  abbrev pub EndsWithLast : List E → Type 0
  EndsWithLast sent = (before : List E) × ((ev : E) × (sent ≡ before ++ ev ∷ []) × (last ev ≡ true))

  -- What is sent, `rest` being what is not.
  pub record Sends (room : ℕ) (evs sent rest : List E) : Type 0 where
    pub prefix : sent ++ rest ≡ evs
    pub within : length sent ≤ room
    pub ends : EndsAtLast sent
    -- something is held back only for want of room, or after the end
    pub complete : (rest ≡ []) ⊎ ((length sent ≡ room) ⊎ EndsWithLast sent)

  Sends-next :
      (room : ℕ) (ev : E) (evs sent rest : List E)
      → last ev ≡ false
      → Sends room evs sent rest
      → Sends (suc room) (ev ∷ evs) (ev ∷ sent) rest
  Sends-next room ev evs sent rest on h = record {
    prefix = ap (λ xs. ev ∷ xs) h.prefix;
    within = omega (arith, h.within);
    ends = (inl on, h.ends);
    complete = elim h.complete [
      | inl all_sent ↦ inl all_sent
      | inr (inl full) ↦ inr (inl (omega (arith, full)))
      | inr (inr (before, (x, e, over))) ↦ inr (inr (ev ∷ before, (x, ap (λ xs. ev ∷ xs) e, over)))
    ];
  }

  -- A stream sends a prefix of the events that its channel brings, no more than it has room for; it
  -- sends nothing after an event that marks the end; and it holds an event back only when the room
  -- is used up or the end has been sent.
  pub forward-Sends :
      (room : ℕ) (evs : List E) → (rest : List E) × Sends room evs (forward last room evs) rest
  unfolding forward
  forward-Sends room [] =
      ([], record { prefix = refl; within = omega arith; ends = tt; complete = inl refl })
  forward-Sends zero (ev ∷ evs) = (
    ev ∷ evs,
    record { prefix = refl; within = omega arith; ends = tt; complete = inr (inl refl) },
  )
  forward-Sends (suc room) (ev ∷ evs) = elim (Bool-cases (last ev)) [
    | inl over ↦ (
      evs,
      rw over (record {
        prefix = refl;
        within = omega arith;
        ends = (inr refl, tt);
        complete = inr (inr ([], (ev, refl, over)));
      }),
    )
    | inr on ↦
        let (rest, h) = forward-Sends room evs in
        (rest, rw on (Sends-next room ev evs (forward last room evs) rest on h))
  ]
