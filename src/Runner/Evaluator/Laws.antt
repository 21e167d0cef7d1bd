-- ===== src/Runner/Evaluator/Laws.antt =====
-- What a match does not depend on: the order of the expected keys, and further actual keys.
use spec_torture.Base.{◌≡◌, refl, ◌⊎◌, inl, inr, ◌↔◌, String, none, some}
use spec_torture.Base.Dict.{Dict, lookup}
use spec_torture.Value.{Value, Fields, no_fields, field, fields}
use spec_torture.Runner.Evaluator.{Formats, match}
use spec_torture.Runner.Evaluator.Decides.{maps_sound, maps_complete}
use spec_torture.Runner.Evaluator.Matches.{Matches, Covers, no_key, at_key}

-- `k: v` is one of the fields.
abbrev pub HasField : String → Value → Fields → Type 0
HasField k v no_fields = Unit → ⊥
HasField k v (field j u fs) = ((j ≡ k) × (u ≡ v)) ⊎ HasField k v fs

module _ (f : Formats) where
  -- what `Covers` says of one key
  abbrev Found : String → Value → Dict Value → Type 0
  Found k e d = (a : Value) × (lookup k d ≡ some a) × Matches f e a

  Covers-of_Found :
      (es : Fields) (d : Dict Value)
      → ((k : String) (e : Value) → HasField k e es → Found k e d)
      → Covers f es d
  Covers-of_Found no_fields d h = no_key
  Covers-of_Found (field k e es) d h =
      let (a, found, m) = h k e (inl (refl, refl)) in
      at_key found m (Covers-of_Found es d (λ j u p. h j u (inr p)))

  Found-of_Covers :
      (es : Fields) (d : Dict Value)
      → Covers f es d
      → (k : String) (e : Value) → HasField k e es
      → Found k e d
  Found-of_Covers no_fields d c k e h = absurd (h tt)
  Found-of_Covers (field j u es) d (at_key {a} found m c) k e h = elim h [
    | inl same ↦ rw (← same.0, ← same.1) (a, found, m)
    | inr later ↦ Found-of_Covers es d c k e later
  ]

-- `Match` accepts an actual object exactly when each expected key is there with a value that matches
-- in the declarative sense of `Matches`: wildcards, shown texts, near numbers, prefixes of arrays.
pub match_iff : (f : Formats) (es fs : Fields) → (match f es fs ≡ none) ↔ Covers f es (fields fs)
unfolding match
match_iff f es fs = (maps_sound f _ es (fields fs), maps_complete f _)

-- Whether `Match` accepts does not depend on the order or the repetition of the expected keys, which
-- Go's loop over the map leaves open: what another pattern has of the same keys is accepted too.
pub match_order :
    (f : Formats) (es es' fs : Fields)
    → ((k : String) (v : Value) → HasField k v es' → HasField k v es)
    → match f es fs ≡ none
    → match f es' fs ≡ none
match_order f es es' fs sub h =
    let c = (match_iff f es fs).0 h in
    (match_iff f es' fs).1 (
      Covers-of_Found f es' (fields fs)
        (λ k v p. Found-of_Covers f es (fields fs) c k v (sub k v p)))

-- Partial matching: an actual object that keeps every key and gains others is still accepted.
pub match_extended :
    (f : Formats) (es fs gs : Fields)
    → ((k : String) (a : Value) → lookup k (fields fs) ≡ some a → lookup k (fields gs) ≡ some a)
    → match f es fs ≡ none
    → match f es gs ≡ none
match_extended f es fs gs keeps h =
    let c = (match_iff f es fs).0 h in
    (match_iff f es gs).1 (
      Covers-of_Found f es (fields gs) (λ k v p.
        let (a, found, m) = Found-of_Covers f es (fields fs) c k v p in (a, keeps k a found, m)))
