-- ===== src/Runner/Transport/Expect/Parts.antt =====
-- What each part of an expectation says of a response, for internal/runner/transport.go.
use spec_torture.Base.{
  ◌≡◌, ◌≢◌, refl, String, Bool, true, false, Option, none, some, List, [], ◌∷◌, ◌⊎◌, inl, inr, ◌↔◌,
  sym, ap, arith, Any, subst,
}
use spec_torture.Base.Dict.{Dict, lookup}
use spec_torture.Value.{Value, text, obj, Fields, no_fields, field, fields, of_fields}
use spec_torture.Runner.Evaluator.{MatchError, match}
use spec_torture.Runner.Evaluator.Matches.{Covers}
use spec_torture.Runner.Evaluator.Laws.{match_iff}
use spec_torture.Runner.Host.{Host}
use spec_torture.Runner.Transport.{Response, or_empty}
use spec_torture.Runner.Transport.Expect.{
  ExpectError, unless, then_check, wrapped, to_int, header_fits, has_some_body,
}

fields-of_fields : (d : Dict Value) → fields (of_fields d) ≡ d
fields-of_fields [] = refl
fields-of_fields ((k, v) ∷ d) = ap (λ x. (k, v) ∷ x) (fields-of_fields d)

pub unless_iff : (b : Bool) (e : ExpectError) → (unless b e ≡ none) ↔ (b ≡ true)
unless_iff true e = ground arith
unless_iff false e = ground arith

wrapped_iff :
    (f : MatchError → ExpectError) (o : Option MatchError) → (wrapped f o ≡ none) ↔ (o ≡ none)
wrapped_iff f none = ground arith
wrapped_iff f (some e) = ground arith

pub both_iff : {A B C P Q : Type 0} → (A ↔ (B × C)) → (B ↔ P) → (C ↔ Q) → A ↔ (P × Q)
both_iff s p q = (λ a. let (b, c) = s.0 a in (p.0 b, q.0 c), λ (x, y). s.1 (p.1 x, q.1 y))

pub refused : (e : ExpectError) → (some e ≡ none) ↔ (Unit {0} → ⊥)
refused e = (λ x. cc, λ x. absurd (x tt))

-- a loop that stops at the first match
pub found_or :
    {P Q : Type 0} (o : Option MatchError) (rest : MatchError → Option ExpectError)
    → ((o ≡ none) ↔ P)
    → ((e : MatchError) → (rest e ≡ none) ↔ Q)
    → ((elim o [ none ↦ none | some e ↦ rest e ]) ≡ none) ↔ (P ⊎ Q)
found_or none rest p q = (λ e. inl (p.0 refl), λ e. refl)
found_or (some x) rest p q =
    (λ e. inr ((q x).0 e), λ e. elim e [ inl a ↦ cc (p.1 a) | inr b ↦ (q x).1 b ])

pub then_check_iff :
    (a b : Option ExpectError) → (then_check a b ≡ none) ↔ ((a ≡ none) × (b ≡ none))
then_check_iff none b = ground arith
then_check_iff (some e) b = ground arith

module _ (h : Host) where
  -- the pattern covers an actual map
  abbrev pub MatchesMap : Fields → Dict Value → Type 0
  MatchesMap exp actual = Covers h.formats exp actual

  pub match-MatchesMap :
      (exp : Fields) (d : Dict Value)
      → (match h.formats exp (of_fields d) ≡ none) ↔ MatchesMap exp d
  match-MatchesMap exp d =
      let e = match_iff h.formats exp (of_fields d) in
      (
        λ p. subst (MatchesMap exp) (fields-of_fields d) (e.0 p),
        λ c. e.1 (subst (MatchesMap exp) (sym (fields-of_fields d)) c),
      )

  abbrev pub StatusMeets : Response → Option Value → Type 0
  StatusMeets r none = Unit
  StatusMeets r (some v) = r.http_status ≡ to_int h v

  -- Each expected header is there, and holds the expected text whatever the case, or anything for "*".
  abbrev pub HeadersHold : Dict String → Fields → Type 0
  HeadersHold headers no_fields = Unit
  HeadersHold headers (field k v fs) =
      ((actual : String) × (lookup (h.lower k) headers ≡ some actual)
        × (header_fits h actual v ≡ true))
      × HeadersHold headers fs

  abbrev pub HeadersMeet : Response → Option Value → Type 0
  HeadersMeet r none = Unit
  HeadersMeet r (some (obj fs)) = HeadersHold r.headers fs
  HeadersMeet r (some v) = Unit → ⊥

  abbrev pub BodyMeets : Response → Option Value → Type 0
  BodyMeets r none = Unit
  BodyMeets r (some (text s)) = (s ≡ "*") × (has_some_body h r ≡ true)
  BodyMeets r (some (obj exp)) = (d : Dict Value) × (r.body ≡ some d) × MatchesMap exp d
  BodyMeets r (some v) = Unit → ⊥

  abbrev pub JsonrpcMeets : Response → Dict Value → Option Value → Type 0
  JsonrpcMeets r expect none = Unit
  JsonrpcMeets r expect (some v) =
      (d : Dict Value) × (r.jsonrpc_resp ≡ some d) × MatchesMap (of_fields expect) d

  abbrev pub EventsMeet : List (Option (Dict Value)) → Option Value → Type 0
  EventsMeet evs none = Unit
  EventsMeet evs (some (text s)) = (s ≡ "*") × (evs ≢ [])
  EventsMeet evs (some (obj exp)) = Any (λ ev. MatchesMap exp (or_empty ev)) evs
  EventsMeet evs (some v) = Unit → ⊥

  -- a map that is there, against what covers it
  pub covered :
      (exp : Fields) (d : Dict Value) (f : MatchError → ExpectError)
      → (wrapped f (match h.formats exp (of_fields d)) ≡ none)
        ↔ ((x : Dict Value) × (some d ≡ some x) × MatchesMap exp x)
  covered exp d f = (
    λ e. (d, refl, (match-MatchesMap exp d).0 ((wrapped_iff f _).0 e)),
    λ (x, e, c).
        let same : x ≡ d = ground arith in
        (wrapped_iff f _).1 ((match-MatchesMap exp d).1 (subst (MatchesMap exp) same c)),
  )
