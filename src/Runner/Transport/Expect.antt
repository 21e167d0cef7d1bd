-- ===== src/Runner/Transport/Expect.antt =====
-- internal/runner/transport.go: `matchExpect`. An error says which check failed; the errors of the
-- evaluator are kept, the texts are left out.
pub mod Parts
pub mod Meets
use spec_torture.Base.{
  ℕ, String, Bool, true, false, not, ◌&&◌, ◌||◌, Option, none, some, List, [], ◌∷◌, ◌==◌,
  if◌then◌else◌,
}
use spec_torture.Base.Int.{ℤ, pos, negsuc}
use spec_torture.Base.Dict.{Dict, lookup}
use spec_torture.Base.Strings.{has_infix}
use spec_torture.Value.{Value, text, int, float, number, obj, Fields, no_fields, field, of_fields}
use spec_torture.Runner.Evaluator.{MatchError, match, same_int}
use spec_torture.Runner.Host.{Host}
use spec_torture.Runner.Transport.{Response, or_empty}

pub data ExpectError : Type 0 where
  wrong_status headers_not_a_map no_body body_not_a_map no_jsonrpc no_events event_not_a_map :
      ExpectError
  missing_header wrong_header : String → ExpectError
  body_mismatch jsonrpc_mismatch no_event_matched : MatchError → ExpectError

abbrev pub is_none {ℓ} : {A : Type ℓ} → Option A → Bool
is_none none = true
is_none (some x) = false

-- a test that fails with an error
abbrev pub unless : Bool → ExpectError → Option ExpectError
unless true e = none
unless false e = some e

-- `if err := …; err != nil { return err }` before the rest
abbrev pub then_check : Option ExpectError → Option ExpectError → Option ExpectError
then_check none later = later
then_check (some e) later = some e

abbrev pub wrapped : (MatchError → ExpectError) → Option MatchError → Option ExpectError
wrapped f none = none
wrapped f (some e) = some (f e)

module _ (h : Host) where
  unfoldable pub to_int : Value → ℤ
  to_int (int n) = n
  to_int (float b) = h.truncate b
  to_int (number s) = h.int64_of s
  to_int v = pos 0

  unfoldable pub check_status : Response → Option Value → Option ExpectError
  unfolding to_int
  check_status r none = none
  check_status r (some v) = unless (same_int r.http_status (to_int v)) ExpectError.wrong_status

  -- `expStr != "*" && !strings.Contains(…)`, of a header that is there
  abbrev pub header_fits : String → Value → Bool
  header_fits actual v =
      h.formats.shown v == "*" || has_infix (h.lower actual) (h.lower (h.formats.shown v))

  unfoldable pub check_header : Dict String → String → Value → Option ExpectError
  unfolding has_infix
  check_header headers k v = elim (lookup (h.lower k) headers) [
    | none ↦ some (ExpectError.missing_header k)
    | some actual ↦ unless (header_fits actual v) (ExpectError.wrong_header k)
  ]

  -- the loop over the expected headers
  unfoldable pub check_headers : Dict String → Fields → Option ExpectError
  unfolding check_header
  check_headers headers no_fields = none
  check_headers headers (field k v fs) =
      then_check (check_header headers k v) (check_headers headers fs)

  unfoldable pub check_header_map : Response → Option Value → Option ExpectError
  unfolding check_headers
  check_header_map r none = none
  check_header_map r (some (obj fs)) = check_headers r.headers fs
  check_header_map r (some v) = some ExpectError.headers_not_a_map

  -- the response has something of a body
  abbrev pub has_some_body : Response → Bool
  has_some_body r = not (is_none r.body && (is_none r.body_array && r.raw_body == ""))

  unfoldable pub check_body_map : Fields → Option (Dict Value) → Option ExpectError
  check_body_map exp none = some ExpectError.no_body
  check_body_map exp (some actual) =
      wrapped ExpectError.body_mismatch (match h.formats exp (of_fields actual))

  unfoldable pub check_body : Response → Option Value → Option ExpectError
  unfolding check_body_map
  check_body r none = none
  check_body r (some (text s)) =
      if s == "*"
      then unless (has_some_body r) ExpectError.no_body
      else some ExpectError.body_not_a_map
  check_body r (some (obj exp)) = check_body_map exp r.body
  check_body r (some v) = some ExpectError.body_not_a_map

  -- The whole expectation is matched against the JSON-RPC response.
  unfoldable pub check_jsonrpc : Response → Dict Value → Option Value → Option ExpectError
  check_jsonrpc r expect none = none
  check_jsonrpc r expect (some v) = elim r.jsonrpc_resp [
    | none ↦ some ExpectError.no_jsonrpc
    | some actual ↦
        wrapped ExpectError.jsonrpc_mismatch (match h.formats (of_fields expect) (of_fields actual))
  ]

  -- the loop over the events, with the last error
  unfoldable pub match_event : Fields → MatchError → List (Option (Dict Value)) → Option ExpectError
  match_event exp last [] = some (ExpectError.no_event_matched last)
  match_event exp last (ev ∷ evs) = elim (match h.formats exp (of_fields (or_empty ev))) [
    | none ↦ none
    | some e ↦ match_event exp e evs
  ]

  unfoldable pub match_events : Fields → List (Option (Dict Value)) → Option ExpectError
  unfolding match_event
  match_events exp [] = some ExpectError.no_events
  match_events exp (ev ∷ evs) = elim (match h.formats exp (of_fields (or_empty ev))) [
    | none ↦ none
    | some e ↦ match_event exp e evs
  ]

  -- what is asked of the events, of which there is at least one
  unfoldable pub check_event : List (Option (Dict Value)) → Value → Option ExpectError
  unfolding match_events
  check_event evs (text s) = if s == "*" then none else some ExpectError.event_not_a_map
  check_event evs (obj exp) = match_events exp evs
  check_event evs v = some ExpectError.event_not_a_map

  unfoldable pub check_events : List (Option (Dict Value)) → Option Value → Option ExpectError
  unfolding check_event
  check_events evs none = none
  check_events [] (some v) = some ExpectError.no_events
  check_events (ev ∷ evs) (some v) = check_event (ev ∷ evs) v

  -- `matchExpect` of a response that is not nil; `none` is success
  unfoldable pub match_expect : Response → Dict Value → Option ExpectError
  unfolding check_status check_header_map check_body check_jsonrpc check_events
  match_expect r expect = then_check (check_status r (lookup "http_status" expect)) (
      then_check (check_header_map r (lookup "headers" expect)) (
        then_check (check_body r (lookup "body" expect)) (
          then_check (check_jsonrpc r expect (lookup "jsonrpc" expect))
            (check_events r.sse_events (lookup "sse_event" expect)))))
