-- ===== src/Runner/Transport/Expect/Meets.antt =====
-- What an expectation says of a response, and that the code decides it.
use spec_torture.Base.{
  ◌≡◌, refl, String, true, Option, none, some, List, [], ◌∷◌, ◌↔◌, arith, Any, eq_iff,
}
use spec_torture.Base.Int.{ℤ, pos, negsuc}
use spec_torture.Base.Dict.{Dict, lookup}
use spec_torture.Value.{
  Value, null, boolean, text, int, float, number, arr, obj, Fields, no_fields, field, of_fields,
}
use spec_torture.Runner.Evaluator.{MatchError, match, same_int}
use spec_torture.Runner.Host.{Host}
use spec_torture.Runner.Transport.{Response, or_empty}
use spec_torture.Runner.Transport.Expect.Parts.{
  MatchesMap, StatusMeets, HeadersHold, HeadersMeet, BodyMeets, JsonrpcMeets, EventsMeet, covered,
  match-MatchesMap, unless_iff, both_iff, refused, found_or, then_check_iff,
}
use spec_torture.Runner.Transport.Expect.{
  ExpectError, unless, wrapped, to_int, check_status, header_fits, check_header, check_headers,
  check_header_map, check_body_map, check_body, check_jsonrpc, match_event, match_events,
  check_events, match_expect,
}

module _ (h : Host) where
  status_iff : (r : Response) (o : Option Value) → (check_status h r o ≡ none) ↔ StatusMeets h r o
  unfolding check_status
  status_iff r none = ground arith
  status_iff r (some v) = same_int_iff r.http_status (to_int h v)
    where
      same_int_iff : (a b : ℤ) → (unless (same_int a b) ExpectError.wrong_status ≡ none) ↔ (a ≡ b)
      same_int_iff (pos a) (pos b) = ground arith
      same_int_iff (pos a) (negsuc b) = ground arith
      same_int_iff (negsuc a) (pos b) = ground arith
      same_int_iff (negsuc a) (negsuc b) = ground arith

  header_iff :
      (headers : Dict String) (k : String) (v : Value)
      → (check_header h headers k v ≡ none) ↔ (
          (actual : String) × (lookup (h.lower k) headers ≡ some actual)
          × (header_fits h actual v ≡ true))
  unfolding check_header
  header_iff headers k v = go (lookup (h.lower k) headers)
    where
      go :
          (o : Option String)
          → ((elim o [
            | none ↦ some (ExpectError.missing_header k)
            | some actual ↦ unless (header_fits h actual v) (ExpectError.wrong_header k)
          ])
              ≡ none)
            ↔ ((actual : String) × (o ≡ some actual) × (header_fits h actual v ≡ true))
      go none = (λ e. cc, λ e. cc (e.1))
      go (some actual) = (
        λ e. (actual, refl, (unless_iff _ _).0 e),
        λ (x, e, fits).
            (unless_iff _ _).1 (let same : x ≡ actual = ground arith in rw (← same) fits),
      )

  headers_iff :
      (headers : Dict String) (fs : Fields)
      → (check_headers h headers fs ≡ none) ↔ HeadersHold h headers fs
  unfolding check_headers
  headers_iff headers no_fields = ground arith
  headers_iff headers (field k v fs) =
      both_iff (then_check_iff (check_header h headers k v) (check_headers h headers fs))
        (header_iff headers k v) (headers_iff headers fs)

  header_map_iff :
      (r : Response) (o : Option Value) → (check_header_map h r o ≡ none) ↔ HeadersMeet h r o
  unfolding check_header_map
  header_map_iff r none = ground arith
  header_map_iff r (some (obj fs)) = headers_iff r.headers fs
  header_map_iff r (some null) = refused _
  header_map_iff r (some (boolean b)) = refused _
  header_map_iff r (some (text s)) = refused _
  header_map_iff r (some (int n)) = refused _
  header_map_iff r (some (float b)) = refused _
  header_map_iff r (some (number s)) = refused _
  header_map_iff r (some (arr vs)) = refused _

  body_map_iff :
      (exp : Fields) (o : Option (Dict Value))
      → (check_body_map h exp o ≡ none) ↔ ((d : Dict Value) × (o ≡ some d) × MatchesMap h exp d)
  unfolding check_body_map
  body_map_iff exp none = (λ e. cc, λ e. cc (e.1))
  body_map_iff exp (some d) = covered h exp d ExpectError.body_mismatch

  body_iff : (r : Response) (o : Option Value) → (check_body h r o ≡ none) ↔ BodyMeets h r o
  unfolding check_body
  body_iff r none = ground arith
  body_iff r (some (text s)) = ground (arith, eq_iff s "*")
  body_iff r (some (obj exp)) = body_map_iff exp r.body
  body_iff r (some null) = refused _
  body_iff r (some (boolean b)) = refused _
  body_iff r (some (int n)) = refused _
  body_iff r (some (float b)) = refused _
  body_iff r (some (number s)) = refused _
  body_iff r (some (arr vs)) = refused _

  jsonrpc_iff :
      (r : Response) (expect : Dict Value) (o : Option Value)
      → (check_jsonrpc h r expect o ≡ none) ↔ JsonrpcMeets h r expect o
  unfolding check_jsonrpc
  jsonrpc_iff r expect none = ground arith
  jsonrpc_iff r expect (some v) = go r.jsonrpc_resp
    where
      go :
          (o : Option (Dict Value))
          → ((elim o [
            | none ↦ some ExpectError.no_jsonrpc
            | some actual ↦
                wrapped ExpectError.jsonrpc_mismatch
                  (match h.formats (of_fields expect) (of_fields actual))
          ])
              ≡ none)
            ↔ ((d : Dict Value) × (o ≡ some d) × MatchesMap h (of_fields expect) d)
      go none = (λ e. cc, λ e. cc (e.1))
      go (some d) = covered h (of_fields expect) d ExpectError.jsonrpc_mismatch

  event_iff :
      (exp : Fields) (last : MatchError) (evs : List (Option (Dict Value)))
      → (match_event h exp last evs ≡ none) ↔ Any (λ ev. MatchesMap h exp (or_empty ev)) evs
  unfolding match_event
  event_iff exp last [] = (λ e. cc, λ e. absurd (e tt))
  event_iff exp last (ev ∷ evs) =
      found_or _ (λ e. match_event h exp e evs) (match-MatchesMap h exp (or_empty ev))
        (λ e. event_iff exp e evs)

  events_iff :
      (exp : Fields) (evs : List (Option (Dict Value)))
      → (match_events h exp evs ≡ none) ↔ Any (λ ev. MatchesMap h exp (or_empty ev)) evs
  unfolding match_events
  events_iff exp [] = (λ e. cc, λ e. absurd (e tt))
  events_iff exp (ev ∷ evs) =
      found_or _ (λ e. match_event h exp e evs) (match-MatchesMap h exp (or_empty ev))
        (λ e. event_iff exp e evs)

  check_events_iff :
      (evs : List (Option (Dict Value))) (o : Option Value)
      → (check_events h evs o ≡ none) ↔ EventsMeet h evs o
  unfolding check_events
  check_events_iff evs none = ground arith
  check_events_iff [] (some (text s)) = (λ e. cc, λ e. absurd (e.1 refl))
  check_events_iff [] (some (obj exp)) = (λ e. cc, λ e. absurd (e tt))
  check_events_iff [] (some null) = refused _
  check_events_iff [] (some (boolean b)) = refused _
  check_events_iff [] (some (int n)) = refused _
  check_events_iff [] (some (float b)) = refused _
  check_events_iff [] (some (number s)) = refused _
  check_events_iff [] (some (arr vs)) = refused _
  check_events_iff (ev ∷ evs) (some (text s)) = ground (arith, eq_iff s "*")
  check_events_iff (ev ∷ evs) (some (obj exp)) = events_iff exp (ev ∷ evs)
  check_events_iff (ev ∷ evs) (some null) = refused _
  check_events_iff (ev ∷ evs) (some (boolean b)) = refused _
  check_events_iff (ev ∷ evs) (some (int n)) = refused _
  check_events_iff (ev ∷ evs) (some (float b)) = refused _
  check_events_iff (ev ∷ evs) (some (number s)) = refused _
  check_events_iff (ev ∷ evs) (some (arr vs)) = refused _

  -- A response meets each part of an expectation.
  pub record Meets (r : Response) (expect : Dict Value) : Type 0 where
    pub status : StatusMeets h r (lookup "http_status" expect)
    pub headers : HeadersMeet h r (lookup "headers" expect)
    pub body : BodyMeets h r (lookup "body" expect)
    pub jsonrpc : JsonrpcMeets h r expect (lookup "jsonrpc" expect)
    pub events : EventsMeet h r.sse_events (lookup "sse_event" expect)

  -- `matchExpect` accepts a response exactly when it meets each part of the expectation that is
  -- there: the status is equal, each header is there and holds its text, the body and the JSON-RPC
  -- response are there and cover the pattern, some event covers the event pattern; a "*" for the
  -- body or the events asks only that there is one, and a part of another shape is never met.
  pub match_expect_iff :
      (r : Response) (expect : Dict Value) → (match_expect h r expect ≡ none) ↔ Meets r expect
  unfolding match_expect
  match_expect_iff r expect = (
    λ e.
        let (a, e1) = (then_check_iff _ _).0 e in
        let (b, e2) = (then_check_iff _ _).0 e1 in
        let (c, e3) = (then_check_iff _ _).0 e2 in
        let (d, f) = (then_check_iff _ _).0 e3 in
        record {
          status = (status_iff r _).0 a;
          headers = (header_map_iff r _).0 b;
          body = (body_iff r _).0 c;
          jsonrpc = (jsonrpc_iff r expect _).0 d;
          events = (check_events_iff _ _).0 f;
        },
    λ m. (then_check_iff _ _).1 (
      (status_iff r _).1 m.status,
      (then_check_iff _ _).1 (
        (header_map_iff r _).1 m.headers,
        (then_check_iff _ _).1 (
          (body_iff r _).1 m.body,
          (then_check_iff _ _).1
              ((jsonrpc_iff r expect _).1 m.jsonrpc, (check_events_iff _ _).1 m.events),
        ),
      ),
    ),
  )
