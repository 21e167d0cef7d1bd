-- ===== src/Runner/Http.antt =====
-- internal/runner/http_runner.go: the transport for plain HTTP. An error says what failed; its text is
-- left out.
pub mod Poll
use spec_torture.Base.{
  ℕ, zero, suc, ◌+◌, String, Bool, true, false, ◌&&◌, ◌||◌, Option, none, some, List, [], ◌∷◌, ◌==◌,
  contains, if◌then◌else◌,
}
use spec_torture.Base.Int.{ℤ, pos, negsuc}
use spec_torture.Base.Dict.{Dict, lookup, insert}
use spec_torture.Base.Text.{concat, trim_slashes}
use spec_torture.Base.Strings.{join}
use spec_torture.Value.{Value, text, int, float, obj, Fields, no_fields, field, fields}
use spec_torture.Runner.Host.{Host, HttpRequest, HttpReply}
use spec_torture.Runner.Transport.{Response, interpolate_vars}

pub data SendError : Type 0 where
  unknown_kind bad_body bad_request no_reply unreadable bad_poll cancelled : SendError

-- A response may be nil without an error.
pub data Sent : Type 0 where
  got : Option Response → Sent
  failed : SendError → Sent

-- `HTTPTransport`; `asked` and `waits` count the requests that were sent and the waits.
pub record Link : Type 0 where
  pub base_url : String
  pub last_response : Option Response
  pub asked : ℕ
  pub waits : ℕ

-- what an attempt of a poll leads to
pub data Attempt : Type 0 where
  done : Sent → Link → Attempt
  again : Option Response → Link → Attempt

-- `NewHTTPTransport`
unfoldable pub new_http : String → Link
unfolding trim_slashes
new_http url = record { base_url = trim_slashes url; last_response = none; asked = 0; waits = 0 }

module _ (h : Host) where
  -- `normalizeHeaders`
  unfoldable pub normalize_headers : List (String × List String) → Dict String
  unfolding insert join
  normalize_headers [] = []
  normalize_headers ((k, vs) ∷ hs) = insert (h.lower k) (join ", " vs) (normalize_headers hs)

  abbrev pub array_of : Option (Option (Dict Value)) → String → Option (List Value)
  array_of (some m) body = none
  array_of none body = elim (h.parse_array body) [ none ↦ none | some vs ↦ vs ]

  abbrev pub object_of : Option (Option (Dict Value)) → Option (Dict Value)
  object_of none = none
  object_of (some m) = m

  -- the response, with the body as an object or else as an array
  unfoldable pub plain_response : HttpReply → String → Response
  unfolding normalize_headers
  plain_response reply body = record {
    http_status = reply.status;
    headers = normalize_headers reply.headers;
    body = object_of (h.parse_object body);
    body_array = array_of (h.parse_object body) body;
    raw_body = body;
    sse_events = [];
    jsonrpc_resp = none;
    parsed = none;
  }

  -- `fmt.Sprintf("%v", payload[key])` if the key is there
  abbrev pub shown_or : String → Option Value → String
  shown_or default none = default
  shown_or default (some v) = h.formats.shown v

  -- the loop over the headers of the payload
  unfoldable pub set_headers : Fields → Dict String → Dict String
  unfolding insert
  set_headers no_fields hs = hs
  set_headers (field k v fs) hs = set_headers fs (insert (h.canonical k) (h.formats.shown v) hs)

  abbrev pub payload_headers : Option Value → Dict String → Dict String
  payload_headers (some (obj fs)) hs = set_headers fs hs
  payload_headers _ hs = hs

  -- the body: as it stands, or marshalled; `none` is the marshalling error
  unfoldable pub request_body : Dict Value → Option (Option String)
  unfolding lookup
  request_body payload = elim (lookup "raw_body" payload) [
    | some raw ↦ some (some (h.formats.shown raw))
    | none ↦ elim (lookup "body" payload) [
      | none ↦ some none
      | some b ↦ elim (h.marshal b) [ none ↦ none | some bytes ↦ some (some bytes) ]
    ]
  ]

  abbrev pub content_type : Option String → Dict String
  content_type none = []
  content_type (some b) = ("Content-Type", "application/json") ∷ []

  -- client.Do, and io.ReadAll
  abbrev pub read_reply : Option HttpReply → Link → Sent × Link
  read_reply none l = (failed SendError.no_reply, l)
  read_reply (some reply) l = elim reply.body [
    | none ↦ (failed SendError.unreadable, l)
    | some body ↦
        let r : Response = plain_response reply body in
        (got (some r), record l { last_response = some r })
  ]

  abbrev pub counted : Link → Link
  counted l = record l { asked = l.asked + 1 }

  unfoldable pub exchange_once : HttpRequest → Link → Sent × Link
  unfolding plain_response
  exchange_once req l = read_reply (h.exchange l.asked req) (counted l)

  abbrev pub final_states : List String
  final_states = "completed" ∷ "failed" ∷ "cancelled" ∷ "ready" ∷ "stopped" ∷ "error" ∷ []

  -- the `status` of the body names a final state
  unfoldable pub is_final : Response → Bool
  unfolding lookup
  is_final r = elim r.body [
    | none ↦ false
    | some m ↦ elim (lookup "status" m) [
      | none ↦ false
      | some v ↦ contains final_states (h.formats.shown v)
    ]
  ]

  -- the `select` between attempts
  abbrev pub pause : ℤ → Option Response → Link → Attempt
  pause interval kept l =
      let l' : Link = record l { waits = l.waits + 1 } in
      if h.wait l.waits interval then again kept l' else done (failed SendError.cancelled) l'

  -- the bytes that io.ReadAll returns, whether or not there is an error
  abbrev pub text_of : HttpReply → String
  text_of reply = elim reply.body [ none ↦ reply.partial | some s ↦ s ]

  -- one attempt, which may be the last
  unfoldable pub attempt : HttpRequest → ℤ → Bool → Option Response → Link → Attempt
  unfolding is_final plain_response
  attempt req interval last kept l = elim (h.exchange l.asked req) [
    | none ↦
        if last
        then done (failed SendError.no_reply) (counted l)
        else pause interval kept (counted l)
    | some reply ↦
        let r : Response = plain_response reply (text_of reply) in
        let l' : Link = record (counted l) { last_response = some r } in
        if is_final r
        then done (got (some r)) l'
        else if last
        then again (some r) l'
        else pause interval (some r) l'
  ]

  abbrev pub is_zero : ℕ → Bool
  is_zero zero = true
  is_zero (suc n) = false

  -- the loop of `executePollingSend`, with the attempts that are left
  unfoldable pub poll : HttpRequest → ℤ → ℕ → Option Response → Link → Sent × Link
  unfolding attempt
  poll req interval zero kept l = (got kept, l)
  poll req interval (suc n) kept l = elim (attempt req interval (is_zero n) kept l) [
    | done sent l' ↦ (sent, l')
    | again kept' l' ↦ poll req interval n kept' l'
  ]

  -- time.ParseDuration of the interval, and two seconds if it fails
  unfoldable pub poll_interval : Fields → ℤ
  unfolding lookup
  poll_interval cfg = elim (h.parse_duration (shown_or "2s" (lookup "interval" (fields cfg)))) [
    | none ↦ pos 2000000000
    | some d ↦ d
  ]

  abbrev pub at_least_zero : ℤ → ℕ
  at_least_zero (pos n) = n
  at_least_zero (negsuc n) = 0

  unfoldable pub max_attempts : Fields → ℕ
  unfolding lookup
  max_attempts cfg = elim (lookup "max_attempts" (fields cfg)) [
    | none ↦ 10
    | some v ↦ elim v [ int n ↦ at_least_zero n | float b ↦ at_least_zero (h.truncate b) | _ ↦ 10 ]
  ]

  -- A poll sends its requests with the headers of the payload alone, and with no body.
  unfoldable pub execute_polling_send : String → String → Dict Value → Value → Link → Sent × Link
  unfolding poll poll_interval max_attempts set_headers lookup
  execute_polling_send method url payload (obj cfg) l =
      poll
        (record {
          method = method;
          url = url;
          body = none;
          headers = payload_headers (lookup "headers" payload) [];
        })
        (poll_interval cfg) (max_attempts cfg) none l
  execute_polling_send method url payload v l = (failed SendError.bad_poll, l)

  unfoldable pub send_payload : Dict Value → Link → Sent × Link
  unfolding request_body execute_polling_send exchange_once set_headers lookup concat
  send_payload payload l =
      let method : String = shown_or "GET" (lookup "http_method" payload) in
      let url : String = concat l.base_url (shown_or "" (lookup "path" payload)) in
      elim (request_body payload) [
        | none ↦ (failed SendError.bad_body, l)
        | some body ↦
            if h.is_request method url
            then elim (lookup "poll" payload) [
              | some cfg ↦ execute_polling_send method url payload cfg l
              | none ↦
                  exchange_once
                    (record {
                      method = method;
                      url = url;
                      body = body;
                      headers = payload_headers (lookup "headers" payload) (content_type body);
                    })
                    l
            ]
            else (failed SendError.bad_request, l)
      ]

  -- `Send`
  unfoldable pub send_http : Dict Value → Link → Sent × Link
  unfolding send_payload interpolate_vars
  send_http payload l = send_payload (interpolate_vars h.formats.shown payload l.last_response) l
