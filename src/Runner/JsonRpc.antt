-- ===== src/Runner/JsonRpc.antt =====
-- internal/runner/jsonrpc_runner.go: the transport for JSON-RPC over HTTP. The child Stream reads
-- server-sent events.
pub mod Stream
use spec_torture.Base.{
  ℕ, ◌+◌, String, Bool, true, false, not, Option, none, some, List, [], ◌∷◌, ◌==◌, contains, eqb,
  if◌then◌else◌,
}
use spec_torture.Base.Int.{ℤ}
use spec_torture.Base.Dict.{Dict, lookup, insert, delete}
use spec_torture.Base.Text.{concat, trim_slashes}
use spec_torture.Base.Strings.{has_infix, trim_left_of}
use spec_torture.Value.{Value, text, obj, Fields, no_fields, field, fields, of_fields}
use spec_torture.Runner.Host.{Host, HttpRequest, HttpReply}
use spec_torture.Runner.Transport.{Response, interpolate_vars, last_of}
use spec_torture.Runner.Http.{
  SendError, unknown_kind, bad_body, bad_request, no_reply, unreadable, Sent, got, failed, Link,
  normalize_headers, plain_response, exchange_once, array_of, shown_or, set_headers, read_reply,
  counted, text_of,
}
use spec_torture.Runner.JsonRpc.Stream.{parse_sse}

-- `JSONRPCTransport`
pub record RpcLink : Type 0 where
  pub rpc_url : String
  pub link : Link

abbrev rpc_url_of : String → String → String
rpc_url_of base path =
    if path == "" then base else concat base (concat "/" (trim_left_of (λ c. eqb c b'/') path))

-- `NewJSONRPCTransport`
unfoldable pub new_jsonrpc : String → String → RpcLink
unfolding trim_slashes trim_left_of concat
new_jsonrpc base_url rpc_path = record {
  rpc_url = rpc_url_of (trim_slashes base_url) rpc_path;
  link = record { base_url = trim_slashes base_url; last_response = none; asked = 0; waits = 0 };
}

abbrev pub streaming_methods : List String
streaming_methods =
    "SendStreamingMessage" ∷ "SubscribeToTask" ∷ "message/stream" ∷ "tasks/resubscribe" ∷ []

-- a failed type assertion gives ""
abbrev pub text_or_empty : Option Value → String
text_or_empty (some (text s)) = s
text_or_empty _ = ""

-- the `headers` of a payload, if they are a map
abbrev pub custom_headers : Option Value → Fields
custom_headers (some (obj fs)) = fs
custom_headers _ = no_fields

abbrev pub has_jsonrpc : Option (Dict Value) → Bool
has_jsonrpc none = false
has_jsonrpc (some m) = elim (lookup "jsonrpc" m) [ none ↦ false | some v ↦ true ]

-- req.Header.Get, of a reply
abbrev pub header_get : String → List (String × List String) → String
header_get k [] = ""
header_get k ((j, []) ∷ hs) = if j == k then "" else header_get k hs
header_get k ((j, v ∷ vs) ∷ hs) = if j == k then v else header_get k hs

module _ (h : Host) where
  -- an object with the key `jsonrpc` is a JSON-RPC response, another one a body
  abbrev pub sorted_body : Option (Option (Dict Value)) → Response → Response
  sorted_body none r = r
  sorted_body (some m) r =
      if has_jsonrpc m
      then record r { jsonrpc_resp = m; body = none }
      else record r { body = m; jsonrpc_resp = none }

  unfoldable pub rpc_response : HttpReply → String → Response
  unfolding plain_response
  rpc_response reply body = sorted_body (h.parse_object body) (plain_response h reply body)

  abbrev pub read_rpc : Option HttpReply → Link → Sent × Link
  read_rpc none l = (failed no_reply, l)
  read_rpc (some reply) l = elim reply.body [
    | none ↦ (failed unreadable, l)
    | some body ↦
        let r : Response = rpc_response reply body in
        (got (some r), record l { last_response = some r })
  ]

  -- a request to the JSON-RPC endpoint
  unfoldable pub post_rpc : HttpRequest → Link → Sent × Link
  unfolding rpc_response
  post_rpc req l =
      if h.is_request req.method req.url
      then read_rpc (h.exchange l.asked req) (counted h l)
      else (failed bad_request, l)

  -- `sendHTTP`
  unfoldable pub send_http_step : Dict Value → Link → Sent × Link
  unfolding exchange_once lookup concat
  send_http_step payload l =
      let method : String = shown_or h "" (lookup "http_method" payload) in
      let url : String = concat l.base_url (shown_or h "" (lookup "path" payload)) in
      if h.is_request method url
      then exchange_once h (record { method = method; url = url; body = none; headers = [] }) l
      else (failed bad_request, l)

  -- `sendRaw`
  unfoldable pub send_raw : String → Dict Value → Link → Sent × Link
  unfolding post_rpc lookup
  send_raw url payload l =
      post_rpc
        (record {
          method = "POST";
          url = url;
          body = some (shown_or h "" (lookup "raw_body" payload));
          headers =
              ("Content-Type", shown_or h "application/json" (lookup "content_type" payload)) ∷ [];
        })
        l

  -- the loop over the custom headers: an empty text takes the header away
  unfoldable pub override_headers : Fields → Dict String → Dict String
  unfolding insert delete
  override_headers no_fields hs = hs
  override_headers (field k v fs) hs =
      let shown : String = h.formats.shown v in
      override_headers fs
        (if shown == "" then delete (h.canonical k) hs else insert (h.canonical k) shown hs)

  -- the SSE response: the last event is what a later reference reads
  unfoldable pub sse_response : HttpReply → List (Option (Dict Value)) → Response
  unfolding normalize_headers
  sse_response reply events = record {
    http_status = reply.status;
    headers = normalize_headers h reply.headers;
    body = none;
    body_array = none;
    raw_body = "";
    sse_events = events;
    jsonrpc_resp = none;
    parsed = elim (last_of events) [ none ↦ none | some m ↦ m ];
  }

  -- what came back of a streaming call
  unfoldable pub streamed : HttpReply → List String × Bool → Response
  unfolding rpc_response sse_response parse_sse has_infix
  streamed reply (lines, ended) =
      if has_infix (header_get "Content-Type" reply.headers) "text/event-stream"
      then sse_response reply (parse_sse h lines ended)
      else rpc_response reply (text_of h reply)

  abbrev pub read_stream : Option HttpReply → List String × Bool → Link → Sent × Link
  read_stream none seen l = (failed no_reply, l)
  read_stream (some reply) seen l =
      let r : Response = streamed reply seen in (got (some r), record l { last_response = some r })

  -- `sendJSONRPCStreaming`
  unfoldable pub send_jsonrpc_streaming : String → Dict Value → Fields → Link → Sent × Link
  unfolding streamed set_headers delete
  send_jsonrpc_streaming url payload custom l =
      elim (h.marshal (obj (of_fields (delete "headers" payload)))) [
        | none ↦ (failed bad_body, l)
        | some bytes ↦
            let req : HttpRequest = record {
              method = "POST";
              url = url;
              body = some bytes;
              headers =
                  set_headers h custom
                    (("Content-Type", "application/json") ∷ ("Accept", "text/event-stream") ∷ []);
            } in
            if h.is_request "POST" url
            then read_stream (h.exchange l.asked req) (h.stream l.asked) (counted h l)
            else (failed bad_request, l)
      ]

  -- `sendJSONRPC`
  unfoldable pub send_jsonrpc : String → Dict Value → Link → Sent × Link
  unfolding send_jsonrpc_streaming post_rpc override_headers lookup delete
  send_jsonrpc url payload l =
      let custom : Fields = custom_headers (lookup "headers" payload) in
      if contains streaming_methods (text_or_empty (lookup "method" payload))
      then send_jsonrpc_streaming url payload custom l
      else elim (h.marshal (obj (of_fields (delete "headers" payload)))) [
        | none ↦ (failed bad_body, l)
        | some bytes ↦
            post_rpc
              (record {
                method = "POST";
                url = url;
                body = some bytes;
                headers = override_headers custom (("Content-Type", "application/json") ∷ []);
              })
              l
      ]

  -- the kind of request, from the keys of the payload
  unfoldable pub send_kind : String → Dict Value → Link → Sent × Link
  unfolding send_http_step send_raw send_jsonrpc lookup
  send_kind url payload l = elim (lookup "http_method" payload) [
    | some v ↦ send_http_step payload l
    | none ↦ elim (lookup "raw_body" payload) [
      | some v ↦ send_raw url payload l
      | none ↦ elim (lookup "jsonrpc" payload) [
        | some v ↦ send_jsonrpc url payload l
        | none ↦ (failed unknown_kind, l)
      ]
    ]
  ]

  -- `Send`
  unfoldable pub send_rpc : Dict Value → RpcLink → Sent × RpcLink
  unfolding send_kind interpolate_vars
  send_rpc payload t =
      let (sent, l) =
        send_kind t.rpc_url (interpolate_vars h.formats.shown payload t.link.last_response)
          t.link in
      (sent, record t { link = l })
