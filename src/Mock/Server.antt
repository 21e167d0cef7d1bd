-- ===== src/Mock/Server.antt =====
-- internal/mockserver/server.go: the JSON-RPC side of the mock server, and its record of requests. The
-- times and headers of a recorded request are left out.
pub mod Proxy
pub mod Replies
pub mod Answers
use spec_torture.Base.{
  ℕ, String, Bool, true, false, not, ◌&&◌, Option, none, some, List, [], ◌∷◌, ◌++◌, ◌==◌, filter,
  if◌then◌else◌,
}
use spec_torture.Base.Int.{ℤ, pos, negsuc}
use spec_torture.Base.Dict.{Dict, lookup, insert}
use spec_torture.Base.Strings.{has_infix}
use spec_torture.Value.{Value, null, text, int, arr, obj, Fields, fields, of_items, of_fields}

-- `Request`
pub record Recorded : Type 0 where
  pub method : String
  pub id : Value
  pub params : Option (Dict Value)
  pub raw_body : String
  pub path : String
  pub http_method : String

-- `JSONRPCError`; a code is negative, -(n + 1)
pub record RpcError : Type 0 where
  pub code : ℤ
  pub message : String
  pub details : Option Value

-- what a custom handler returns
pub data HandlerResult : Type 0 where
  result : Value → HandlerResult
  rpc_error : RpcError → HandlerResult

-- `Server`, as far as the handlers below use it
pub record MockServer : Type 0 where
  pub requests : List Recorded
  pub handlers : Dict (Recorded → HandlerResult)
  pub stream_handlers : Dict (Recorded → List String)

-- A call over HTTP; the body is `none` where reading it fails.
pub record HttpCall : Type 0 where
  pub method : String
  pub path : String
  pub accept : String
  pub body : Option String

-- the struct into which a body is decoded
pub record RpcRequest : Type 0 where
  pub jsonrpc : String
  pub id : Value
  pub method : String
  pub params : Option (Dict Value)

-- What goes back: an HTTP error, a JSON document, or events.
pub data Answer : Type 0 where
  http_error : ℕ → String → Answer
  json : Value → Answer
  events : List String → Answer

abbrev pub object_of : Dict Value → Value
object_of m = obj (of_fields m)

-- `Requests`
abbrev pub requests_of : MockServer → List Recorded
requests_of s = s.requests

-- `RequestsByMethod`
unfoldable pub requests_by_method : String → MockServer → List Recorded
requests_by_method method s = filter (λ r. r.method == method) s.requests

-- `Reset`
unfoldable pub reset : MockServer → MockServer
reset s = record s { requests = [] }

-- `record`
unfoldable pub record_request : Recorded → MockServer → MockServer
record_request r s = record s { requests = s.requests ++ (r ∷ []) }

-- `SetHandler`
unfoldable pub set_handler : String → (Recorded → HandlerResult) → MockServer → MockServer
unfolding insert
set_handler method h s = record s { handlers = insert method h s.handlers }

-- `SetStreamHandler`
unfoldable pub set_stream_handler : String → (Recorded → List String) → MockServer → MockServer
unfolding insert
set_stream_handler method h s = record s { stream_handlers = insert method h s.stream_handlers }

-- `writeJSONRPCResult`
unfoldable pub write_result : Value → Value → Answer
write_result id v = json (object_of (("jsonrpc", text "2.0") ∷ ("id", id) ∷ ("result", v) ∷ []))

abbrev error_object : RpcError → Dict Value
error_object e = elim e.details [
  | none ↦ ("code", int e.code) ∷ ("message", text e.message) ∷ []
  | some d ↦ ("code", int e.code) ∷ ("message", text e.message) ∷ ("data", d) ∷ []
]

-- `writeJSONRPCError`
unfoldable pub write_error : Value → RpcError → Answer
write_error id e =
    json (
      object_of (("jsonrpc", text "2.0") ∷ ("id", id) ∷ ("error", object_of (error_object e)) ∷ []))

abbrev pub error_of : ℤ → String → RpcError
error_of code message = record { code = code; message = message; details = none }

-- -32700, -32600, -32601, -32602 and -32001
abbrev pub parse_error : RpcError
parse_error = error_of (negsuc 32699) "parse error"

abbrev pub invalid_request : RpcError
invalid_request = error_of (negsuc 32599) "invalid request"

abbrev pub method_not_found : RpcError
method_not_found = error_of (negsuc 32600) "method not found"

abbrev pub invalid_params : RpcError
invalid_params = error_of (negsuc 32601) "invalid params"

abbrev pub missing_message_id : RpcError
missing_message_id = record {
  code = negsuc 32601;
  message = "invalid params";
  details = some (object_of (("error", text "message ID is required") ∷ []));
}

abbrev pub task_not_found : RpcError
task_not_found = error_of (negsuc 32000) "task not found"

abbrev pub or_empty : Option (Dict Value) → Dict Value
or_empty none = []
or_empty (some m) = m

-- failed type assertions give "" and the nil map
abbrev pub text_or_empty : Option Value → String
text_or_empty (some (text s)) = s
text_or_empty _ = ""

abbrev pub map_or_empty : Option Value → Dict Value
map_or_empty (some (obj fs)) = fields fs
map_or_empty _ = []

abbrev state_of : String → Value
state_of state = object_of (("state", text state) ∷ [])

abbrev agent_message : String → String → Value
agent_message id s = object_of (
    ("messageId", text id)
    ∷ ("role", text "agent")
    ∷ ("parts", arr (of_items (object_of (("text", text s) ∷ []) ∷ [])))
    ∷ [])

abbrev completed_with : String → String → Value
completed_with id s = object_of (("state", text "completed") ∷ ("message", agent_message id s) ∷ [])

abbrev task_object : String → String → Value → Value
task_object id ctx_id status =
    object_of (("id", text id) ∷ ("contextId", text ctx_id) ∷ ("status", status) ∷ [])

abbrev context_of : String → String
context_of id = if id == "" then "ctx-mock-001" else id

-- `handleSendMessage`
unfoldable pub handle_send_message : Value → Dict Value → Answer
unfolding write_result write_error lookup
handle_send_message id params =
    let msg : Dict Value = map_or_empty (lookup "message" params) in
    if text_or_empty (lookup "messageId" msg) == ""
    then write_error id missing_message_id
    else write_result id (
        object_of (
          (
            "task",
            task_object "task-mock-001" (context_of (text_or_empty (lookup "contextId" msg)))
                (completed_with "resp-mock-001" "Hello from mock agent"),
          )
          ∷ []))

-- `handleGetTask`
unfoldable pub handle_rpc_get_task : Value → Dict Value → Answer
unfolding write_result write_error lookup
handle_rpc_get_task id params =
    let task_id : String = text_or_empty (lookup "id" params) in
    if task_id == ""
    then write_error id invalid_params
    else if task_id == "task-mock-001"
    then write_result id (task_object "task-mock-001" "ctx-mock-001" (state_of "completed"))
    else write_error id task_not_found

-- `handleCancelTask`
unfoldable pub handle_cancel_task : Value → Dict Value → Answer
unfolding write_result write_error lookup
handle_cancel_task id params =
    let task_id : String = text_or_empty (lookup "id" params) in
    if task_id == ""
    then write_error id invalid_params
    else write_result id (task_object task_id "ctx-mock-001" (state_of "canceled"))

abbrev pub event_of : Value → String → Value → Value
event_of id kind v =
    object_of (("jsonrpc", text "2.0") ∷ ("id", id) ∷ ("result", object_of ((kind, v) ∷ [])) ∷ [])

-- the two events of `handleSendStreamingMessage`
abbrev pub stream_values : Value → List Value
stream_values id =
    event_of id "statusUpdate" (
      object_of (
        ("taskId", text "task-stream-001")
        ∷ ("contextId", text "ctx-mock-001")
        ∷ ("status", state_of "working")
        ∷ []))
    ∷ event_of id "task" (
        task_object "task-stream-001" "ctx-mock-001"
          (completed_with "resp-stream-001" "Streamed response from mock agent"))
    ∷ []

-- `decode` is json.Unmarshal into the struct of a request, `marshal` is json.Marshal.
module _ (decode : String → Option RpcRequest) (marshal : Value → String) where
  abbrev pub marshal_all : List Value → List String
  marshal_all [] = []
  marshal_all (v ∷ vs) = marshal v ∷ marshal_all vs

  -- `handleSendStreamingMessage`, whose writer can always flush
  unfoldable pub handle_send_streaming_message : Value → Answer
  handle_send_streaming_message id = events (marshal_all (stream_values id))

  -- the default handlers
  unfoldable pub handle_default : RpcRequest → Answer
  unfolding handle_send_message handle_rpc_get_task handle_cancel_task handle_send_streaming_message
      write_error
  handle_default q =
      if q.method == "SendMessage"
      then handle_send_message q.id (or_empty q.params)
      else if q.method == "GetTask"
      then handle_rpc_get_task q.id (or_empty q.params)
      else if q.method == "CancelTask"
      then handle_cancel_task q.id (or_empty q.params)
      else if q.method == "SendStreamingMessage"
      then handle_send_streaming_message q.id
      else write_error q.id method_not_found

  abbrev pub handled : Value → HandlerResult → Answer
  handled id (result v) = write_result id v
  handled id (rpc_error e) = write_error id e

  -- a custom handler, or else the default one
  unfoldable pub handle_custom : MockServer → Recorded → RpcRequest → Answer
  unfolding handle_default write_result write_error lookup
  handle_custom s r q = elim (lookup q.method s.handlers) [
    | none ↦ handle_default q
    | some h ↦ handled q.id (h r)
  ]

  -- the handlers of a recorded request, a stream first
  unfoldable pub dispatch : MockServer → Recorded → RpcRequest → String → Answer
  unfolding handle_custom lookup has_infix
  dispatch s r q accept = elim (lookup q.method s.stream_handlers) [
    | none ↦ handle_custom s r q
    | some h ↦ if has_infix accept "text/event-stream" then events (h r) else handle_custom s r q
  ]

  abbrev pub recorded : HttpCall → String → RpcRequest → Recorded
  recorded c body q = record {
    method = q.method;
    id = q.id;
    params = q.params;
    raw_body = body;
    path = c.path;
    http_method = c.method;
  }

  abbrev pub serve_decoded :
      MockServer → HttpCall → String → Option RpcRequest → Answer × MockServer
  serve_decoded s c body none = (write_error null parse_error, s)
  serve_decoded s c body (some q) =
      if q.jsonrpc == "2.0"
      then (dispatch s (recorded c body q) q c.accept, record_request (recorded c body q) s)
      else (write_error q.id invalid_request, s)

  abbrev pub serve_body : MockServer → HttpCall → Option String → Answer × MockServer
  serve_body s c none = (write_error null parse_error, s)
  serve_body s c (some body) = serve_decoded s c body (decode body)

  -- `handleRPC`
  unfoldable pub handle_rpc : MockServer → HttpCall → Answer × MockServer
  unfolding dispatch record_request write_error
  handle_rpc s c =
      if c.method == "POST" then serve_body s c c.body else (http_error 405 "method not allowed", s)
