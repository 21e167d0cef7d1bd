-- ===== src/Mock/Server/Replies.antt =====
-- The answers of the JSON-RPC side of internal/mockserver/server.go: what they are, and the default ones.
use spec_torture.Base.{◌≡◌, ◌≢◌, refl, String, false, Option, none, some, List, ◌==◌, arith, eq_iff}
use spec_torture.Base.Int.{ℤ, negsuc}
use spec_torture.Base.Dict.{lookup}
use spec_torture.Value.{Value, null, text, int, obj, field, no_fields, fields}
use spec_torture.Mock.Server.{
  HandlerResult, result, rpc_error, text_or_empty, map_or_empty, or_empty, RpcRequest, Answer, json,
  events, write_result, write_error, handle_send_message, handle_rpc_get_task, handle_cancel_task,
  handle_default, handle_send_streaming_message, stream_values, marshal_all,
}

-- a JSON-RPC 2.0 response with an id and this result, and no error
unfoldable pub IsResultOf : Value → Value → Answer → Type 0
IsResultOf id v (json (obj fs)) =
    (lookup "jsonrpc" (fields fs) ≡ some (text "2.0"))
    × (lookup "id" (fields fs) ≡ some id)
    × (lookup "result" (fields fs) ≡ some v)
    × (lookup "error" (fields fs) ≡ none)
IsResultOf id v _ = Unit → ⊥

-- a task with an id and a state
abbrev pub IsTask : String → String → Value → Type 0
IsTask id state v =
    (lookup "id" (map_or_empty (some v)) ≡ some (text id))
    × (lookup "state" (map_or_empty (lookup "status" (map_or_empty (some v)))) ≡ some (text state))

-- the result is such a task, or an object that holds one
abbrev pub AnswersTask : Value → String → String → Answer → Type 0
AnswersTask id task_id state a = (v : Value) × IsResultOf id v a × IsTask task_id state v

abbrev pub AnswersSent : Value → String → String → Answer → Type 0
AnswersSent id task_id state a =
    (v : Value) × IsResultOf id v a
    × ((t : Value) × (lookup "task" (map_or_empty (some v)) ≡ some t) × IsTask task_id state t)

-- a JSON-RPC 2.0 response with an id and an error of this code, message and data, and no result
unfoldable pub IsErrorOf : Value → ℤ → String → Option Value → Answer → Type 0
IsErrorOf id code message details (json (obj fs)) =
    (lookup "jsonrpc" (fields fs) ≡ some (text "2.0"))
    × (lookup "id" (fields fs) ≡ some id)
    × (lookup "result" (fields fs) ≡ none)
    × ((e : Value) × (lookup "error" (fields fs) ≡ some e)
        × (lookup "code" (map_or_empty (some e)) ≡ some (int code))
        × (lookup "message" (map_or_empty (some e)) ≡ some (text message))
        × (lookup "data" (map_or_empty (some e)) ≡ details))
IsErrorOf id code message details _ = Unit → ⊥

pub result-IsResultOf : (id v : Value) → IsResultOf id v (write_result id v)
unfolding write_result lookup IsResultOf
result-IsResultOf id v = (refl, refl, refl, refl)

pub error-IsErrorOf :
    (id : Value) (code : ℤ) (message : String) (details : Option Value)
    → IsErrorOf id code message details
        (write_error id (record { code = code; message = message; details = details }))
unfolding write_error lookup IsErrorOf
error-IsErrorOf id code message none = (refl, refl, refl, (_, refl, refl, refl, refl))
error-IsErrorOf id code message (some d) = (refl, refl, refl, (_, refl, refl, refl, refl))

-- what a custom handler returned is passed on
abbrev pub IsHandled : Value → HandlerResult → Answer → Type 0
IsHandled id (result v) a = IsResultOf id v a
IsHandled id (rpc_error e) a = IsErrorOf id e.code e.message e.details a

-- -32700, -32600, -32601, -32602 and -32001
abbrev pub IsParseError : Answer → Type 0
IsParseError a = IsErrorOf null (negsuc 32699) "parse error" none a

abbrev pub IsInvalidRequest : Value → Answer → Type 0
IsInvalidRequest id a = IsErrorOf id (negsuc 32599) "invalid request" none a

abbrev pub IsMethodNotFound : Value → Answer → Type 0
IsMethodNotFound id a = IsErrorOf id (negsuc 32600) "method not found" none a

abbrev pub IsInvalidParams : Value → Answer → Type 0
IsInvalidParams id a = IsErrorOf id (negsuc 32601) "invalid params" none a

abbrev pub LacksMessageId : Value → Answer → Type 0
LacksMessageId id a =
    IsErrorOf id (negsuc 32601) "invalid params"
      (some (obj (field "error" (text "message ID is required") no_fields))) a

abbrev pub IsTaskNotFound : Value → Answer → Type 0
IsTaskNotFound id a = IsErrorOf id (negsuc 32000) "task not found" none a

-- the id of the message and the id of the task that a request names, "" if it names none
abbrev pub message_id_in : RpcRequest → String
message_id_in q =
    text_or_empty (lookup "messageId" (map_or_empty (lookup "message" (or_empty q.params))))

abbrev pub task_id_in : RpcRequest → String
task_id_in q = text_or_empty (lookup "id" (or_empty q.params))

-- What the default handlers answer, method by method; `printed` is how an event is printed.
pub record IsDefault (printed : List Value → List String) (q : RpcRequest) (a : Answer)
    : Type 0 where
  pub send_without : q.method ≡ "SendMessage" → message_id_in q ≡ "" → LacksMessageId q.id a
  pub send :
      q.method ≡ "SendMessage"
      → message_id_in q ≢ ""
      → AnswersSent q.id "task-mock-001" "completed" a
  pub get_without : q.method ≡ "GetTask" → task_id_in q ≡ "" → IsInvalidParams q.id a
  pub get :
      q.method ≡ "GetTask"
      → task_id_in q ≡ "task-mock-001"
      → AnswersTask q.id "task-mock-001" "completed" a
  pub get_unknown :
      q.method ≡ "GetTask"
      → task_id_in q ≢ ""
      → task_id_in q ≢ "task-mock-001"
      → IsTaskNotFound q.id a
  pub cancel_without : q.method ≡ "CancelTask" → task_id_in q ≡ "" → IsInvalidParams q.id a
  pub cancel :
      q.method ≡ "CancelTask" → task_id_in q ≢ "" → AnswersTask q.id (task_id_in q) "canceled" a
  pub stream : q.method ≡ "SendStreamingMessage" → a ≡ events (printed (stream_values q.id))
  pub unknown :
      q.method ≢ "SendMessage"
      → q.method ≢ "GetTask"
      → q.method ≢ "CancelTask"
      → q.method ≢ "SendStreamingMessage"
      → IsMethodNotFound q.id a

differs : (a b : String) → a ≢ b → (a == b) ≡ false
differs a b h = ground (arith, eq_iff a b)

module _ (decode : String → Option RpcRequest) (marshal : Value → String) where
  pub handle_default-IsDefault :
      (q : RpcRequest) → IsDefault (marshal_all decode marshal) q (handle_default decode marshal q)
  unfolding lookup handle_default handle_send_message handle_rpc_get_task handle_cancel_task
      handle_send_streaming_message
  handle_default-IsDefault q = record {
    send_without = λ m e. rw (m, e) (error-IsErrorOf q.id _ _ _);
    send = λ m e. rw (m, differs _ _ e) (_, result-IsResultOf q.id _, (_, refl, (refl, refl)));
    get_without = λ m e. rw (m, e) (error-IsErrorOf q.id _ _ _);
    get = λ m e. rw (m, e) (_, result-IsResultOf q.id _, (refl, refl));
    get_unknown = λ m e f. rw (m, differs _ _ e, differs _ _ f) (error-IsErrorOf q.id _ _ _);
    cancel_without = λ m e. rw (m, e) (error-IsErrorOf q.id _ _ _);
    cancel = λ m e. rw (m, differs _ _ e) (_, result-IsResultOf q.id _, (refl, refl));
    stream = λ m. rw m refl;
    unknown = λ a b c d.
        rw (differs _ _ a, differs _ _ b, differs _ _ c, differs _ _ d)
          (error-IsErrorOf q.id _ _ _);
  }
