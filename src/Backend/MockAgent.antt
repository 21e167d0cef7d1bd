-- ===== src/Backend/MockAgent.antt =====
-- arp/backend/mock.go: an agent that runs inside the process, with its tasks. A handler holds the lock
-- of the agent while it reads and writes the tasks, and is one step.
pub mod Tasks
use spec_torture.Base.{
  ℕ, ◌+◌, ◌-◌, String, Bool, true, false, not, ◌&&◌, ◌||◌, Option, none, some, List, [], ◌∷◌, ◌++◌,
  ◌==◌, length, ltb, map, if◌then◌else◌,
}
use spec_torture.Base.Int.{ℤ, pos, negsuc}
use spec_torture.Base.Dict.{Dict, lookup, insert}
use spec_torture.Base.Text.{concat, decimal}
use spec_torture.Base.Strings.{has_prefix, has_suffix, trim_prefix, trim_suffix, atoi}
use spec_torture.Value.{Value, text, boolean, arr, obj, items, fields, of_items, of_fields}
use spec_torture.Arp.Messages.{AgentTemplate, CardConfig, SkillConfig}

pub record MockOptions : Type 0 where
  pub disable_message_send : Bool
  pub always_message : Bool

-- `mockAgent`, as far as its handlers read it; a task is the map of the source
pub record MockAgentState : Type 0 where
  pub card : Value
  pub options : MockOptions
  pub task_seq : ℕ
  pub msg_seq : ℕ
  pub tasks : Dict (Dict Value)

-- A request: `message` is the decoded object, empty where the body has none, and `history_length` the
-- parameter of the query, or "".
pub record AgentRequest : Type 0 where
  pub method : String
  pub path : String
  pub history_length : String
  pub message : Dict Value

pub record AgentReply : Type 0 where
  pub status : ℕ
  pub body : Value

abbrev json_reply : Value → AgentReply
json_reply v = record { status = 200; body = v }

abbrev pub not_found : String → AgentReply
not_found message = record { status = 404; body = text message }

abbrev object_of : Dict Value → Value
object_of m = obj (of_fields m)

abbrev pub task_reply : Dict Value → AgentReply
task_reply task = json_reply (object_of task)

abbrev text_or_empty : Option Value → String
text_or_empty (some (text s)) = s
text_or_empty _ = ""

abbrev items_or_none : Option Value → List Value
items_or_none (some (arr vs)) = items vs
items_or_none _ = []

abbrev map_or_empty : Option Value → Dict Value
map_or_empty (some (obj fs)) = fields fs
map_or_empty _ = []

-- the text of a part, if it is a map that has one
abbrev part_text : Value → String
part_text (obj fs) = text_or_empty (lookup "text" (map_or_empty (lookup "text_part" (fields fs))))
part_text v = ""

unfoldable pub join_parts : List Value → String
unfolding concat lookup
join_parts [] = ""
join_parts (p ∷ ps) = concat (part_text p) (join_parts ps)

-- `extractText`
unfoldable pub extract_text : Dict Value → String
unfolding join_parts lookup
extract_text msg = join_parts (items_or_none (lookup "parts" msg))

abbrev pub text_part : String → Value
text_part s = object_of (("text_part", object_of (("text", text s) ∷ [])) ∷ [])

abbrev parts_of : String → Value
parts_of s = arr (of_items (text_part s ∷ []))

abbrev history_entry : String → String → Value
history_entry role s = object_of (("role", text role) ∷ ("parts", parts_of s) ∷ [])

abbrev status_of : String → String → Value
status_of state now = object_of (("state", text state) ∷ ("timestamp", text now) ∷ [])

abbrev echo : String → String
echo s = concat "echo: " s

-- `newTask`
unfoldable pub new_task : String → String → String → String → Dict Value
unfolding concat
new_task now id ctx_id s =
    ("id", text id)
    ∷ ("context_id", text ctx_id)
    ∷ ("status", status_of "TASK_STATE_COMPLETED" now)
    ∷ (
      "history",
      arr (of_items (history_entry "ROLE_USER" s ∷ history_entry "ROLE_AGENT" (echo s) ∷ [])),
    )
    ∷ (
      "artifacts",
      arr (
          of_items (
            object_of (
              ("artifact_id", text "art-1")
              ∷ ("name", text "echo")
              ∷ ("parts", parts_of (echo s))
              ∷ [])
            ∷ [])),
    )
    ∷ []

abbrev pub drop {ℓ} : {A : Type ℓ} → ℕ → List A → List A
drop ℕ.zero xs = xs
drop (ℕ.suc n) [] = []
drop (ℕ.suc n) (x ∷ xs) = drop n xs

-- the last n entries of a history that is longer
abbrev pub last_entries : ℕ → List Value → List Value
last_entries n hist = if ltb n (length hist) then drop (length hist - n) hist else hist

-- `capHistory`
unfoldable pub cap_history : Dict Value → ℕ → Dict Value
unfolding lookup insert
cap_history task n = elim (lookup "history" task) [
  | none ↦ task
  | some v ↦ elim v [
    | arr hist ↦ insert "history" (arr (of_items (last_entries n (items hist)))) task
    | _ ↦ task
  ]
]

abbrev pub context_or : String → ℕ → String
context_or id seq = if id == "" then concat "ctx-" (decimal (seq + 1)) else id

abbrev pub task_id_of : ℕ → String
task_id_of n = concat "task-" (decimal n)

-- the answer with a bare message
abbrev message_value : ℕ → String → String → Value
message_value n s ctx_id = object_of (
    ("message_id", text (concat "msg-" (decimal n)))
    ∷ ("role", text "ROLE_AGENT")
    ∷ ("parts", parts_of (echo s))
    ∷ ("context_id", text ctx_id)
    ∷ [])

abbrev pub sent_task : String → MockAgentState → Dict Value → Dict Value
sent_task now a msg =
    new_task now (task_id_of (a.task_seq + 1))
      (context_or (text_or_empty (lookup "context_id" msg)) a.task_seq) (extract_text msg)

-- `handleSend`, at a time
unfoldable pub handle_send : String → MockAgentState → AgentRequest → AgentReply × MockAgentState
unfolding extract_text new_task insert lookup concat decimal
handle_send now a r =
    if a.options.disable_message_send
    then (not_found "message:send not implemented", a)
    else if a.options.always_message
    then (
      json_reply (
          message_value (a.msg_seq + 1) (extract_text r.message)
            (context_or (text_or_empty (lookup "context_id" r.message)) a.task_seq)),
      record a { msg_seq = a.msg_seq + 1 },
    )
    else (
      task_reply (sent_task now a r.message),
      record a {
        task_seq = a.task_seq + 1;
        tasks = insert (task_id_of (a.task_seq + 1)) (sent_task now a r.message) a.tasks;
      },
    )

-- the history as the query asks for it; what is not a number, or negative, asks for nothing
abbrev pub capped_by : Option ℤ → Dict Value → Dict Value
capped_by none task = task
capped_by (some (pos n)) task = cap_history task n
capped_by (some (negsuc n)) task = task

abbrev pub shown_task : String → Dict Value → Dict Value
shown_task history_length task =
    if history_length == "" then task else capped_by (atoi history_length) task

abbrev pub found_task : AgentRequest → Option (Dict Value) → AgentReply
found_task r none = not_found "task not found"
found_task r (some task) = task_reply (shown_task r.history_length task)

-- `handleGetTask`
unfoldable pub handle_get_task : MockAgentState → AgentRequest → AgentReply
unfolding cap_history lookup trim_prefix atoi
handle_get_task a r = found_task r (lookup (trim_prefix r.path "/tasks/") a.tasks)

abbrev pub canceled_task : String → Dict Value → Dict Value
canceled_task now task = insert "status" (status_of "TASK_STATE_CANCELED" now) task

abbrev pub cancel_id : String → String
cancel_id path = trim_prefix (trim_suffix path ":cancel") "/tasks/"

abbrev pub cancel_found :
    String → MockAgentState → String → Option (Dict Value) → AgentReply × MockAgentState
cancel_found now a id none = (not_found "task not found", a)
cancel_found now a id (some task) = (
  task_reply (canceled_task now task),
  record a { tasks = insert id (canceled_task now task) a.tasks },
)

-- `handleCancel`
unfoldable pub handle_cancel : String → MockAgentState → AgentRequest → AgentReply × MockAgentState
unfolding insert lookup trim_prefix trim_suffix
handle_cancel now a r =
    let id : String = cancel_id r.path in cancel_found now a id (lookup id a.tasks)

-- `route`
unfoldable pub route_agent : String → MockAgentState → AgentRequest → AgentReply × MockAgentState
unfolding handle_send handle_cancel handle_get_task has_prefix has_suffix
route_agent now a r =
    if r.path == "/.well-known/agent-card.json"
    then (json_reply a.card, a)
    else if r.path == "/message:send" && r.method == "POST"
    then handle_send now a r
    else if has_suffix r.path ":cancel" && r.method == "POST"
    then handle_cancel now a r
    else if has_prefix r.path "/tasks/" && r.method == "GET"
    then (handle_get_task a r, a)
    else (not_found "not found", a)
