-- ===== src/Backend/Tests.antt =====
-- A mock agent that is sent a message, and its theorems at it.
use spec_torture.Base.{◌≡◌, refl, String, false, some, List, [], ◌∷◌, ◌==◌, if◌then◌else◌}
use spec_torture.Base.Dict.{Dict, lookup}
use spec_torture.Base.Text.{concat, decimal}
use spec_torture.Base.Strings.{trim_prefix, trim_suffix, has_prefix, drop_as}
use spec_torture.Value.{Value, text, arr, of_items}
use spec_torture.Backend.MockAgent.{
  MockAgentState, AgentRequest, handle_send, handle_cancel, cap_history,
}
use spec_torture.Backend.MockAgent.Tasks.{
  Kept, AreLastOf, handle_send-roundtrip, cap_history-AreLastOf,
}

abbrev new_agent : MockAgentState
new_agent = record {
  card = text "card";
  options = record { disable_message_send = false; always_message = false };
  task_seq = 0;
  msg_seq = 0;
  tasks = [];
}

abbrev request : String → String → AgentRequest
request method path = record { method = method; path = path; history_length = ""; message = [] }

handle_send-roundtrip_example :
    let (reply, a1) = handle_send "t0" new_agent (request "POST" "/message:send") in
    let (canceled, a2) = handle_cancel "t1" a1 (request "POST" "/tasks/task-1:cancel") in
    Kept "t1" new_agent (request "GET" "/tasks/task-1") reply a1 canceled a2
unfolding trim_prefix trim_suffix has_prefix drop_as concat decimal
handle_send-roundtrip_example =
    handle_send-roundtrip "t0" "t1" new_agent (request "POST" "/message:send")
      (request "GET" "/tasks/task-1") (request "POST" "/tasks/task-1:cancel") refl refl refl refl
      refl

abbrev history : List Value
history = text "a" ∷ text "b" ∷ text "c" ∷ []

abbrev task : Dict Value
task = ("id", text "task-1") ∷ ("history", arr (of_items history)) ∷ []

cap_history-AreLastOf_example :
    (kept : List Value) × AreLastOf 2 history kept
    × (lookup "id" (cap_history task 2)
        ≡ (if "history" == "id" then some (arr (of_items kept)) else lookup "id" task))
unfolding lookup
cap_history-AreLastOf_example = cap_history-AreLastOf task history 2 "id" refl
