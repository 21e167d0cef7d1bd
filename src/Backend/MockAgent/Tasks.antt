-- ===== src/Backend/MockAgent/Tasks.antt =====
-- The tasks of a mock agent, from one call to the next.
use spec_torture.Base.{
  ℕ, zero, suc, ◌+◌, ◌-◌, ◌≤◌, ◌<◌, ◌≡◌, refl, inl, inr, String, false, some, List, [], ◌∷◌, ◌++◌,
  ◌==◌, length, ltb, ltb→lt, arith, eq_refl, eq_iff, ◌≢◌, ap, sym, ◌∙◌, Bool-cases, if◌then◌else◌,
}
use spec_torture.Base.Dict.{Dict, lookup, insert, lookup-insert}
use spec_torture.Base.Strings.{trim_prefix}
use spec_torture.Value.{Value, text, obj, field, no_fields, arr, items, of_items}
use spec_torture.Backend.MockAgent.{
  MockAgentState, AgentRequest, AgentReply, new_task, task_reply, sent_task, task_id_of,
  handle_send, handle_get_task, handle_cancel, canceled_task, cancel_id, shown_task, drop,
  last_entries, cap_history, found_task, cancel_found,
}

-- a task that is there is shown
get_stored :
    (a : MockAgentState) (r : AgentRequest) (id : String) (task : Dict Value)
    → trim_prefix r.path "/tasks/" ≡ id
    → lookup id a.tasks ≡ some task
    → handle_get_task a r ≡ task_reply (shown_task r.history_length task)
unfolding handle_get_task
get_stored a r id task p e = ap (λ i. found_task r (lookup i a.tasks)) p ∙ ap (found_task r) e

cancel_stored :
    (now : String) (a : MockAgentState) (r : AgentRequest) (id : String) (task : Dict Value)
    → cancel_id r.path ≡ id
    → lookup id a.tasks ≡ some task
    → handle_cancel now a r ≡ (
      task_reply (canceled_task now task),
      record a { tasks = insert id (canceled_task now task) a.tasks },
    )
unfolding handle_cancel
cancel_stored now a r id task p e =
    ap (λ i. cancel_found now a i (lookup i a.tasks)) p ∙ ap (cancel_found now a id) e

abbrev with_sent : String → MockAgentState → Dict Value → MockAgentState
with_sent now a msg = record a {
  task_seq = a.task_seq + 1;
  tasks = insert (task_id_of (a.task_seq + 1)) (sent_task now a msg) a.tasks;
}

sent :
    (now : String) (a : MockAgentState) (r : AgentRequest)
    → a.options.disable_message_send ≡ false
    → a.options.always_message ≡ false
    → handle_send now a r ≡ (task_reply (sent_task now a r.message), with_sent now a r.message)
unfolding handle_send
sent now a r enabled tasks = rw (handle_send, enabled, tasks) refl

sent_id :
    (now : String) (a : MockAgentState) (msg : Dict Value)
    → lookup "id" (sent_task now a msg) ≡ some (text (task_id_of (a.task_seq + 1)))
unfolding new_task lookup
sent_id now a msg = refl

inserted : {V : Type 0} (k : String) (v : V) (m : Dict V) → lookup k (insert k v m) ≡ some v
inserted k v m = rw (lookup-insert k k v m, eq_refl k) refl

apart :
    {V : Type 0} (k other : String) (v : V) (m : Dict V)
    → k ≢ other
    → lookup other (insert k v m) ≡ lookup other m
apart k other v m h =
    let no : (k == other) ≡ false = ground (arith, eq_iff k other) in
    rw (lookup-insert k other v m, no) refl

-- The status of a task is that it was canceled, at a time, and nothing else of it has changed.
abbrev pub IsCanceled : String → Dict Value → Dict Value → Type 0
IsCanceled now task canceled =
    (lookup "status" canceled
      ≡ some (
          obj
            (field "state" (text "TASK_STATE_CANCELED") (field "timestamp" (text now) no_fields))))
    × ((k : String) → "status" ≢ k → lookup k canceled ≡ lookup k task)

canceled_task-IsCanceled :
    (now : String) (task : Dict Value) → IsCanceled now task (canceled_task now task)
canceled_task-IsCanceled now task = (inserted "status" _ task, λ k h. apart "status" k _ task h)

-- How the calls of one agent relate: the answer to the message, the state after it, the answer to the
-- cancellation and the state after that.
abbrev pub Kept :
    String
    → MockAgentState
    → AgentRequest
    → AgentReply
    → MockAgentState
    → AgentReply
    → MockAgentState
    → Type 0
Kept later a get reply a1 canceled a2 =
    let id : String = task_id_of (a.task_seq + 1) in
    (task : Dict Value) × (reply ≡ task_reply task)
    × (lookup "id" task ≡ some (text id))
    × (handle_get_task a1 get ≡ reply)
    × ((task' : Dict Value) × (canceled ≡ task_reply task') × IsCanceled later task task')
    × (handle_get_task a2 get ≡ canceled)
    × ((other : String) → id ≢ other → lookup other a2.tasks ≡ lookup other a.tasks)

-- What an agent that answers with tasks tells of a message it was sent: the answer is a task with the
-- next id, and reading that task gives the same answer; canceling it answers with the same task but for
-- its status, which is that it was canceled at that time, and reading it then gives that answer too; the
-- other tasks are as before both calls. The requests name the task by its id, and the history is asked
-- for as a whole.
pub handle_send-roundtrip :
    (now later : String) (a : MockAgentState) (send get cancel : AgentRequest)
    → a.options.disable_message_send ≡ false
    → a.options.always_message ≡ false
    → trim_prefix get.path "/tasks/" ≡ task_id_of (a.task_seq + 1)
    → get.history_length ≡ ""
    → cancel_id cancel.path ≡ task_id_of (a.task_seq + 1)
    → let (reply, a1) = handle_send now a send in
      let (canceled, a2) = handle_cancel later a1 cancel in Kept later a get reply a1 canceled a2
handle_send-roundtrip now later a send get cancel enabled tasks read whole stop =
    let id : String = task_id_of (a.task_seq + 1) in
    let task : Dict Value = sent_task now a send.message in
    let task' : Dict Value = canceled_task later task in
    let a1 : MockAgentState = with_sent now a send.message in
    let a2 : MockAgentState = record a1 { tasks = insert id task' a1.tasks } in
    let there : lookup id a1.tasks ≡ some task = inserted id task a.tasks in
    let there' : lookup id a2.tasks ≡ some task' = inserted id task' a1.tasks in
    rw (sent now a send enabled tasks, cancel_stored later a1 cancel id task stop there)
      (
        task,
        refl,
        sent_id now a send.message,
        rw (get_stored a1 get id task read there, whole) refl,
        (task', refl, canceled_task-IsCanceled later task),
        rw (get_stored a2 get id task' read there', whole) refl,
        λ other h. apart id other task' a1.tasks h ∙ apart id other task a.tasks h,
      )

drop_parts :
    {A : Type 0} (n : ℕ) (xs : List A)
    → n ≤ length xs
    → (front : List A) × (front ++ drop n xs ≡ xs) × (length front ≡ n)
drop_parts zero xs h = ([], refl, refl)
drop_parts (suc n) [] h = absurd (omega arith)
drop_parts (suc n) (x ∷ xs) h =
    let (front, e, l) = drop_parts n xs (omega arith) in (x ∷ front, ap (λ ys. x ∷ ys) e, ap suc l)

length-++ : {A : Type 0} (xs ys : List A) → length (xs ++ ys) ≡ length xs + length ys
length-++ [] ys = omega arith
length-++ (x ∷ xs) ys = omega (arith, length-++ xs ys)

-- The last entries that were kept of a history.
abbrev pub AreLastOf : ℕ → List Value → List Value → Type 0
AreLastOf n hist kept =
    ((front : List Value) × (front ++ kept ≡ hist) × (length front ≡ length hist - n))
    × (length kept ≤ n)

last_entries-AreLastOf : (n : ℕ) (hist : List Value) → AreLastOf n hist (last_entries n hist)
last_entries-AreLastOf n hist = elim (Bool-cases (ltb n (length hist))) [
  | inl e ↦
      let longer : n < length hist = ltb→lt n (length hist) e in
      let (front, parts, l) = drop_parts (length hist - n) hist (omega arith) in
      let whole : length hist ≡ length front + length (drop (length hist - n) hist) =
        sym (ap length parts) ∙ length-++ front (drop (length hist - n) hist) in
      rw e ((front, parts, l), omega arith)
  | inr e ↦ let short : length hist ≤ n = ground arith in rw e (([], refl, omega arith), short)
]

items-of_items : (vs : List Value) → items (of_items vs) ≡ vs
items-of_items [] = refl
items-of_items (v ∷ vs) = ap (λ ws. v ∷ ws) (items-of_items vs)

-- A capped task has the same entries but for the history, which keeps its last entries, in order: all
-- of them if there are no more than were asked for, and else exactly as many.
pub cap_history-AreLastOf :
    (task : Dict Value) (hist : List Value) (n : ℕ) (k : String)
    → lookup "history" task ≡ some (arr (of_items hist))
    → (kept : List Value) × AreLastOf n hist kept
      × (lookup k (cap_history task n)
          ≡ (if "history" == k then some (arr (of_items kept)) else lookup k task))
unfolding cap_history
cap_history-AreLastOf task hist n k e = (
  last_entries n hist,
  last_entries-AreLastOf n hist,
  rw (cap_history, e, items-of_items hist)
      (lookup-insert "history" k (arr (of_items (last_entries n hist))) task),
)
