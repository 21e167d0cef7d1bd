-- ===== src/Runner/Run.antt =====
-- internal/runner/runner.go: a test run. Ids, the log, and the times of a result are left out, and of
-- an error the text.
pub mod Cases
use spec_torture.Base.{
  ℕ, suc, ◌+◌, String, Bool, true, false, Option, none, some, List, [], ◌∷◌, ◌++◌, ◌==◌, contains,
  any, eqb, if◌then◌else◌,
}
use spec_torture.Base.Int.{ℤ, pos}
use spec_torture.Base.Dict.{Dict, lookup}
use spec_torture.Base.Text.{trim_space}
use spec_torture.Base.Strings.{cut, has_infix, split, trim_of}
use spec_torture.Value.{Value, null, text}
use spec_torture.Schema.Spec.{Step, TestCase, Spec}
use spec_torture.Schema.Result.{TestResult, Summary, compute_summary}
use spec_torture.Runner.Host.{Host}
use spec_torture.Runner.Transport.{Response, merge_response_data, resolve_json_path}
use spec_torture.Runner.Transport.Expect.{ExpectError, match_expect}
use spec_torture.Runner.Http.{SendError, Sent, got, failed, Link, new_http, send_http}
use spec_torture.Runner.JsonRpc.{RpcLink, new_jsonrpc, send_rpc}
use spec_torture.Runner.Mcp.{translate_mcp_tool_call}

-- `Config`, as far as a run reads it
pub record RunConfig : Type 0 where
  pub base_url : String
  pub rpc_path : String
  pub tags : List String

pub data AssertError : Type 0 where
  no_condition not_a_text no_data unsupported field_not_found not_allowed invalid_condition :
      AssertError

pub data StepError : Type 0 where
  send_failed mcp_send_failed : SendError → StepError
  no_previous wait_timed_out exec_unsupported unknown_action not_implemented : StepError
  not_met : ExpectError → StepError
  not_asserted : AssertError → StepError

pub record StepResult : Type 0 where
  pub step_index : ℕ
  pub action : String
  pub status : String
  pub expected : Option (Dict Value)
  pub actual : Option Response
  pub error : Option StepError

-- the `Transport` interface with its two implementations
pub data Transport : Type 0 where
  over_http : Link → Transport
  over_rpc : RpcLink → Transport

abbrev pub link_of : Transport → Link
link_of (over_http l) = l
link_of (over_rpc t) = t.link

abbrev with_link : Transport → Link → Transport
with_link (over_http _) l = over_http l
with_link (over_rpc t) l = over_rpc (record t { link = l })

-- LastResponse()
abbrev pub last_response : Transport → Option Response
last_response t = (link_of t).last_response

-- the loop of `evaluateInCondition` over the values
unfoldable pub is_listed : String → List String → Bool
unfolding trim_space trim_of
is_listed actual [] = false
is_listed actual (v ∷ vs) =
    let rest = is_listed actual vs in
    if trim_of (λ c. if eqb c b'\'' then true else eqb c b'"') (trim_space v) == actual
    then true
    else rest

abbrev pub blank : ℕ → Step → StepResult
blank index step = record {
  step_index = index;
  action = step.action;
  status = "";
  expected = none;
  actual = none;
  error = none;
}

abbrev errored : StepResult → String → StepError → StepResult
errored sr status e = record sr { status = status; error = some e }

-- `executeStepLegacy`
unfoldable pub execute_step_legacy : Step → ℕ → StepResult
execute_step_legacy step index = errored (blank index step) "error" not_implemented

module _ (h : Host) where
  abbrev sent_http : Sent × Link → Sent × Transport
  sent_http (s, l) = (s, over_http l)

  abbrev sent_rpc : Sent × RpcLink → Sent × Transport
  sent_rpc (s, t) = (s, over_rpc t)

  -- Send()
  unfoldable pub send : Dict Value → Transport → Sent × Transport
  unfolding send_http send_rpc
  send payload (over_http l) = sent_http (send_http h payload l)
  send payload (over_rpc t) = sent_rpc (send_rpc h payload t)

  -- a nil in the map is the same as a missing field
  abbrev among : Value → String → Option AssertError
  among null values = some AssertError.field_not_found
  among v values =
      if is_listed (h.formats.shown v)
        (split b',' (trim_of (λ c. if eqb c b'[' then true else eqb c b']') (trim_space values)))
      then none
      else some AssertError.not_allowed

  -- `evaluateInCondition`
  unfoldable pub evaluate_in_condition : String → Dict Value → Option AssertError
  unfolding cut trim_space trim_of is_listed resolve_json_path split
  evaluate_in_condition cond_ d = elim (cut cond_ " in ") [
    | none ↦ some AssertError.invalid_condition
    | some (path, values) ↦ among (resolve_json_path d (trim_space path)) values
  ]

  abbrev pub assert_text : String → Option (Dict Value) → Option AssertError
  assert_text cond_ none = some AssertError.no_data
  assert_text cond_ (some d) =
      if has_infix cond_ " in ["
      then evaluate_in_condition cond_ d
      else some AssertError.unsupported

  -- `evaluateAssert`
  unfoldable pub evaluate_assert : Dict Value → Response → Option AssertError
  unfolding evaluate_in_condition has_infix merge_response_data lookup
  evaluate_assert expect r = elim (lookup "condition" expect) [
    | none ↦ some AssertError.no_condition
    | some v ↦ elim v [
      | text s ↦ assert_text s (merge_response_data r)
      | _ ↦ some AssertError.not_a_text
    ]
  ]

  -- the duration of a wait: a second, or the text of the payload if it can be read
  unfoldable pub wait_duration : Dict Value → ℤ
  unfolding lookup
  wait_duration payload = elim (lookup "duration" payload) [
    | none ↦ pos 1000000000
    | some v ↦ elim v [
      | text s ↦ elim (h.parse_duration s) [ none ↦ pos 1000000000 | some d ↦ d ]
      | _ ↦ pos 1000000000
    ]
  ]

  abbrev pub sent_step : (SendError → StepError) → StepResult → Sent → StepResult
  sent_step f sr (failed e) = errored sr "error" (f e)
  sent_step f sr (got r) = record sr { status = "pass"; actual = r }

  abbrev pub after_send :
      (SendError → StepError) → StepResult → Sent × Transport → StepResult × Transport
  after_send f sr (s, t) = (sent_step f sr s, t)

  -- the result of a check: an error makes the step fail
  abbrev pub checked {ℓ} : {E : Type ℓ} → (E → StepError) → StepResult → Option E → StepResult
  checked f sr none = record sr { status = "pass" }
  checked f sr (some e) = errored sr "fail" (f e)

  abbrev pub expect_step : StepResult → Dict Value → Option Response → StepResult
  expect_step sr expect none = errored sr "error" no_previous
  expect_step sr expect (some r) =
      checked not_met (record sr { expected = some expect; actual = some r })
        (match_expect h r expect)

  abbrev pub assert_step : StepResult → Dict Value → Option Response → StepResult
  assert_step sr expect none = errored sr "error" no_previous
  assert_step sr expect (some r) = checked not_asserted sr (evaluate_assert expect r)

  abbrev pub wait_step : StepResult → Bool → StepResult
  wait_step sr true = record sr { status = "pass" }
  wait_step sr false = errored sr "timeout" wait_timed_out

  abbrev waited : Transport → Transport
  waited t = with_link t (record (link_of t) { waits = (link_of t).waits + 1 })

  -- `executeStepWithTransport`
  unfoldable pub execute_step : Step → ℕ → Transport → StepResult × Transport
  unfolding send evaluate_assert wait_duration match_expect translate_mcp_tool_call
  execute_step step index t =
      let sr : StepResult = blank index step in
      if step.action == "send"
      then after_send send_failed sr (send step.payload t)
      else if step.action == "expect"
      then (expect_step sr step.expect (last_response t), t)
      else if step.action == "wait"
      then (wait_step sr (h.wait (link_of t).waits (wait_duration step.payload)), waited t)
      else if step.action == "assert"
      then (assert_step sr step.expect (last_response t), t)
      else if step.action == "mcp_tool_call"
      then after_send mcp_send_failed sr
          (send (translate_mcp_tool_call h.formats.shown step.payload (last_response t)) t)
      else if step.action == "exec"
      then (errored sr "skip" exec_unsupported, t)
      else (errored sr "error" unknown_action, t)
