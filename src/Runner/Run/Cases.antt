-- ===== src/Runner/Run/Cases.antt =====
-- internal/runner/runner.go: the test cases of a run, one after the other.
pub mod Verdict
pub mod Container
pub mod Whole
use spec_torture.Base.{
  ℕ, zero, suc, String, Bool, true, false, not, ◌&&◌, Option, none, some, List, [], ◌∷◌, ◌==◌,
  contains, any, map, if◌then◌else◌,
}
use spec_torture.Schema.Spec.{Step, TestCase, Spec, is_empty}
use spec_torture.Schema.Result.{TestResult, Summary, compute_summary}
use spec_torture.Runner.Host.{Host}
use spec_torture.Runner.Http.{new_http}
use spec_torture.Runner.JsonRpc.{new_jsonrpc}
use spec_torture.Runner.Run.{
  RunConfig, StepError, StepResult, Transport, over_http, over_rpc, execute_step,
  execute_step_legacy,
}

pub data CaseError : Type 0 where
  unsupported_transport no_docker no_container : CaseError
  of_step : Option StepError → CaseError

-- `TestResult` of a test case with its steps
pub record CaseResult : Type 0 where
  pub test_case_id : String
  pub status : String
  pub steps : List StepResult
  pub error : Option CaseError

-- What the loop over the steps sets in the result.
pub record Outcome : Type 0 where
  pub steps : List StepResult
  pub status : String
  pub error : Option CaseError

-- `matchesTags`
unfoldable pub matches_tags : List String → List String → Bool
matches_tags test_tags filter_tags = any (contains test_tags) filter_tags

-- `len(cfg.Tags) > 0 && !matchesTags(tc.Tags, cfg.Tags)`
unfoldable pub is_left_out : RunConfig → TestCase → Bool
unfolding matches_tags
is_left_out cfg tc = not (is_empty cfg.tags) && not (matches_tags tc.tags cfg.tags)

-- `createTransport`
unfoldable pub create_transport : String → String → String → Option Transport
unfolding new_http new_jsonrpc
create_transport kind base_url rpc_path =
    if kind == "jsonrpc-http"
    then some (over_rpc (new_jsonrpc base_url rpc_path))
    else if kind == "http-rest"
    then some (over_http (new_http base_url))
    else if kind == "mcp-and-http"
    then some (over_http (new_http base_url))
    else none

abbrev pub step_first : StepResult → Outcome → Outcome
step_first sr o = record o { steps = sr ∷ o.steps }

abbrev pub stop_at : StepResult → Outcome
stop_at sr = record { steps = sr ∷ []; status = sr.status; error = some (of_step sr.error) }

abbrev pub all_done : Outcome
all_done = record { steps = []; status = ""; error = none }

-- the loop over the steps of a container, which no step of the Docker mode gets past
unfoldable pub run_legacy : List Step → ℕ → Outcome
unfolding execute_step_legacy
run_legacy [] i = all_done
run_legacy (s ∷ ss) i =
    let sr = execute_step_legacy s i in
    let rest = run_legacy ss (suc i) in
    if sr.status == "pass" then step_first sr rest else stop_at sr

-- no status means that every step passed
abbrev pub finished : TestCase → Outcome → CaseResult
finished tc o = record {
  test_case_id = tc.id;
  status = if o.status == "" then "pass" else o.status;
  steps = o.steps;
  error = o.error;
}

abbrev pub failed_case : TestCase → CaseError → CaseResult
failed_case tc e = record { test_case_id = tc.id; status = "error"; steps = []; error = some e }

abbrev pub skipped_case : TestCase → CaseResult
skipped_case tc = record { test_case_id = tc.id; status = "skip"; steps = []; error = none }

module _ (h : Host) where
  -- the loop over the steps, which ends at the first that does not pass
  unfoldable pub run_steps : List Step → ℕ → Transport → Outcome
  unfolding execute_step
  run_steps [] i t = all_done
  run_steps (s ∷ ss) i t =
      let (sr, t') = execute_step h s i t in
      let rest = run_steps ss (suc i) t' in
      if sr.status == "pass" then step_first sr rest else stop_at sr

  -- `runTestCaseHTTP`
  unfoldable pub run_test_case_http : String → RunConfig → TestCase → CaseResult
  unfolding run_steps create_transport
  run_test_case_http kind cfg tc = elim (create_transport kind cfg.base_url cfg.rpc_path) [
    | none ↦ failed_case tc CaseError.unsupported_transport
    | some t ↦ finished tc (run_steps tc.steps 0 t)
  ]

-- StartContainer of the Docker manager, if there is one
abbrev pub Docker : Type 0
Docker = Option (TestCase → Option String)

-- `runTestCaseDocker`
unfoldable pub run_test_case_docker : Docker → TestCase → CaseResult
unfolding run_legacy
run_test_case_docker none tc = failed_case tc CaseError.no_docker
run_test_case_docker (some start_container) tc = elim (start_container tc) [
  | none ↦ failed_case tc CaseError.no_container
  | some container ↦ finished tc (run_legacy tc.steps 0)
]

-- the fields of a result that the summary reads
abbrev pub summarised : CaseResult → TestResult
summarised r = record {
  test_case_id = r.test_case_id;
  status = r.status;
  duration = 0;
  error_message = "";
}

pub record TestRun : Type 0 where
  pub results : List CaseResult
  pub summary : Summary

-- The world as the test case with a number meets it is `host` of that number.
module _ (host : ℕ → Host) (docker : Docker) where
  unfoldable pub run_case : String → RunConfig → ℕ → TestCase → CaseResult
  unfolding run_test_case_http run_test_case_docker is_left_out
  run_case kind cfg i tc =
      if is_left_out cfg tc
      then skipped_case tc
      else if cfg.base_url == ""
      then run_test_case_docker docker tc
      else run_test_case_http (host i) kind cfg tc

  unfoldable pub run_cases : String → RunConfig → ℕ → List TestCase → List CaseResult
  unfolding run_case
  run_cases kind cfg i [] = []
  run_cases kind cfg i (tc ∷ tcs) = run_case kind cfg i tc ∷ run_cases kind cfg (suc i) tcs

  -- `Run`
  unfoldable pub run : Spec → RunConfig → TestRun
  unfolding run_cases compute_summary
  run spec cfg =
      let results : List CaseResult = run_cases spec.transport cfg 0 spec.test_cases in
      record { results = results; summary = compute_summary (map summarised results) }
