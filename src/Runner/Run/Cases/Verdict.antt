-- ===== src/Runner/Run/Cases/Verdict.antt =====
-- What the result of a test case says of its steps.
use spec_torture.Base.{
  ℕ, suc, ◌≡◌, ◌≢◌, refl, ◌⊎◌, inl, inr, String, Bool, true, false, Option, none, some, ap, ◌<◌,
  Option-cases, List, [], ◌∷◌, ◌++◌, ◌==◌, length, All, contains, arith, eq_iff, subst, Bool-cases,
  if_holds,
}
use spec_torture.Value.{Value}
use spec_torture.Schema.Spec.{Step, TestCase}
use spec_torture.Runner.Host.{Host}
use spec_torture.Runner.Run.{
  RunConfig, StepResult, Transport, StepError, send_failed, mcp_send_failed, blank, send, link_of,
  last_response, wait_duration, after_send, checked, expect_step, assert_step, wait_step,
  execute_step, evaluate_assert,
}
use spec_torture.Runner.Mcp.{translate_mcp_tool_call}
use spec_torture.Runner.Transport.{Response}
use spec_torture.Runner.Transport.Expect.{match_expect}
use spec_torture.Runner.Http.{SendError, Sent, got, failed}
use spec_torture.Base.Dict.{Dict}
use spec_torture.Runner.Run.Cases.{
  CaseError, of_step, CaseResult, Outcome, step_first, finished, run_steps, failed_case,
  create_transport, run_test_case_http,
}

abbrev pub statuses : List String
statuses = "pass" ∷ "fail" ∷ "error" ∷ "skip" ∷ "timeout" ∷ []

abbrev pub HasPassed : StepResult → Type 0
HasPassed sr = sr.status ≡ "pass"

abbrev pub HasStatus : StepResult → Type 0
HasStatus sr = contains statuses sr.status ≡ true

status-empty : (s : String) → contains statuses s ≡ true → (s == "") ≡ false
status-empty s k = elim (Bool-cases (s == "")) [
  | inl e ↦
      let no : false ≡ true = subst (λ x. contains statuses x ≡ true) ((eq_iff s "").0 e) k in
      absurd (ground arith)
  | inr e ↦ e
]

-- The results are those of the steps, one after the other from the number and the transport on: each
-- step but the first is executed on the transport that the step before it left, and none is executed
-- after one that did not pass.
pub data Executed (h : Host) : List Step → ℕ → Transport → List StepResult → Type 0 where
  nothing_left : {i : ℕ} {t : Transport} → Executed h [] i t []
  goes_on :
      {s : Step} {ss : List Step} {i : ℕ} {t t' : Transport} {sr : StepResult}
      {srs : List StepResult}
      → execute_step h s i t ≡ (sr, t')
      → sr.status ≡ "pass"
      → Executed h ss (suc i) t' srs
      → Executed h (s ∷ ss) i t (sr ∷ srs)
  stops :
      {s : Step} {ss : List Step} {i : ℕ} {t t' : Transport} {sr : StepResult}
      → execute_step h s i t ≡ (sr, t')
      → sr.status ≢ "pass"
      → Executed h (s ∷ ss) i t (sr ∷ [])

-- What the status and the error of a test case say of the results of its steps.
abbrev pub SumsUp : TestCase → CaseResult → Type 0
SumsUp tc r =
    ((r.status ≡ "pass")
      × (r.error ≡ none)
      × (length r.steps ≡ length tc.steps)
      × All HasPassed r.steps)
    ⊎ ((passed : List StepResult) × (sr : StepResult) × (r.steps ≡ passed ++ (sr ∷ []))
        × All HasPassed passed
        × (length passed < length tc.steps)
        × (sr.status ≢ "pass")
        × HasStatus sr
        × (r.status ≡ sr.status)
        × (r.error ≡ some (of_step sr.error)))

-- The result of a test case whose steps are executed from a transport on.
abbrev pub IsVerdictOf : Host → Transport → TestCase → CaseResult → Type 0
IsVerdictOf h t tc r = (r.test_case_id ≡ tc.id) × Executed h tc.steps 0 t r.steps × SumsUp tc r

module _ (h : Host) where
  run_steps-Executed :
      (ss : List Step) (i : ℕ) (t : Transport) → Executed h ss i t (run_steps h ss i t).steps
  unfolding run_steps
  run_steps-Executed [] i t = nothing_left
  run_steps-Executed (s ∷ ss) i t =
      let x : StepResult × Transport = execute_step h s i t in
      elim (Bool-cases (x.0.status == "pass")) [
        | inl p ↦ rw p (goes_on refl ((eq_iff _ _).0 p) (run_steps-Executed ss (suc i) x.1))
        | inr p ↦ rw p (stops refl (ground (arith, eq_iff (x.0.status) "pass")))
      ]

  sent_holds :
      (f : SendError → StepError) (sr : StepResult) (x : Sent × Transport)
      → HasStatus (after_send h f sr x).0
  sent_holds f sr (got r, t) = refl
  sent_holds f sr (failed e, t) = refl

  checked_holds :
      {E : Type 0} (f : E → StepError) (sr : StepResult) (o : Option E)
      → HasStatus (checked h f sr o)
  checked_holds f sr none = refl
  checked_holds f sr (some e) = refl

  expect_holds :
      (sr : StepResult) (expect : Dict Value) (o : Option Response)
      → HasStatus (expect_step h sr expect o)
  expect_holds sr expect none = refl
  expect_holds sr expect (some r) =
      checked_holds StepError.not_met (record sr { expected = some expect; actual = some r })
        (match_expect h r expect)

  assert_holds :
      (sr : StepResult) (expect : Dict Value) (o : Option Response)
      → HasStatus (assert_step h sr expect o)
  assert_holds sr expect none = refl
  assert_holds sr expect (some r) =
      checked_holds StepError.not_asserted sr (evaluate_assert h expect r)

  wait_holds : (sr : StepResult) (b : Bool) → HasStatus (wait_step h sr b)
  wait_holds sr true = refl
  wait_holds sr false = refl

  execute_step-HasStatus : (s : Step) (i : ℕ) (t : Transport) → HasStatus (execute_step h s i t).0
  unfolding execute_step
  execute_step-HasStatus s i t =
      let P : StepResult × Transport → Type 0 = λ x. HasStatus x.0 in
      let sr : StepResult = blank i s in
      let call : Dict Value = translate_mcp_tool_call h.formats.shown s.payload (last_response t) in
      if_holds P (s.action == "send") _ _ (sent_holds send_failed sr (send h s.payload t)) (
        if_holds P (s.action == "expect") _ _ (expect_holds sr s.expect (last_response t)) (
          if_holds P (s.action == "wait") _ _
            (wait_holds sr (h.wait (link_of t).waits (wait_duration h s.payload)))
            (if_holds P (s.action == "assert") _ _ (assert_holds sr s.expect (last_response t)) (
              if_holds P (s.action == "mcp_tool_call") _ _
                (sent_holds mcp_send_failed sr (send h call t))
                (if_holds P (s.action == "exec") _ _ refl refl)))))

  -- What the loop leaves of the steps that it was given: each passed, or the ones that ran did but for
  -- the last, which gives the status and the error.
  abbrev Ran : ℕ → Outcome → Type 0
  Ran n o =
      ((o.status ≡ "") × (o.error ≡ none) × (length o.steps ≡ n) × All HasPassed o.steps)
      ⊎ ((passed : List StepResult) × (sr : StepResult) × (o.steps ≡ passed ++ (sr ∷ []))
          × All HasPassed passed
          × (length passed < n)
          × (sr.status ≢ "pass")
          × HasStatus sr
          × (o.status ≡ sr.status)
          × (o.error ≡ some (of_step sr.error)))

  first_Ran :
      (n : ℕ) (sr : StepResult) (o : Outcome)
      → HasPassed sr
      → Ran n o
      → Ran (suc n) (step_first sr o)
  first_Ran n sr o p (inl (s, e, l, a)) = inl (s, e, ap suc l, (p, a))
  first_Ran n sr o p (inr (ps, x, eq, a, l, np, k, st, er)) =
      inr (sr ∷ ps, x, ap (λ y. sr ∷ y) eq, (p, a), omega arith, np, k, st, er)

  run_steps-Ran : (ss : List Step) (i : ℕ) (t : Transport) → Ran (length ss) (run_steps h ss i t)
  unfolding run_steps
  run_steps-Ran [] i t = inl (refl, refl, refl, tt)
  run_steps-Ran (s ∷ ss) i t =
      let x : StepResult × Transport = execute_step h s i t in
      elim (Bool-cases (x.0.status == "pass")) [
        | inl p ↦
            rw p (first_Ran (length ss) x.0 _ ((eq_iff _ _).0 p) (run_steps-Ran ss (suc i) x.1))
        | inr p ↦ rw p (
            inr (
              [],
              x.0,
              refl,
              tt,
              omega arith,
              ground (arith, eq_iff (x.0.status) "pass"),
              execute_step-HasStatus s i t,
              refl,
              refl,
            ))
      ]

  finished-SumsUp :
      (tc : TestCase) (o : Outcome) → Ran (length tc.steps) o → SumsUp tc (finished tc o)
  finished-SumsUp tc o (inl (s, e, l, a)) = rw s (inl (refl, e, l, a))
  finished-SumsUp tc o (inr (ps, x, eq, a, l, np, k, st, er)) =
      let some_status : (o.status == "") ≡ false = rw st (status-empty x.status k) in
      rw some_status (inr (ps, x, eq, a, l, np, k, st, er))

  -- A test case that runs over HTTP has the results of its steps, each executed on the transport that
  -- the step before it left, the first on a new one. It passes if all of them were executed and passed;
  -- otherwise they passed up to one that did not, after which none was executed, and whose status and
  -- error are those of the test case. If its transport is not supported, no step is executed and the
  -- status is an error.
  pub run_test_case_http-IsVerdictOf :
      (kind : String) (cfg : RunConfig) (tc : TestCase)
      → ((t : Transport) × (create_transport kind cfg.base_url cfg.rpc_path ≡ some t)
          × IsVerdictOf h t tc (run_test_case_http h kind cfg tc))
        ⊎ ((create_transport kind cfg.base_url cfg.rpc_path ≡ none)
            × (run_test_case_http h kind cfg tc ≡ failed_case tc CaseError.unsupported_transport))
  unfolding run_test_case_http
  run_test_case_http-IsVerdictOf kind cfg tc =
      elim (Option-cases (create_transport kind cfg.base_url cfg.rpc_path)) [
        | inl e ↦ rw (run_test_case_http, e) (inr (refl, refl))
        | inr (t, e) ↦
            rw (run_test_case_http, e)
              (inl (
                t,
                refl,
                (
                  refl,
                  run_steps-Executed tc.steps 0 t,
                  finished-SumsUp tc _ (run_steps-Ran tc.steps 0 t),
                ),
              ))
      ]
