-- ===== src/Runner/Run/Cases/Whole.antt =====
-- What the results of a whole run are, and their summary.
use spec_torture.Base.{
  ℕ, suc, ◌+◌, ◌≡◌, ◌≢◌, not, ◌&&◌, ◌↔◌, refl, ◌⊎◌, inl, inr, String, true, false, none, some, List,
  [], ◌∷◌, ◌==◌, length, map, All, contains, arith, eq_iff, ap, ◌∙◌, Bool-cases, Option-cases,
  if◌then◌else◌, if-true, if-false, subst,
}
use spec_torture.Schema.Spec.{TestCase, Spec, is_empty}
use spec_torture.Schema.Result.Counts.{one_if, count_of, compute_summary_counts}
use spec_torture.Runner.Host.{Host}
use spec_torture.Runner.Run.{RunConfig}
use spec_torture.Runner.Run.Cases.{
  CaseError, create_transport, CaseResult, failed_case, skipped_case, matches_tags, is_left_out,
  Docker, summarised, run_test_case_http, run_test_case_docker, run_case, run_cases, run,
}
use spec_torture.Runner.Run.Cases.Verdict.{
  statuses, SumsUp, IsVerdictOf, run_test_case_http-IsVerdictOf,
}
use spec_torture.Runner.Run.{Transport}
use spec_torture.Runner.Run.Cases.Container.{HasKnown, DockerAnswers, docker_known}

-- There is a filter, and none of its tags is a tag of the test case.
abbrev pub MissesFilter : RunConfig → TestCase → Type 0
MissesFilter cfg tc = (cfg.tags ≢ []) × All (λ tag. contains tc.tags tag ≡ false) cfg.tags

-- What it comes to with one: the verdict on its steps, if the transport is supported.
abbrev pub HttpAnswers : Host → String → RunConfig → TestCase → CaseResult → Type 0
HttpAnswers h kind cfg tc r =
    ((t : Transport) × (create_transport kind cfg.base_url cfg.rpc_path ≡ some t)
      × IsVerdictOf h t tc r)
    ⊎ (create_transport kind cfg.base_url cfg.rpc_path ≡ none)
      × (r ≡ failed_case tc CaseError.unsupported_transport)

module _ (host : ℕ → Host) (docker : Docker) (kind : String) (cfg : RunConfig) where
  -- The result is that of the test case with this number.
  abbrev pub Answers : ℕ → TestCase → CaseResult → Type 0
  Answers i tc r =
      (r.test_case_id ≡ tc.id)
      × (contains statuses r.status ≡ true)
      × (MissesFilter cfg tc × (r ≡ skipped_case tc)
          ⊎ ¬ (MissesFilter cfg tc)
            × ((cfg.base_url ≡ "") × DockerAnswers docker tc r
                ⊎ (cfg.base_url ≢ "") × HttpAnswers (host i) kind cfg tc r))

  abbrev pub AllAnswer : ℕ → List TestCase → List CaseResult → Type 0
  AllAnswer i [] [] = Unit
  AllAnswer i (tc ∷ tcs) (r ∷ rs) = Answers i tc r × AllAnswer (suc i) tcs rs
  AllAnswer i _ _ = ⊥

pub one_known :
    (st : String)
    → contains statuses st ≡ true
    → one_if "pass" st
        + one_if "fail" st
        + one_if "error" st
        + one_if "skip" st
        + one_if "timeout" st
      ≡ 1
one_known st h = elim (Bool-cases ("pass" == st)) [
  | inl e ↦ rw (← (eq_iff _ _).0 e) refl
  | inr a ↦ elim (Bool-cases ("fail" == st)) [
    | inl e ↦ rw (← (eq_iff _ _).0 e) refl
    | inr b ↦ elim (Bool-cases ("error" == st)) [
      | inl e ↦ rw (← (eq_iff _ _).0 e) refl
      | inr c ↦ elim (Bool-cases ("skip" == st)) [
        | inl e ↦ rw (← (eq_iff _ _).0 e) refl
        | inr d ↦ elim (Bool-cases ("timeout" == st)) [
          | inl e ↦ rw (← (eq_iff _ _).0 e) refl
          | inr e ↦ absurd (ground arith)
        ]
      ]
    ]
  ]
]

-- each result is counted once
counted_once :
    (rs : List CaseResult)
    → All HasKnown rs
    → let ts = map summarised rs in
      count_of "pass" ts
        + count_of "fail" ts
        + count_of "error" ts
        + count_of "skip" ts
        + count_of "timeout" ts
      ≡ length ts
counted_once [] h = refl
counted_once (r ∷ rs) (k, h) = omega (arith, one_known r.status k, counted_once rs h)

verdict_known : (tc : TestCase) (r : CaseResult) → SumsUp tc r → HasKnown r
verdict_known tc r (inl (e, _, _, _)) = rw e refl
verdict_known tc r (inr (ps, sr, _, _, _, _, k, e, _)) = rw e k

any_false :
    (test_tags filter_tags : List String)
    → (matches_tags test_tags filter_tags ≡ false)
      ↔ All (λ tag. contains test_tags tag ≡ false) filter_tags
unfolding matches_tags
any_false test_tags [] = ground arith
any_false test_tags (tag ∷ tags) = let later = any_false test_tags tags in ground arith

is_left_out_iff :
    (cfg : RunConfig) (tc : TestCase) → (is_left_out cfg tc ≡ true) ↔ MissesFilter cfg tc
unfolding is_left_out
is_left_out_iff cfg tc = go cfg.tags (any_false tc.tags cfg.tags)
  where
    go :
        (tags : List String)
        → ((matches_tags tc.tags tags ≡ false) ↔ All (λ tag. contains tc.tags tag ≡ false) tags)
        → (not (is_empty tags) && not (matches_tags tc.tags tags) ≡ true)
          ↔ ((tags ≢ []) × All (λ tag. contains tc.tags tag ≡ false) tags)
    go [] h = (λ e. absurd (ground arith), λ e. absurd (e.0 refl))
    go (tag ∷ tags) h = (λ e. (λ x. cc, h.0 (ground arith)), λ e. let no = h.1 e.1 in rw no refl)

http_id :
    (h : Host) (kind : String) (cfg : RunConfig) (tc : TestCase)
    → (run_test_case_http h kind cfg tc).test_case_id ≡ tc.id
unfolding run_test_case_http
http_id h kind cfg tc = elim (Option-cases (create_transport kind cfg.base_url cfg.rpc_path)) [
  | inl e ↦ rw (run_test_case_http, e) refl
  | inr (t, e) ↦ rw (run_test_case_http, e) refl
]

http_known :
    (h : Host) (kind : String) (cfg : RunConfig) (tc : TestCase)
    → HttpAnswers h kind cfg tc (run_test_case_http h kind cfg tc)
    → HasKnown (run_test_case_http h kind cfg tc)
http_known h kind cfg tc (inl (t, _, (_, _, v))) =
    verdict_known tc (run_test_case_http h kind cfg tc) v
http_known h kind cfg tc (inr (_, f)) = rw f refl

module _ (host : ℕ → Host) (docker : Docker) where
  chosen_Answers :
      (kind : String) (cfg : RunConfig) (i : ℕ) (tc : TestCase)
      → is_left_out cfg tc ≡ false
      → Answers host docker kind cfg i tc (
          if cfg.base_url == ""
          then run_test_case_docker docker tc
          else run_test_case_http (host i) kind cfg tc)
  chosen_Answers kind cfg i tc in_ =
      let tried : ¬ (MissesFilter cfg tc) =
        λ m. let e = (is_left_out_iff cfg tc).1 m in ground arith in
      elim (Bool-cases (cfg.base_url == "")) [
        | inl e ↦
            let (known, same, answers) = docker_known docker tc in
            rw e (same, known, inr (tried, inl ((eq_iff _ _).0 e, answers)))
        | inr e ↦
            let url : cfg.base_url ≢ "" = ground (arith, eq_iff cfg.base_url "") in
            let answers = run_test_case_http-IsVerdictOf (host i) kind cfg tc in
            rw e (
              http_id (host i) kind cfg tc,
              http_known (host i) kind cfg tc answers,
              inr (tried, inr (url, answers)),
            )
      ]

  run_case-Answers :
      (kind : String) (cfg : RunConfig) (i : ℕ) (tc : TestCase)
      → Answers host docker kind cfg i tc (run_case host docker kind cfg i tc)
  unfolding run_case
  run_case-Answers kind cfg i tc = elim (Bool-cases (is_left_out cfg tc)) [
    | inl e ↦
        subst (Answers host docker kind cfg i tc) (if-true _ _ _ e)
          (refl, refl, inl ((is_left_out_iff cfg tc).0 e, refl))
    | inr e ↦
        subst (Answers host docker kind cfg i tc) (if-false _ _ _ e)
          (chosen_Answers kind cfg i tc e)
  ]

  run_cases-AllAnswer :
      (kind : String) (cfg : RunConfig) (i : ℕ) (tcs : List TestCase)
      → AllAnswer host docker kind cfg i tcs (run_cases host docker kind cfg i tcs)
  unfolding run_cases
  run_cases-AllAnswer kind cfg i [] = tt
  run_cases-AllAnswer kind cfg i (tc ∷ tcs) =
      (run_case-Answers kind cfg i tc, run_cases-AllAnswer kind cfg (suc i) tcs)

  results_known :
      (kind : String) (cfg : RunConfig) (i : ℕ) (tcs : List TestCase) (rs : List CaseResult)
      → AllAnswer host docker kind cfg i tcs rs
      → All HasKnown rs × (length (map summarised rs) ≡ length tcs)
  results_known kind cfg i [] [] a = (tt, refl)
  results_known kind cfg i (tc ∷ tcs) (r ∷ rs) ((_, k, _), a) =
      let (ks, l) = results_known kind cfg (suc i) tcs rs a in ((k, ks), ap suc l)
  results_known kind cfg i [] (r ∷ rs) a = absurd a
  results_known kind cfg i (tc ∷ tcs) [] a = absurd a

  -- Whatever the runtime under test answers, a run has one result for each test case of the spec, in
  -- their order. Where there is a filter and the test case has none of its tags, no step is executed and
  -- the status is a skip; where it has one, or there is no filter, the test case is run. With a URL to
  -- test its result is the verdict on its steps, or an error if the transport is not supported. Without
  -- one it is an error without steps if there is no Docker manager or no container starts, and else the
  -- first step is an error and the last. The summary counts each of them once: its five counts add up to its total,
  -- which is the number of test cases.
  pub run_lem :
      (spec : Spec) (cfg : RunConfig)
      → AllAnswer host docker spec.transport cfg 0 spec.test_cases
          (run host docker spec cfg).results
        × ((run host docker spec cfg).summary.total ≡ length spec.test_cases)
        × (let s = (run host docker spec cfg).summary in
            s.passed + s.failed + s.errors + s.skipped + s.timeouts ≡ s.total)
  unfolding run
  run_lem spec cfg =
      let rs : List CaseResult = run_cases host docker spec.transport cfg 0 spec.test_cases in
      let answers : AllAnswer host docker spec.transport cfg 0 spec.test_cases rs =
        run_cases-AllAnswer spec.transport cfg 0 spec.test_cases in
      let (known, same) = results_known spec.transport cfg 0 spec.test_cases rs answers in
      let counts = compute_summary_counts (map summarised rs) in
      let once = counted_once rs known in
      (answers, counts.total ∙ same, omega (arith, counts, once))
