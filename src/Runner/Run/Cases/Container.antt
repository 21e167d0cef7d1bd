-- ===== src/Runner/Run/Cases/Container.antt =====
-- What internal/runner/runner.go makes of a test case without a URL to test, in a container.
use spec_torture.Base.{
  ◌≡◌, refl, ◌⊎◌, inl, inr, String, true, none, some, List, [], ◌∷◌, contains, Option-cases,
}
use spec_torture.Schema.Spec.{Step, TestCase}
use spec_torture.Runner.Run.Cases.{
  CaseError, CaseResult, finished, run_legacy, failed_case, Docker, run_test_case_docker,
}
use spec_torture.Runner.Run.Cases.Verdict.{statuses}
use spec_torture.Runner.Run.{StepError, StepResult, execute_step_legacy}

abbrev pub HasKnown : CaseResult → Type 0
HasKnown r = contains statuses r.status ≡ true

-- In a container no step can be executed: the first is an error, and the rest is not looked at.
abbrev pub FailsAtOnce : List Step → CaseResult → Type 0
FailsAtOnce [] r = (r.status ≡ "pass") × (r.steps ≡ []) × (r.error ≡ none)
FailsAtOnce (s ∷ ss) r =
    (sr : StepResult) × (r.status ≡ "error")
    × (r.steps ≡ sr ∷ [])
    × (sr.step_index ≡ 0)
    × (sr.action ≡ s.action)
    × (sr.error ≡ some StepError.not_implemented)

-- What a test case comes to without a URL to test.
abbrev pub DockerAnswers : Docker → TestCase → CaseResult → Type 0
DockerAnswers none tc r = r ≡ failed_case tc CaseError.no_docker
DockerAnswers (some start_container) tc r =
    (start_container tc ≡ none) × (r ≡ failed_case tc CaseError.no_container)
    ⊎ ((container : String) × (start_container tc ≡ some container) × FailsAtOnce tc.steps r)

legacy_known : (tc : TestCase) (ss : List Step) → HasKnown (finished tc (run_legacy ss 0))
unfolding run_legacy execute_step_legacy
legacy_known tc [] = refl
legacy_known tc (s ∷ ss) = refl

legacy-FailsAtOnce :
    (tc : TestCase) (ss : List Step) → FailsAtOnce ss (finished tc (run_legacy ss 0))
unfolding run_legacy execute_step_legacy
legacy-FailsAtOnce tc [] = (refl, refl, refl)
legacy-FailsAtOnce tc (s ∷ ss) = (_, refl, refl, refl, refl, refl)

pub docker_known :
    (docker : Docker) (tc : TestCase)
    → HasKnown (run_test_case_docker docker tc)
      × ((run_test_case_docker docker tc).test_case_id ≡ tc.id)
      × DockerAnswers docker tc (run_test_case_docker docker tc)
unfolding run_test_case_docker
docker_known none tc = (refl, refl, refl)
docker_known (some start_container) tc = elim (Option-cases (start_container tc)) [
  | inl e ↦ rw (run_test_case_docker, e) (refl, refl, inl (refl, refl))
  | inr (container, e) ↦
      rw (run_test_case_docker, e)
        (legacy_known tc tc.steps, refl, inr (container, refl, legacy-FailsAtOnce tc tc.steps))
]
