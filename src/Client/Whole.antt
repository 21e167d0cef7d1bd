-- ===== src/Client/Whole.antt =====
-- What the results of a run of internal/clientrunner/runner.go are, and their summary.
use spec_torture.Base.{◌≡◌, ◌⊎◌, String, true, false, Option, none, some, List, [], ◌∷◌, contains}
use spec_torture.Schema.Result.{TestResult}
use spec_torture.Runner.Run.Cases.Verdict.{statuses}
use spec_torture.Mock.Server.{MockServer}
use spec_torture.Client.{ClientCase, is_filtered}

-- the status for what a test returns
abbrev pub status_for : Option String → String
status_for none = "pass"
status_for (some e) = "fail"

-- The status of a case that is run: with a test, that of its answer on a mock server without a record.
abbrev pub TestedAs : Option (MockServer → Option String × MockServer) → String → Type 0
TestedAs none status = status ≡ "error"
TestedAs (some test) status =
    (m : MockServer) × (m.requests ≡ []) × (status ≡ status_for (test m).0)

abbrev pub AnswersCase : List String → ClientCase → TestResult → Type 0
AnswersCase tags tc r =
    (r.test_case_id ≡ tc.id)
    × (contains statuses r.status ≡ true)
    × ((is_filtered tags tc ≡ true) × (r.status ≡ "skip")
        ⊎ (is_filtered tags tc ≡ false) × TestedAs tc.test r.status)

abbrev pub AllAnswered : List String → List ClientCase → List TestResult → Type 0
AllAnswered tags [] [] = Unit
AllAnswered tags (tc ∷ tcs) (r ∷ rs) = AnswersCase tags tc r × AllAnswered tags tcs rs
AllAnswered tags _ _ = ⊥
