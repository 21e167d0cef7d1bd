-- ===== src/Schema/Tests.antt =====
-- Validation and summaries on small inputs.
use spec_torture.Base.{
  ◌≡◌, ◌≤◌, ◌<◌, ◌-◌, refl, ◌↔◌, ◌⊎◌, String, none, some, List, [], ◌∷◌, length,
}
use spec_torture.Schema.Spec.{Step, TestCase, Spec, validate}
use spec_torture.Schema.Spec.Valid.{IsValid, validate_iff}
use spec_torture.Schema.Result.{TestResult, compute_summary, with_compliance, tally_all, tally}
use spec_torture.Base.Text.{concat}
use spec_torture.Report.{result_rows, result_row, short_message, status_emoji, concat_all}
use spec_torture.Schema.Result.Counts.{
  IsSummaryOf, count_of, compute_summary_counts, compliance_bounds,
}

abbrev step : Step
step = record { action = "send"; payload = []; expect = []; timeout = 0 }

abbrev test_case : TestCase
test_case = record {
  id = "t-1";
  name = "first";
  description = "";
  severity = "required";
  category = "";
  steps = step ∷ [];
  timeout = 0;
  tags = [];
}

abbrev spec : Spec
spec = record {
  id = "s";
  name = "spec";
  version = "1";
  description = "";
  source_url = "";
  transport = "grpc";
  test_cases = test_case ∷ [];
}

accepted : validate spec ≡ []
unfolding validate
accepted = refl

-- a second test case with the same id
rejected : length (validate (record spec { test_cases = test_case ∷ test_case ∷ [] })) ≡ 1
unfolding validate
rejected = refl

validate_iff_example : (validate spec ≡ []) ↔ IsValid spec
validate_iff_example = validate_iff spec

abbrev result : String → TestResult
result status = record { test_case_id = "t-1"; status = status; duration = 0; error_message = "" }

abbrev results : List TestResult
results = result "pass" ∷ result "fail" ∷ result "skip" ∷ []

half : (compute_summary results).compliance ≡ some (1, 2)
unfolding compute_summary with_compliance tally_all tally
half = refl

compute_summary_counts_example : IsSummaryOf results (compute_summary results)
compute_summary_counts_example = compute_summary_counts results

compliance_bounds_example :
    ((compute_summary results).compliance ≡ none) × (count_of "skip" results ≡ length results)
    ⊎ ((compute_summary results).compliance
        ≡ some (count_of "pass" results, length results - count_of "skip" results))
      × (count_of "pass" results ≤ length results - count_of "skip" results)
      × (0 < length results - count_of "skip" results)
compliance_bounds_example = compliance_bounds results

rows :
    result_rows (λ s. 4) (λ s. s) (λ n. "1s") (result "pass" ∷ result "new" ∷ [])
    ≡ "| t-1 | PASS pass | 1s |  |\n| t-1 | ???? new | 1s |  |\n"
unfolding result_rows result_row short_message status_emoji concat_all concat
rows = refl
