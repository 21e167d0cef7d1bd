-- ===== src/Schema/Result.antt =====
-- internal/schema/result.go: the summary of a test run. `Status` is a text, as in the source.
pub mod Counts
use spec_torture.Base.{
  ℕ, zero, suc, ◌+◌, ◌-◌, String, Bool, Option, none, some, List, [], ◌∷◌, ◌==◌, length, ltb,
  if◌then◌else◌,
}

-- The fields of a result that the summary and the report read.
pub record TestResult : Type 0 where
  pub test_case_id : String
  pub status : String
  pub duration : ℕ
  pub error_message : String

-- `compliance` is the fraction `passed / applicable` of which the source takes a percentage; `none`
-- is the 0 that it starts from.
pub record Summary : Type 0 where
  pub total : ℕ
  pub passed : ℕ
  pub failed : ℕ
  pub errors : ℕ
  pub skipped : ℕ
  pub timeouts : ℕ
  pub compliance : Option (ℕ × ℕ)

-- the `switch` of the loop
unfoldable pub tally : String → Summary → Summary
tally st s =
    if st == "pass"
    then record s { passed = s.passed + 1 }
    else if st == "fail"
    then record s { failed = s.failed + 1 }
    else if st == "error"
    then record s { errors = s.errors + 1 }
    else if st == "skip"
    then record s { skipped = s.skipped + 1 }
    else if st == "timeout"
    then record s { timeouts = s.timeouts + 1 }
    else s

unfoldable pub tally_all : List TestResult → Summary → Summary
tally_all [] s = s
tally_all (r ∷ rs) s = tally_all rs (tally r.status s)

-- `applicable` is never negative: no more results are skipped than there are
unfoldable pub with_compliance : Summary → Summary
with_compliance s =
    let applicable = s.total - s.skipped in
    if ltb 0 applicable then record s { compliance = some (s.passed, applicable) } else s

abbrev pub start : ℕ → Summary
start n = record {
  total = n;
  passed = 0;
  failed = 0;
  errors = 0;
  skipped = 0;
  timeouts = 0;
  compliance = none;
}

-- `ComputeSummary`
unfoldable pub compute_summary : List TestResult → Summary
compute_summary rs = with_compliance (tally_all rs (start (length rs)))
