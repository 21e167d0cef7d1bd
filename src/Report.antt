-- ===== src/Report.antt =====
-- internal/report/report.go: a test run as a table. What `fmt` prints of times, durations and the
-- percentage is given.
use spec_torture.Base.{ℕ, String, List, [], ◌∷◌, ◌==◌, ltb, if◌then◌else◌}
use spec_torture.Base.Text.{concat, decimal}
use spec_torture.Schema.Result.{TestResult, Summary}

-- The fields of a run that the report shows, the texts as printed.
pub record RunInfo : Type 0 where
  pub id : String
  pub spec_id : String
  pub runtime : String
  pub runtime_version : String
  pub started_at : String
  pub completed_at : String
  pub compliance : String

-- `statusEmoji`
unfoldable pub status_emoji : String → String
status_emoji s =
    if s == "pass"
    then "PASS"
    else if s == "fail"
    then "FAIL"
    else if s == "error"
    then "ERR "
    else if s == "skip"
    then "SKIP"
    else if s == "timeout"
    then "TIME"
    else "????"

unfoldable pub concat_all : List String → String
unfolding concat
concat_all [] = ""
concat_all (s ∷ ss) = concat s (concat_all ss)

abbrev heading : RunInfo → List String
heading r =
    "# Test Run: " ∷ r.id ∷ "\n\n**Spec:** " ∷ r.spec_id ∷ "  \n**Runtime:** " ∷ r.runtime ∷ " "
    ∷ r.runtime_version ∷ "  \n**Started:** " ∷ r.started_at ∷ "  \n**Completed:** "
    ∷ r.completed_at ∷ "  \n\n" ∷ []

abbrev count_row : String → ℕ → String
count_row name n = concat_all ("| " ∷ name ∷ " | " ∷ decimal n ∷ " |\n" ∷ [])

abbrev summary_rows : Summary → String → List String
summary_rows s compliance =
    "## Summary\n\n"
    ∷ "| Metric | Count |\n"
    ∷ "|--------|-------|\n"
    ∷ count_row "Total" s.total
    ∷ count_row "Passed" s.passed
    ∷ count_row "Failed" s.failed
    ∷ count_row "Errors" s.errors
    ∷ count_row "Skipped" s.skipped
    ∷ count_row "Timeouts" s.timeouts
    ∷ "| **Compliance** | **"
    ∷ compliance
    ∷ "%** |\n\n"
    ∷ []

-- `cut` is the slice of the first 80 bytes, `size` the number of bytes, `shown` how a duration prints.
module _ (size : String → ℕ) (cut : String → String) (shown : ℕ → String) where
  -- an error message of more than 80 bytes is cut
  unfoldable pub short_message : String → String
  unfolding concat
  short_message message = if ltb 80 (size message) then concat (cut message) "..." else message

  unfoldable pub result_row : TestResult → String
  unfolding short_message status_emoji concat_all
  result_row r = concat_all (
      "| "
      ∷ r.test_case_id
      ∷ " | "
      ∷ status_emoji r.status
      ∷ " "
      ∷ r.status
      ∷ " | "
      ∷ shown r.duration
      ∷ " | "
      ∷ short_message r.error_message
      ∷ " |\n"
      ∷ [])

  unfoldable pub result_rows : List TestResult → String
  unfolding result_row concat
  result_rows [] = ""
  result_rows (r ∷ rs) = concat (result_row r) (result_rows rs)

  -- `writeMarkdown`, as the text that is written
  unfoldable pub write_markdown : RunInfo → Summary → List TestResult → String
  unfolding result_rows concat_all concat decimal
  write_markdown info s rs = concat (concat_all (heading info)) (
      concat (concat_all (summary_rows s info.compliance)) (
        concat
          "## Results\n\n| Test Case | Status | Duration | Error |\n|-----------|--------|----------|-------|\n"
          (result_rows rs)))
