-- ===== src/Schema/Result/Counts.antt =====
-- What the counts of a summary are.
use spec_torture.Base.{
  ℕ, ◌+◌, ◌-◌, ◌≡◌, ◌≤◌, ◌<◌, refl, ◌⊎◌, String, true, false, none, some, List, [], ◌∷◌, ◌==◌,
  arith, eq_iff, length, if◌then◌else◌, Bool-cases, inl, inr, subst, sym, ◌∙◌,
}
use spec_torture.Schema.Result.{
  TestResult, Summary, tally, tally_all, with_compliance, start, compute_summary,
}

-- 1 for the status, 0 for any other
abbrev pub one_if : String → String → ℕ
one_if wanted st = if st == wanted then 1 else 0

-- how many results have the status
abbrev pub count_of : String → List TestResult → ℕ
count_of wanted [] = 0
count_of wanted (r ∷ rs) = one_if wanted r.status + count_of wanted rs

-- The counts of `t` are those of `s` and `n` of each status.
record Adds (s : Summary) (n : String → ℕ) (t : Summary) : Type 0 where
  total : t.total ≡ s.total
  passed : t.passed ≡ s.passed + n "pass"
  failed : t.failed ≡ s.failed + n "fail"
  errors : t.errors ≡ s.errors + n "error"
  skipped : t.skipped ≡ s.skipped + n "skip"
  timeouts : t.timeouts ≡ s.timeouts + n "timeout"

abbrev Tallied : Summary → String → Type 0
Tallied s st = Adds s (λ wanted. one_if wanted st) (tally st s)

tallied :
    (s : Summary)
    → Tallied s "pass"
      × Tallied s "fail"
      × Tallied s "error"
      × Tallied s "skip"
      × Tallied s "timeout"
unfolding tally
tallied s = (omega arith, omega arith, omega arith, omega arith, omega arith)

Tallied-other :
    (s : Summary) (st : String)
    → (st == "pass") ≡ false
    → (st == "fail") ≡ false
    → (st == "error") ≡ false
    → (st == "skip") ≡ false
    → (st == "timeout") ≡ false
    → Tallied s st
unfolding tally
Tallied-other s st a b c d e = rw (a, b, c, d, e) (grind (arith, a, b, c, d, e))

tally_adds : (s : Summary) (st : String) → Tallied s st
tally_adds s st = elim (Bool-cases (st == "pass")) [
  | inl e ↦ known "pass" e (tallied s).0
  | inr a ↦ elim (Bool-cases (st == "fail")) [
    | inl e ↦ known "fail" e (tallied s).1
    | inr b ↦ elim (Bool-cases (st == "error")) [
      | inl e ↦ known "error" e (tallied s).2
      | inr c ↦ elim (Bool-cases (st == "skip")) [
        | inl e ↦ known "skip" e (tallied s).3
        | inr d ↦ elim (Bool-cases (st == "timeout")) [
          | inl e ↦ known "timeout" e (tallied s).4
          | inr e ↦ Tallied-other s st a b c d e
        ]
      ]
    ]
  ]
]
  where
    known : (k : String) → (st == k) ≡ true → Tallied s k → Tallied s st
    known k e t = subst (Tallied s) (sym ((eq_iff st k).0 e)) t

tally_all-Adds :
    (rs : List TestResult) (s : Summary) → Adds s (λ wanted. count_of wanted rs) (tally_all rs s)
unfolding tally_all
tally_all-Adds [] s = omega arith
tally_all-Adds (r ∷ rs) s =
    omega (arith, tally_adds s r.status, tally_all-Adds rs (tally r.status s))

compliance-tally : (st : String) (s : Summary) → (tally st s).compliance ≡ s.compliance
unfolding tally
compliance-tally st s = ground arith

compliance-tally_all :
    (rs : List TestResult) (s : Summary) → (tally_all rs s).compliance ≡ s.compliance
unfolding tally_all
compliance-tally_all [] s = refl
compliance-tally_all (r ∷ rs) s =
    compliance-tally_all rs (tally r.status s) ∙ compliance-tally r.status s

-- the results that no status of the switch names
abbrev pub others : List TestResult → ℕ
others rs =
    length rs
    - (count_of "pass" rs
        + count_of "fail" rs
        + count_of "error" rs
        + count_of "skip" rs
        + count_of "timeout" rs)

-- What `ComputeSummary` reports, field by field.
pub record IsSummaryOf (rs : List TestResult) (s : Summary) : Type 0 where
  pub total : s.total ≡ length rs
  pub passed : s.passed ≡ count_of "pass" rs
  pub failed : s.failed ≡ count_of "fail" rs
  pub errors : s.errors ≡ count_of "error" rs
  pub skipped : s.skipped ≡ count_of "skip" rs
  pub timeouts : s.timeouts ≡ count_of "timeout" rs

with_compliance_same :
    (rs : List TestResult) (s : Summary) → IsSummaryOf rs s → IsSummaryOf rs (with_compliance s)
unfolding with_compliance
with_compliance_same rs s h = ground arith

-- Each count of the summary is the number of the results with that status, and the total is the
-- number of all results.
pub compute_summary_counts : (rs : List TestResult) → IsSummaryOf rs (compute_summary rs)
unfolding compute_summary
compute_summary_counts rs =
    with_compliance_same rs _ (omega (arith, tally_all-Adds rs (start (length rs))))

one_status : (st : String) → one_if "pass" st + one_if "skip" st ≤ 1
one_status st = ground (arith, eq_iff st "pass", eq_iff st "skip", eq_iff "pass" "skip")

passed_skipped : (rs : List TestResult) → count_of "pass" rs + count_of "skip" rs ≤ length rs
passed_skipped [] = omega arith
passed_skipped (r ∷ rs) = omega (arith, one_status r.status, passed_skipped rs)

-- The compliance is a fraction between 0 and 1: the passed results over those that were not skipped,
-- of which there are at least as many; it is left at zero exactly when every result was skipped.
pub compliance_bounds :
    (rs : List TestResult)
    → ((compute_summary rs).compliance ≡ none) × (count_of "skip" rs ≡ length rs)
      ⊎ ((compute_summary rs).compliance
          ≡ some (count_of "pass" rs, length rs - count_of "skip" rs))
        × (count_of "pass" rs ≤ length rs - count_of "skip" rs)
        × (0 < length rs - count_of "skip" rs)
unfolding compute_summary with_compliance
compliance_bounds rs = ground (
  arith,
  tally_all-Adds rs (start (length rs)),
  compliance-tally_all rs (start (length rs)),
  passed_skipped rs,
)
