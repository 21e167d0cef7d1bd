-- ===== src/Schema/Spec.antt =====
-- internal/schema/spec.go and testcase.go: validation. `Transport`, `Severity` and `Action` are texts
-- in the source too, so that a file may hold any value.
pub mod Valid
use spec_torture.Base.{
  ℕ, zero, suc, ◌+◌, String, Bool, true, false, not, ◌&&◌, Option, none, some, List, [], ◌∷◌, ◌++◌,
  ◌==◌, contains, if◌then◌else◌,
}
use spec_torture.Base.Text.{concat, decimal}
use spec_torture.Base.Dict.{Dict}
use spec_torture.Value.{Value}

pub record Step : Type 0 where
  pub action : String
  pub payload : Dict Value
  pub expect : Dict Value
  pub timeout : ℕ

pub record TestCase : Type 0 where
  pub id : String
  pub name : String
  pub description : String
  pub severity : String
  pub category : String
  pub steps : List Step
  pub timeout : ℕ
  pub tags : List String

pub record Spec : Type 0 where
  pub id : String
  pub name : String
  pub version : String
  pub description : String
  pub source_url : String
  pub transport : String
  pub test_cases : List TestCase

pub record ValidationError : Type 0 where
  pub field : String
  pub message : String

-- `errs = append(errs, &ValidationError{…})`, unless the test holds
unfoldable pub check : Bool → String → String → List ValidationError
check true field message = []
check false field message = record { field = field; message = message } ∷ []

abbrev pub severities : List String
severities = "required" ∷ "recommended" ∷ "optional" ∷ []

abbrev pub actions : List String
actions = "send" ∷ "expect" ∷ "wait" ∷ "assert" ∷ "exec" ∷ "mcp_tool_call" ∷ []

abbrev pub transports : List String
transports = "jsonrpc-stdio" ∷ "jsonrpc-http" ∷ "http-rest" ∷ "grpc" ∷ "mcp-and-http" ∷ []

abbrev pub is_empty {ℓ} : {A : Type ℓ} → List A → Bool
is_empty [] = true
is_empty (x ∷ xs) = false

-- test_case[id] and what follows
unfoldable pub case_field : String → String → String
unfolding concat
case_field id rest = concat "test_case[" (concat id (concat "]" rest))

unfoldable pub validate_steps : String → ℕ → List Step → List ValidationError
unfolding check case_field decimal
validate_steps id i [] = []
validate_steps id i (s ∷ ss) =
    check (contains actions s.action)
      (case_field id (concat ".steps[" (concat (decimal i) "].action")))
      "must be one of: send, expect, wait, assert, exec, mcp_tool_call"
    ++ validate_steps id (suc i) ss

unfoldable pub validate_case : TestCase → List ValidationError
unfolding validate_steps
validate_case tc =
    check (not (tc.id == "")) "test_case.id" "must not be empty"
    ++ (check (not (tc.name == "")) (case_field tc.id ".name") "must not be empty"
        ++ (check (not (not (tc.severity == "") && not (contains severities tc.severity)))
              (case_field tc.id ".severity") "must be one of: required, recommended, optional"
            ++ (check (not (is_empty tc.steps)) (case_field tc.id ".steps")
                  "must have at least one step"
                ++ validate_steps tc.id 0 tc.steps)))

-- the loop over the test cases, with the ids already seen
unfoldable pub validate_cases : List String → List TestCase → List ValidationError
unfolding validate_case
validate_cases seen [] = []
validate_cases seen (tc ∷ tcs) =
    check (not (contains seen tc.id)) "test_cases" (concat "duplicate test case id: " tc.id)
    ++ (validate_case tc ++ validate_cases (tc.id ∷ seen) tcs)

unfoldable pub validate : Spec → List ValidationError
unfolding validate_cases
validate s =
    check (not (s.id == "")) "id" "must not be empty"
    ++ (check (not (s.name == "")) "name" "must not be empty"
        ++ (check (not (s.version == "")) "version" "must not be empty"
            ++ (check (not (s.transport == "")) "transport" "must not be empty"
                ++ (check (not (not (s.transport == "") && not (contains transports s.transport)))
                      "transport"
                      "must be one of: jsonrpc-stdio, jsonrpc-http, http-rest, grpc, mcp-and-http"
                    ++ (check (not (is_empty s.test_cases)) "test_cases"
                          "must have at least one test case"
                        ++ validate_cases [] s.test_cases)))))
