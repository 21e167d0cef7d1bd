-- ===== src/Client.antt =====
-- internal/clientrunner: tests of clients against the mock server. Times, ids and the log are left out,
-- and of the checks' errors the text.
pub mod Driver
pub mod Paths
pub mod Whole
mod Tests
use Prim.Native.Char.{code}
use spec_torture.Base.{
  ℕ, zero, suc, ◌+◌, ◌-◌, String, Bool, true, false, not, ◌&&◌, ◌||◌, Option, none, some, List, [],
  ◌∷◌, ◌==◌, any, contains, eqb, if◌then◌else◌,
}
use spec_torture.Base.Dict.{Dict, lookup}
use spec_torture.Base.Text.{concat}
use spec_torture.Base.Strings.{has_prefix}
use spec_torture.Value.{Value, null, text, obj, fields, of_fields}
use spec_torture.Schema.Spec.{is_empty}
use spec_torture.Schema.Result.{TestResult, Summary, compute_summary}
use spec_torture.Mock.Server.{Recorded, MockServer, requests_by_method, reset}

-- `TestCase`: the test gets the mock server, which its driver calls, and may return an error.
pub record ClientCase : Type 0 where
  pub id : String
  pub tags : List String
  pub test : Option (MockServer → Option String × MockServer)

abbrev result_of : String → String → String → TestResult
result_of id status message = record {
  test_case_id = id;
  status = status;
  duration = 0;
  error_message = message;
}

abbrev pub tested : String → Option String × MockServer → TestResult × MockServer
tested id (none, m) = (result_of id "pass" "", m)
tested id (some e, m) = (result_of id "fail" e, m)

-- `runTest`
unfoldable pub run_test : ClientCase → MockServer → TestResult × MockServer
unfolding reset
run_test tc m = elim tc.test [
  | none ↦ (result_of tc.id "error" "test has no Run function", reset m)
  | some test ↦ tested tc.id (test (reset m))
]

-- `len(tags) > 0 && !matchesTags(tc.Tags, tags)`
unfoldable pub is_filtered : List String → ClientCase → Bool
is_filtered tags tc = not (is_empty tags) && not (any (contains tc.tags) tags)

-- a case, skipped or run
unfoldable pub run_one : List String → ClientCase → MockServer → TestResult × MockServer
unfolding run_test is_filtered
run_one tags tc m = if is_filtered tags tc then (result_of tc.id "skip" "", m) else run_test tc m

unfoldable pub run_tests : List String → List ClientCase → MockServer → List TestResult × MockServer
unfolding run_one
run_tests tags [] m = ([], m)
run_tests tags (tc ∷ tcs) m =
    let (r, m') = run_one tags tc m in let (rs, last) = run_tests tags tcs m' in (r ∷ rs, last)

-- `Run`, with the summary
unfoldable pub run_client : List String → List ClientCase → MockServer → List TestResult × Summary
unfolding run_tests compute_summary
run_client tags tcs m = let (rs, last) = run_tests tags tcs m in (rs, compute_summary rs)

-- a part that is not empty
abbrev pub finish : String → List String → List String
finish String.[] parts = parts
finish (String.◌∷◌ c part) parts = String.◌∷◌ c part ∷ parts

-- the loop of `splitPath`, with the part that is being read
unfoldable pub split_from : String → String → List String
unfolding concat
split_from current String.[] = finish current []
split_from current (String.◌∷◌ c s) =
    let next = split_from "" s in
    let more = split_from (concat current (String.◌∷◌ c "")) s in
    if eqb (code c) b'.' then finish current next else more

-- `splitPath`
unfoldable pub split_path : String → List String
unfolding split_from
split_path path = split_from "" path

abbrev or_null : Option Value → Value
or_null none = null
or_null (some v) = v

unfoldable pub walk : Value → List String → Value
unfolding lookup
walk v [] = v
walk (obj fs) (p ∷ ps) = walk (or_null (lookup p (fields fs))) ps
walk v (p ∷ ps) = null

-- `resolveJSONPath`, which goes into maps only
unfoldable pub resolve_path : Dict Value → String → Value
unfolding split_path walk
resolve_path d path = walk (obj (of_fields d)) (split_path path)

pub data CheckError : Type 0 where
  no_request not_json no_field other_value wrong_version no_id no_method no_content_type
        other_type :
      CheckError

-- `RequireRequestMethod`
unfoldable pub require_request_method : MockServer → String → Option CheckError
unfolding requests_by_method
require_request_method m method =
    if is_empty (requests_by_method method m) then some CheckError.no_request else none

abbrev is_wildcard : Value → Bool
is_wildcard (text s) = s == "*"
is_wildcard v = false

abbrev pub or_empty : Option (Dict Value) → Dict Value
or_empty none = []
or_empty (some m) = m

abbrev text_or_empty : Option Value → String
text_or_empty (some (text s)) = s
text_or_empty _ = ""

abbrev when_missing : CheckError → Option Value → Option CheckError → Option CheckError
when_missing e none rest = some e
when_missing e (some v) rest = rest

-- `parse` is json.Unmarshal into a map, `shown` is `fmt.Sprintf("%v", …)`.
module _ (parse : String → Option (Option (Dict Value))) (shown : Value → String) where
  abbrev compared : Value → Value → Option CheckError
  compared null expected = some CheckError.no_field
  compared actual expected =
      if is_wildcard expected
      then none
      else if shown expected == shown actual
      then none
      else some CheckError.other_value

  -- `RequireRequestField`
  unfoldable pub require_request_field : Recorded → String → Value → Option CheckError
  unfolding resolve_path
  require_request_field r path expected = elim (parse r.raw_body) [
    | none ↦ some CheckError.not_json
    | some m ↦ compared (resolve_path (or_empty m) path) expected
  ]

  abbrev envelope : Dict Value → Option CheckError
  envelope d =
      if text_or_empty (lookup "jsonrpc" d) == "2.0"
      then when_missing CheckError.no_id (lookup "id" d)
          (when_missing CheckError.no_method (lookup "method" d) none)
      else some CheckError.wrong_version

  -- `RequireJSONRPCEnvelope`
  unfoldable pub require_jsonrpc_envelope : Recorded → Option CheckError
  unfolding lookup
  require_jsonrpc_envelope r = elim (parse r.raw_body) [
    | none ↦ some CheckError.not_json
    | some m ↦ envelope (or_empty m)
  ]

-- `containsMediaType`
unfoldable pub contains_media_type : String → String → Bool
unfolding has_prefix
contains_media_type actual expected =
    not (actual == "") && (not (expected == "") && has_prefix actual expected)

-- `RequireContentType`, of the header's value
unfoldable pub require_content_type : String → String → Option CheckError
unfolding contains_media_type
require_content_type ct expected =
    if ct == ""
    then some CheckError.no_content_type
    else if not (ct == expected) && not (contains_media_type ct expected)
    then some CheckError.other_type
    else none
