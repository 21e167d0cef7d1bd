-- ===== src/Runner/Tests.antt =====
-- The runner against a host that answers in a fixed way, and its theorems at such inputs.
use spec_torture.Base.{
  ℕ, zero, suc, ◌≡◌, refl, ◌⊎◌, ◌↔◌, String, true, false, Option, none, some, List, [], ◌∷◌, ◌++◌,
  eqb, ◌==◌, arith, ◌+◌, eq_iff, if◌then◌else◌,
}
use spec_torture.Base.Int.{ℤ, pos, negsuc}
use spec_torture.Base.Dict.{Dict, lookup}
use spec_torture.Base.Text.{concat}
use spec_torture.Value.{Value, text, int, obj, field, no_fields}
use spec_torture.Schema.Spec.{Step, TestCase, Spec}
use spec_torture.Runner.Evaluator.{Formats}
use spec_torture.Runner.Host.{Host, HttpRequest, HttpReply}
use spec_torture.Runner.Transport.{Response, interpolate_value, resolve_json_path}
use spec_torture.Runner.Transport.Refs.{interpolate_value-ref}
use spec_torture.Runner.Transport.Expect.{match_expect}
use spec_torture.Runner.Transport.Expect.Meets.{Meets, match_expect_iff}
use spec_torture.Runner.Http.{Link, poll}
use spec_torture.Runner.JsonRpc.Stream.Printed.{decoded}
use spec_torture.Runner.JsonRpc.Stream.Text.{
  printed_text, scan_text, parse_stream, parse_stream-printed_text,
}
use spec_torture.Runner.Run.{RunConfig, Transport}
use spec_torture.Runner.Run.Cases.{
  CaseError, create_transport, failed_case, run_test_case_http, run,
}
use spec_torture.Runner.Run.Cases.Verdict.{IsVerdictOf, run_test_case_http-IsVerdictOf}
use spec_torture.Runner.Run.Cases.Whole.{AllAnswer, run_lem}
use spec_torture.Mock.Lifecycle.{new_arp_state, drop_project, handle_project_by_name}
use spec_torture.Mock.Lifecycle.Agents.{
  stop_mock_agent, restart_mock_agent, get_agent, handle_agent_by_id,
}
use spec_torture.Mock.Lifecycle.Workspaces.{drop_workspace, handle_workspace_by_name}
use spec_torture.Runner.Mcp.{http_payload}
use spec_torture.Runner.Mcp.Paths.{as_request}
use spec_torture.Runner.Mcp.Paths.Served.{IsPath, agent_tools_served, name_tools_served}
use spec_torture.Runner.JsonRpc.Stream.Streamed.{map_of}
use spec_torture.Mock.Server.{RpcRequest, MockServer, HttpCall, stream_values, handle_rpc}
use spec_torture.Mock.Server.Answers.{Serves, handle_rpc-Serves}

abbrev shown : Value → String
shown (text s) = s
shown _ = "?"

abbrev bits : ℤ → ℕ
bits (pos n) = n
bits (negsuc n) = 0

abbrev formats : Formats
formats = record { of_int = bits; parse = λ s. none; near = eqb; same = eqb; shown = shown }

-- `busy` and `ready` stand for the bodies {"status": "busy"} and {"status": "ready"}.
abbrev parsed : String → Option (Option (Dict Value))
parsed s =
    if s == "busy"
    then some (some (("status", text "busy") ∷ []))
    else if s == "ready"
    then some (some (("status", text "ready") ∷ []))
    else none

abbrev answer : ℕ → HttpReply
answer zero = record { status = pos 200; headers = []; body = some "busy"; partial = "" }
answer (suc n) = record { status = pos 200; headers = []; body = some "ready"; partial = "" }

abbrev host : Host
host = record {
  formats = formats;
  truncate = pos;
  int64_of = λ s. pos 0;
  lower = λ s. s;
  canonical = λ s. s;
  parse_object = parsed;
  parse_array = λ s. none;
  marshal = λ v. some "{}";
  is_request = λ m u. true;
  exchange = λ n r. some (answer n);
  stream = λ n. ([], true);
  parse_duration = λ s. some (pos 1);
  wait = λ n d. true;
  now = λ n. n;
}

abbrev response : Response
response = record {
  http_status = pos 200;
  headers = ("content-type", "application/json") ∷ [];
  body = some (("status", text "ready") ∷ []);
  body_array = none;
  raw_body = "ready";
  sse_events = [];
  jsonrpc_resp = none;
  parsed = none;
}

abbrev last_body : Dict Value
last_body = ("id", text "agent-001") ∷ []

interpolate_value-ref_example :
    interpolate_value shown last_body (text (concat "$prev." (String.◌∷◌ "i" "d")))
    ≡ text (shown (resolve_json_path last_body (String.◌∷◌ "i" "d")))
interpolate_value-ref_example = interpolate_value-ref shown last_body "i" "d" refl (refl, tt)

abbrev expected : Dict Value
expected = ("http_status", int (pos 200)) ∷ ("body", obj (field "status" (text "*") no_fields)) ∷ []

match_expect_iff_example :
    (match_expect host response expected ≡ none) ↔ Meets host response expected
match_expect_iff_example = match_expect_iff host response expected

abbrev request : HttpRequest
request = record { method = "GET"; url = "http://localhost/a"; body = none; headers = [] }

abbrev fresh_link : Link
fresh_link = record { base_url = "http://localhost"; last_response = none; asked = 0; waits = 0 }

-- a poll against this host asks twice
polled_twice : (poll host request (pos 1) 3 none fresh_link).1.asked ≡ 2
unfolding poll
polled_twice = refl

parse_stream-printed_text_example :
    parse_stream host (concat (printed_text ("busy" ∷ "bad" ∷ [])) "data: bu") false
    ≡ decoded host ("busy" ∷ "bad" ∷ []) ++ parse_stream host "data: bu" false
unfolding concat
parse_stream-printed_text_example =
    parse_stream-printed_text host ("busy" ∷ "bad" ∷ []) "data: bu" false (
      ((refl, refl, (refl, refl, (refl, refl, (refl, refl, tt)))), refl),
      (((refl, refl, (refl, refl, (refl, refl, tt))), refl), tt),
    )

-- an event with a line break in it is cut there
cut_event : scan_text "" (printed_text ("a\nb" ∷ [])) ≡ "data: a" ∷ "b" ∷ "" ∷ []
unfolding scan_text printed_text concat
cut_event = refl

abbrev step_of : String → Dict Value → Dict Value → Step
step_of action payload expect = record {
  action = action;
  payload = payload;
  expect = expect;
  timeout = 0;
}

abbrev case_of : String → List Step → List String → TestCase
case_of id steps tags = record {
  id = id;
  name = id;
  description = "";
  severity = "required";
  category = "";
  steps = steps;
  timeout = 0;
  tags = tags;
}

abbrev send_and_expect : TestCase
send_and_expect =
    case_of "a" (step_of "send" [] [] ∷ step_of "expect" [] expected ∷ []) ("smoke" ∷ [])

abbrev expect_first : TestCase
expect_first = case_of "b" (step_of "expect" [] expected ∷ step_of "send" [] [] ∷ []) ("slow" ∷ [])

abbrev config : RunConfig
config = record { base_url = "http://localhost"; rpc_path = ""; tags = "smoke" ∷ [] }

abbrev spec : Spec
spec = record {
  id = "s";
  name = "s";
  version = "1";
  description = "";
  source_url = "";
  transport = "http-rest";
  test_cases = send_and_expect ∷ expect_first ∷ [];
}

run_test_case_http-IsVerdictOf_example :
    ((t : Transport) × (create_transport "http-rest" config.base_url config.rpc_path ≡ some t)
      × IsVerdictOf host t expect_first (run_test_case_http host "http-rest" config expect_first))
    ⊎ ((create_transport "http-rest" config.base_url config.rpc_path ≡ none)
        × (run_test_case_http host "http-rest" config expect_first
            ≡ failed_case expect_first CaseError.unsupported_transport))
run_test_case_http-IsVerdictOf_example =
    run_test_case_http-IsVerdictOf host "http-rest" config expect_first

run_lem_example :
    AllAnswer
      (λ i. host)
      none
      "http-rest"
      config
      0
      spec.test_cases
      (run (λ i. host) none spec config).results
    × ((run (λ i. host) none spec config).summary.total ≡ 2)
    × (let s = (run (λ i. host) none spec config).summary in
        s.passed + s.failed + s.errors + s.skipped + s.timeouts ≡ s.total)
run_lem_example = run_lem (λ i. host) none spec config

abbrev arguments : Dict Value
arguments = ("agent_id", text "agent-001") ∷ ("name", text "demo") ∷ []

agent_tools_served_example :
    (handle_agent_by_id new_arp_state (as_request (http_payload shown "agent/stop" arguments))
      ≡ stop_mock_agent "agent-001" new_arp_state (lookup "agent-001" new_arp_state.agents))
    × (handle_agent_by_id new_arp_state (as_request (http_payload shown "agent/restart" arguments))
        ≡ restart_mock_agent "agent-001" new_arp_state (lookup "agent-001" new_arp_state.agents))
    × (handle_agent_by_id new_arp_state (as_request (http_payload shown "agent/status" arguments))
        ≡ (get_agent "agent-001" (lookup "agent-001" new_arp_state.agents), new_arp_state))
unfolding lookup
agent_tools_served_example =
    agent_tools_served shown arguments (text "agent-001") new_arp_state refl
      (refl, (refl, (refl, (refl, (refl, (refl, (refl, (refl, (refl, tt)))))))))

name_tools_served_example :
    (handle_project_by_name new_arp_state
        (as_request (http_payload shown "project/unregister" arguments))
      ≡ drop_project new_arp_state "demo" (lookup "demo" new_arp_state.projects))
    × (handle_workspace_by_name new_arp_state
          (as_request (http_payload shown "workspace/destroy" arguments))
        ≡ drop_workspace new_arp_state "demo" (lookup "demo" new_arp_state.workspaces))
    × IsPath (as_request (http_payload shown "project/unregister" arguments)).path
    × IsPath (as_request (http_payload shown "workspace/destroy" arguments)).path
unfolding lookup
name_tools_served_example =
    name_tools_served shown arguments (text "demo") new_arp_state refl
      (λ e. absurd (ground (arith, eq_iff "demo" ""))) (refl, (refl, (refl, (refl, tt))))

-- the JSON of an event, reduced to the key of its result
abbrev marshal : Value → String
marshal (obj (field a v (field b w (field c (obj (field kind x fs)) gs)))) = kind
marshal v = ""

abbrev parse_event : String → Option (Option (Dict Value))
parse_event s = elim (stream_values (text "1")) [
  | [] ↦ none
  | first ∷ rest ↦ if s == "statusUpdate" then some (map_of host first) else elim rest [
    | [] ↦ none
    | second ∷ more ↦ if s == "task" then some (map_of host second) else none
  ]
]

abbrev event_host : Host
event_host = record host { parse_object = parse_event }

abbrev decode : String → Option RpcRequest
decode s =
    if s == "call"
    then some (record { jsonrpc = "2.0"; id = text "1"; method = "GetTask"; params = none })
    else none

abbrev mock_server : MockServer
mock_server = record { requests = []; handlers = []; stream_handlers = [] }

abbrev rpc_call : HttpCall
rpc_call = record { method = "POST"; path = "/"; accept = ""; body = some "call" }

handle_rpc-Serves_example :
    Serves decode marshal mock_server rpc_call (handle_rpc decode marshal mock_server rpc_call)
handle_rpc-Serves_example = handle_rpc-Serves decode marshal mock_server rpc_call
