-- ===== src/Runner/Mcp.antt =====
-- internal/runner/mcp_translator.go: a call of an MCP tool as a call of the REST interface.
pub mod Paths
use spec_torture.Base.{
  String, Bool, true, false, not, ◌&&◌, Option, none, some, List, [], ◌∷◌, ◌++◌, ◌==◌,
  if◌then◌else◌,
}
use spec_torture.Base.Dict.{Dict, lookup, insert, delete}
use spec_torture.Base.Text.{concat}
use spec_torture.Base.Strings.{join}
use spec_torture.Value.{Value, text, obj, Fields, fields, of_fields, no_fields, field}
use spec_torture.Runner.Host.{Host}
use spec_torture.Runner.Transport.{Response, interpolate_vars}

-- `mcpToolRoute`; the parameter is "" where there is none
pub record Route : Type 0 where
  pub method : String
  pub path : String
  pub body_from_args : Bool
  pub path_param : String
  pub query_params : List String

abbrev body_route : String → Route
body_route path = record {
  method = "POST";
  path = path;
  body_from_args = true;
  path_param = "";
  query_params = [];
}

abbrev param_route : String → String → String → Route
param_route method path param = record {
  method = method;
  path = path;
  body_from_args = false;
  path_param = param;
  query_params = [];
}

abbrev list_route : String → List String → Route
list_route path params = record {
  method = "GET";
  path = path;
  body_from_args = false;
  path_param = "";
  query_params = params;
}

-- `mcpToolRoutes`
abbrev pub mcp_tool_routes : Dict Route
mcp_tool_routes =
    ("project/register", body_route "/api/projects")
    ∷ ("project/unregister", param_route "DELETE" "/api/projects" "name")
    ∷ ("project/list", list_route "/api/projects" [])
    ∷ ("project/get", param_route "GET" "/api/projects" "name")
    ∷ ("workspace/create", body_route "/api/workspaces")
    ∷ ("workspace/destroy", param_route "DELETE" "/api/workspaces" "name")
    ∷ ("workspace/list", list_route "/api/workspaces" ("project" ∷ "status" ∷ []))
    ∷ ("workspace/get", param_route "GET" "/api/workspaces" "name")
    ∷ ("agent/spawn", body_route "/api/agents")
    ∷ ("agent/stop", param_route "POST" "/api/agents" "agent_id")
    ∷ ("agent/restart", param_route "POST" "/api/agents" "agent_id")
    ∷ ("agent/list", list_route "/api/agents" ("workspace" ∷ "status" ∷ "template" ∷ []))
    ∷ ("agent/status", param_route "GET" "/api/agents" "agent_id")
    ∷ (
      "agent/send_message",
      record (param_route "POST" "/a2a/agents" "agent_id") { body_from_args = true },
    )
    ∷ []

abbrev text_or_empty : Option Value → String
text_or_empty (some (text s)) = s
text_or_empty _ = ""

-- a nil map is replaced by an empty one
abbrev map_or_empty : Option Value → Dict Value
map_or_empty (some (obj fs)) = fields fs
map_or_empty _ = []

abbrev or_route : Option Route → String → Route
or_route (some r) tool = r
or_route none tool = body_route (concat "/api/" tool)

-- the route of a tool; an unknown one becomes a path
unfoldable pub route_of : String → Route
unfolding lookup concat
route_of tool = or_route (lookup tool mcp_tool_routes) tool

abbrev pub sub_action : String → String
sub_action tool =
    if tool == "agent/stop"
    then "/stop"
    else if tool == "agent/restart"
    then "/restart"
    else if tool == "agent/send_message"
    then "/message:send"
    else ""

-- len(m) > n
abbrev pub has_more_than_one : Dict Value → Bool
has_more_than_one (x ∷ y ∷ m) = true
has_more_than_one _ = false

abbrev pub has_some : Dict Value → Bool
has_some [] = false
has_some (x ∷ m) = true

-- the body and its header
abbrev pub with_body : Dict Value → Dict Value → Dict Value
with_body body payload =
    insert "headers" (obj (field "Content-Type" (text "application/json") no_fields))
      (insert "body" (obj (of_fields body)) payload)

module _ (shown : Value → String) where
  -- the value of a parameter after the path
  abbrev pub with_param : String → Option Value → String
  with_param path none = path
  with_param path (some v) = concat path (concat "/" (shown v))

  unfoldable pub param_path : Route → Dict Value → String
  unfolding concat lookup
  param_path r args =
      if r.path_param == "" then r.path else with_param r.path (lookup r.path_param args)

  -- the parts of the query that the arguments give
  unfoldable pub query_parts : List String → Dict Value → List String
  unfolding concat lookup
  query_parts [] args = []
  query_parts (q ∷ qs) args =
      let rest = query_parts qs args in
      elim (lookup q args) [ none ↦ rest | some v ↦ concat q (concat "=" (shown v)) ∷ rest ]

  abbrev pub with_query : String → List String → String
  with_query path [] = path
  with_query path (p ∷ ps) = concat path (concat "?" (join "&" (p ∷ ps)))

  -- the path of the call
  unfoldable pub call_path : String → Route → Dict Value → String
  unfolding param_path query_parts concat join
  call_path tool r args =
      with_query (concat (param_path r args) (sub_action tool)) (query_parts r.query_params args)

  -- all the arguments, where the route asks for them
  abbrev pub first_body : Route → Dict Value → Dict Value → Dict Value
  first_body r args payload =
      if r.body_from_args && has_some args then with_body args payload else payload

  -- the arguments but the one of the path, for a POST with a parameter
  abbrev pub second_body : Route → Dict Value → Dict Value → Dict Value
  second_body r args payload =
      let body = delete r.path_param args in
      if r.method == "POST"
        && (not (r.path_param == "") && (has_more_than_one args && has_some body))
      then with_body body payload
      else payload

  -- the payload of the HTTP step for a tool and its arguments
  unfoldable pub http_payload : String → Dict Value → Dict Value
  unfolding route_of call_path insert delete
  http_payload tool args =
      let r : Route = route_of tool in
      second_body r args (
        first_body r args
          (("http_method", text r.method) ∷ ("path", text (call_path tool r args)) ∷ []))

  -- `translateMCPToolCall`, as the payload of the step
  unfoldable pub translate_mcp_tool_call : Dict Value → Option Response → Dict Value
  unfolding http_payload interpolate_vars lookup
  translate_mcp_tool_call payload last =
      let payload' : Dict Value = interpolate_vars shown payload last in
      http_payload (text_or_empty (lookup "tool" payload'))
        (map_or_empty (lookup "arguments" payload'))
