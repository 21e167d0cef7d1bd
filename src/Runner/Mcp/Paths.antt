-- ===== src/Runner/Mcp/Paths.antt =====
-- The calls that internal/runner/mcp_translator.go makes of MCP tools, as the mock server of
-- internal/mockserver/arp_lifecycle.go serves them.
pub mod Served
use Prim.Native.Char.{code}
use spec_torture.Base.{
  ℕ, ◌≡◌, ◌≢◌, refl, String, Bool, true, false, not, ◌&&◌, ◌||◌, Option, none, some, List, [], ◌∷◌,
  ◌==◌, arith, ap, sym, ◌∙◌, leb, eqb, eq_iff, Bool-cases, if◌then◌else◌, if_holds,
}
use spec_torture.Base.Dict.{Dict, lookup, insert, delete, lookup-insert}
use spec_torture.Base.Text.{concat, concat-nil}
use spec_torture.Base.Strings.{has_prefix, drop_as, trim_prefix, cut, with_letter}
use spec_torture.Value.{Value, text, obj, of_fields}
use spec_torture.Runner.Mcp.{
  Route, route_of, call_path, param_path, query_parts, with_body, first_body, second_body, has_some,
  has_more_than_one, http_payload,
}
use spec_torture.Mock.Lifecycle.{
  MockProject, MockWorkspace, MockAgent, ArpState, MockRequest, MockReply, text_or_empty,
  drop_project, get_project, handle_project_by_name,
}
use spec_torture.Mock.Lifecycle.Agents.{
  agent_path, get_agent, stop_mock_agent, restart_mock_agent, handle_agent_by_id,
}
use spec_torture.Mock.Lifecycle.Workspaces.{drop_workspace, handle_workspace_by_name}

-- a letter, a digit, `-`, `_` or `~`, which stand for themselves in a URL
abbrev pub is_plain_letter : ℕ → Bool
is_plain_letter c =
    (leb b'a' c && leb c b'z')
    || ((leb b'A' c && leb c b'Z')
        || ((leb b'0' c && leb c b'9') || (eqb c b'-' || (eqb c b'_' || eqb c b'~'))))

abbrev pub IsPlain : String → Type 0
IsPlain String.[] = Unit
IsPlain (String.◌∷◌ c s) = (is_plain_letter (code c) ≡ true) × IsPlain s

no_slash : (n : ℕ) → is_plain_letter n ≡ true → eqb n b'/' ≡ false
no_slash n h = ground arith

cut-plain : (s t : String) → IsPlain s → cut (concat s (concat "/" t)) "/" ≡ some (s, t)
unfolding cut concat has_prefix drop_as
cut-plain String.[] t p = refl
cut-plain (String.◌∷◌ c s) t (l, p) =
    rw (no_slash (code c) l) (ap (with_letter c) (cut-plain s t p))

cut-none : (s : String) → IsPlain s → cut s "/" ≡ none
unfolding cut has_prefix drop_as
cut-none String.[] p = refl
cut-none (String.◌∷◌ c s) (l, p) = rw (no_slash (code c) l) (ap (with_letter c) (cut-none s p))

-- the request that the payload of a step makes of the mock server; the handlers of one project,
-- workspace or agent read neither the body nor the query
abbrev pub as_request : Dict Value → MockRequest
as_request payload = record {
  method = text_or_empty (lookup "http_method" payload);
  path = text_or_empty (lookup "path" payload);
  query = [];
  body = none;
}

module _ (shown : Value → String) where
  abbrev pub Asks : String → String → Dict Value → Type 0
  Asks method path payload =
      (text_or_empty (lookup "http_method" payload) ≡ method)
      × (text_or_empty (lookup "path" payload) ≡ path)

  with_body-Asks :
      (method path : String) (body payload : Dict Value)
      → Asks method path payload
      → Asks method path (with_body body payload)
  with_body-Asks method path body payload (m, p) = (
    rw
        (
          lookup-insert "headers" "http_method" _ (insert "body" (obj (of_fields body)) payload),
          lookup-insert "body" "http_method" (obj (of_fields body)) payload,
        )
        m,
    rw
        (
          lookup-insert "headers" "path" _ (insert "body" (obj (of_fields body)) payload),
          lookup-insert "body" "path" (obj (of_fields body)) payload,
        )
        p,
  )

  -- the bodies change neither the method nor the path
  pub http_payload-Asks :
      (tool : String) (args : Dict Value)
      → Asks
          (route_of tool).method
          (call_path shown tool (route_of tool) args)
          (http_payload shown tool args)
  unfolding http_payload lookup
  http_payload-Asks tool args =
      let r : Route = route_of tool in
      let P : Dict Value → Type 0 = Asks r.method (call_path shown tool r args) in
      let first : P (first_body shown r args (start_of r tool args)) =
        if_holds P (r.body_from_args && has_some args) _ _
          (with_body-Asks r.method (call_path shown tool r args) args (start_of r tool args)
            (refl, refl))
          (refl, refl) in
      if_holds P
        (r.method == "POST"
          && (not (r.path_param == "")
              && (has_more_than_one args && has_some (delete r.path_param args))))
        _ _
        (with_body-Asks r.method (call_path shown tool r args) (delete r.path_param args)
          (first_body shown r args (start_of r tool args)) first)
        first
    where
      start_of : Route → String → Dict Value → Dict Value
      start_of r tool args =
          ("http_method", text r.method) ∷ ("path", text (call_path shown tool r args)) ∷ []

  -- the path of a call whose route takes the agent
  pub agent_call_path :
      (args : Dict Value) (v : Value)
      → lookup "agent_id" args ≡ some v
      → (call_path shown "agent/stop" (route_of "agent/stop") args
          ≡ concat "/api/agents/" (concat (shown v) (concat "/" "stop")))
        × (call_path shown "agent/restart" (route_of "agent/restart") args
            ≡ concat "/api/agents/" (concat (shown v) (concat "/" "restart")))
        × (call_path shown "agent/status" (route_of "agent/status") args
            ≡ concat "/api/agents/" (shown v))
  unfolding call_path param_path query_parts route_of concat
  agent_call_path args v e =
      (rw e refl, rw e refl, rw e (ap (concat "/api/agents/") (concat-nil (shown v))))

  -- the path of a call whose route takes a name
  pub name_call_path :
      (args : Dict Value) (v : Value)
      → lookup "name" args ≡ some v
      → (call_path shown "project/unregister" (route_of "project/unregister") args
          ≡ concat "/api/projects/" (shown v))
        × (call_path shown "workspace/destroy" (route_of "workspace/destroy") args
            ≡ concat "/api/workspaces/" (shown v))
  unfolding call_path param_path query_parts route_of concat
  name_call_path args v e = (
    rw e (ap (concat "/api/projects/") (concat-nil (shown v))),
    rw e (ap (concat "/api/workspaces/") (concat-nil (shown v))),
  )

pub agent_path-action :
    (id action : String)
    → IsPlain id
    → agent_path (concat "/api/agents/" (concat id (concat "/" action))) ≡ (id, action)
unfolding agent_path trim_prefix has_prefix drop_as concat
agent_path-action id action p = rw (cut-plain id action p) refl

pub agent_path-id : (id : String) → IsPlain id → agent_path (concat "/api/agents/" id) ≡ (id, "")
unfolding agent_path trim_prefix has_prefix drop_as concat
agent_path-id id p = rw (cut-none id p) refl

module _ (s : ArpState) (r : MockRequest) (id : String) where
  pub serves_stop :
      r.method ≡ "POST"
      → agent_path r.path ≡ (id, "stop")
      → handle_agent_by_id s r ≡ stop_mock_agent id s (lookup id s.agents)
  unfolding handle_agent_by_id
  serves_stop m p = rw (m, p) refl

  pub serves_restart :
      r.method ≡ "POST"
      → agent_path r.path ≡ (id, "restart")
      → handle_agent_by_id s r ≡ restart_mock_agent id s (lookup id s.agents)
  unfolding handle_agent_by_id
  serves_restart m p = rw (m, p) refl

  pub serves_status :
      r.method ≡ "GET"
      → agent_path r.path ≡ (id, "")
      → handle_agent_by_id s r ≡ (get_agent id (lookup id s.agents), s)
  unfolding handle_agent_by_id
  serves_status m p = rw (m, p) refl
