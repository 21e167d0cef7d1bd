-- ===== src/Runner/Mcp/Paths/Served.antt =====
-- A call of an MCP tool, from internal/runner/mcp_translator.go to the handler of
-- internal/mockserver/arp_lifecycle.go.
use Prim.Native.Char.{code}
use spec_torture.Base.{
  ◌≡◌, ◌≢◌, ◌⊎◌, inl, inr, refl, subst, sym, eqb, String, true, false, some, ◌==◌, arith, eq_iff,
  ap, ◌∙◌,
}
use spec_torture.Base.Dict.{Dict, lookup}
use spec_torture.Base.Text.{concat}
use spec_torture.Base.Strings.{has_prefix, drop_as, trim_prefix}
use spec_torture.Value.{Value}
use spec_torture.Runner.Mcp.{route_of, http_payload}
use spec_torture.Mock.Lifecycle.{ArpState, MockRequest, drop_project, handle_project_by_name}
use spec_torture.Mock.Lifecycle.Agents.{
  agent_path, get_agent, stop_mock_agent, restart_mock_agent, handle_agent_by_id,
}
use spec_torture.Mock.Lifecycle.Workspaces.{drop_workspace, handle_workspace_by_name}
use spec_torture.Runner.Mcp.Paths.{
  is_plain_letter, IsPlain, as_request, http_payload-Asks, agent_call_path, name_call_path,
  agent_path-action, agent_path-id, serves_stop, serves_restart, serves_status,
}

trim_projects : (name : String) → trim_prefix (concat "/api/projects/" name) "/api/projects/" ≡ name
unfolding trim_prefix has_prefix drop_as concat
trim_projects name = refl

trim_workspaces :
    (name : String) → trim_prefix (concat "/api/workspaces/" name) "/api/workspaces/" ≡ name
unfolding trim_prefix has_prefix drop_as concat
trim_workspaces name = refl

-- Every letter stands for itself in the path of a URL: it is plain, or a slash.
abbrev pub IsPath : String → Type 0
IsPath String.[] = Unit
IsPath (String.◌∷◌ c s) =
    ((is_plain_letter (code c) ≡ true) ⊎ (eqb (code c) b'/' ≡ true)) × IsPath s

plain-IsPath : (s : String) → IsPlain s → IsPath s
plain-IsPath String.[] p = tt
plain-IsPath (String.◌∷◌ c s) (l, p) = (inl l, plain-IsPath s p)

project_IsPath : (name : String) → IsPlain name → IsPath (concat "/api/projects/" name)
unfolding concat
project_IsPath name p = (
  inr refl,
  (
    inl refl,
    (
      inl refl,
      (
        inl refl,
        (
          inr refl,
          (
            inl refl,
            (
              inl refl,
              (
                inl refl,
                (
                  inl refl,
                  (inl refl, (inl refl, (inl refl, (inl refl, (inr refl, plain-IsPath name p))))),
                ),
              ),
            ),
          ),
        ),
      ),
    ),
  ),
)

workspace_IsPath : (name : String) → IsPlain name → IsPath (concat "/api/workspaces/" name)
unfolding concat
workspace_IsPath name p = (
  inr refl,
  (
    inl refl,
    (
      inl refl,
      (
        inl refl,
        (
          inr refl,
          (
            inl refl,
            (
              inl refl,
              (
                inl refl,
                (
                  inl refl,
                  (
                    inl refl,
                    (
                      inl refl,
                      (
                        inl refl,
                        (inl refl, (inl refl, (inl refl, (inr refl, plain-IsPath name p)))),
                      ),
                    ),
                  ),
                ),
              ),
            ),
          ),
        ),
      ),
    ),
  ),
)

-- The tools that stop, restart and look at an agent reach the handler of that agent: whatever the
-- other arguments, if `agent_id` is there and its text is made of letters, digits, `-`, `_` and `~`,
-- the mock server stops, restarts or shows the agent with exactly that id, or says that there is none.
pub agent_tools_served :
    (shown : Value → String) (args : Dict Value) (v : Value) (s : ArpState)
    → lookup "agent_id" args ≡ some v
    → IsPlain (shown v)
    → (handle_agent_by_id s (as_request (http_payload shown "agent/stop" args))
        ≡ stop_mock_agent (shown v) s (lookup (shown v) s.agents))
      × (handle_agent_by_id s (as_request (http_payload shown "agent/restart" args))
          ≡ restart_mock_agent (shown v) s (lookup (shown v) s.agents))
      × (handle_agent_by_id s (as_request (http_payload shown "agent/status" args))
          ≡ (get_agent (shown v) (lookup (shown v) s.agents), s))
unfolding route_of
agent_tools_served shown args v s e plain =
    let (stop, restart, status) = agent_call_path shown args v e in
    let (stop_method, stop_path) = http_payload-Asks shown "agent/stop" args in
    let (restart_method, restart_path) = http_payload-Asks shown "agent/restart" args in
    let (status_method, status_path) = http_payload-Asks shown "agent/status" args in
    (
      serves_stop s (as_request (http_payload shown "agent/stop" args)) (shown v) stop_method
          (ap agent_path (stop_path ∙ stop) ∙ agent_path-action (shown v) "stop" plain),
      serves_restart s (as_request (http_payload shown "agent/restart" args)) (shown v)
          restart_method
          (ap agent_path (restart_path ∙ restart) ∙ agent_path-action (shown v) "restart" plain),
      serves_status s (as_request (http_payload shown "agent/status" args)) (shown v) status_method
          (ap agent_path (status_path ∙ status) ∙ agent_path-id (shown v) plain),
    )

module _ (s : ArpState) (r : MockRequest) (name : String) where
  serves_unregister :
      r.method ≡ "DELETE"
      → trim_prefix r.path "/api/projects/" ≡ name
      → (name == "") ≡ false
      → handle_project_by_name s r ≡ drop_project s name (lookup name s.projects)
  unfolding handle_project_by_name
  serves_unregister m p some_ = rw (m, p, some_) refl

  serves_destroy :
      r.method ≡ "DELETE"
      → trim_prefix r.path "/api/workspaces/" ≡ name
      → (name == "") ≡ false
      → handle_workspace_by_name s r ≡ drop_workspace s name (lookup name s.workspaces)
  unfolding handle_workspace_by_name
  serves_destroy m p some_ = rw (m, p, some_) refl

-- The tools that unregister a project and destroy a workspace reach the handler of that name: whatever
-- the other arguments, if the text of `name` is not empty and made of letters, digits, `-`, `_` and `~`,
-- the mock server drops the project or the workspace with exactly that name, or says why not; and the
-- URL's path holds only such letters and slashes, which need no escaping.
pub name_tools_served :
    (shown : Value → String) (args : Dict Value) (v : Value) (s : ArpState)
    → lookup "name" args ≡ some v
    → shown v ≢ ""
    → IsPlain (shown v)
    → (handle_project_by_name s (as_request (http_payload shown "project/unregister" args))
        ≡ drop_project s (shown v) (lookup (shown v) s.projects))
      × (handle_workspace_by_name s (as_request (http_payload shown "workspace/destroy" args))
          ≡ drop_workspace s (shown v) (lookup (shown v) s.workspaces))
      × IsPath (as_request (http_payload shown "project/unregister" args)).path
      × IsPath (as_request (http_payload shown "workspace/destroy" args)).path
unfolding route_of
name_tools_served shown args v s e named plain =
    let some_name : (shown v == "") ≡ false = ground (arith, eq_iff (shown v) "") in
    let (project, workspace) = name_call_path shown args v e in
    let (project_method, project_path) = http_payload-Asks shown "project/unregister" args in
    let (workspace_method, workspace_path) = http_payload-Asks shown "workspace/destroy" args in
    (
      serves_unregister s (as_request (http_payload shown "project/unregister" args)) (shown v)
          project_method
          (ap (λ p. trim_prefix p "/api/projects/") (project_path ∙ project)
            ∙ trim_projects (shown v))
          some_name,
      serves_destroy s (as_request (http_payload shown "workspace/destroy" args)) (shown v)
          workspace_method
          (ap (λ p. trim_prefix p "/api/workspaces/") (workspace_path ∙ workspace)
            ∙ trim_workspaces (shown v))
          some_name,
      subst IsPath (sym (project_path ∙ project)) (project_IsPath (shown v) plain),
      subst IsPath (sym (workspace_path ∙ workspace)) (workspace_IsPath (shown v) plain),
    )
