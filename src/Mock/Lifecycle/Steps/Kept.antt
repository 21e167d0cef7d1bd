-- ===== src/Mock/Lifecycle/Steps/Kept.antt =====
-- Every step of the mock ARP server keeps its invariant.
use spec_torture.Base.{
  ◌≡◌, refl, String, ◌&&◌, ◌||◌, Option, none, some, ◌++◌, ◌==◌, arith, Option-cases, if_holds, inl,
  inr,
}
use spec_torture.Base.Dict.{Dict, lookup, insert}
use spec_torture.Base.Strings.{has_prefix}
use spec_torture.Value.{Value}
use spec_torture.Mock.Lifecycle.{MockAgent, ArpState, MockRequest, text_or_empty}
use spec_torture.Mock.Lifecycle.Agents.{
  Setting, wake, handle_agents_crud, handle_agent_by_id, agent_path, asked_agent, restarted,
  spawn_in, post_agent, stop_mock_agent, restart_mock_agent,
}
use spec_torture.Mock.Lifecycle.Workspaces.{}
use spec_torture.Mock.Lifecycle.Steps.{serve, Reachable, begins, serves, wakes}
use spec_torture.Mock.Lifecycle.Steps.Entries.{Holds-insert, Holds-lookup, HaveOwnPorts-fresh}
use spec_torture.Mock.Lifecycle.Steps.Valid.{
  IsValid, fresh_port, later_ports, start_agent-IsValid, changed-IsValid,
}
use spec_torture.Mock.Lifecycle.Steps.Handlers.{
  KeepsValid, found, projects_kept, project_by_name_kept, workspaces_kept, workspace_by_name_kept,
}

spawn_in_kept :
    (env : Setting) (s : ArpState) (body : Dict Value) (workspace template : String)
    → IsValid s
    → KeepsValid (spawn_in env s body workspace template)
spawn_in_kept env s body workspace template v =
    if_holds KeepsValid (workspace == "" || template == "") _ _ v
      (elim (Option-cases (lookup workspace s.workspaces)) [
        | inl e ↦ rw e v
        | inr (ws, e) ↦ rw e (
            start_agent-IsValid (asked_agent env s body workspace template) s refl
              (found workspace ws s.workspaces e) v)
      ])

agents_kept :
    (env : Setting) (s : ArpState) (r : MockRequest)
    → IsValid s
    → KeepsValid (handle_agents_crud env s r)
unfolding handle_agents_crud
agents_kept env s r v =
    if_holds KeepsValid (r.method == "GET") _ _ v
      (if_holds KeepsValid (r.method == "POST") _ _ (post r.body) v)
  where
    post : (o : Option (Dict Value)) → KeepsValid (post_agent env s o)
    post none = v
    post (some body) =
        spawn_in_kept env s body (text_or_empty (lookup "workspace" body))
          (text_or_empty (lookup "template" body)) v

restart_kept :
    (id : String) (s : ArpState) (a : MockAgent)
    → lookup id s.agents ≡ some a
    → IsValid s
    → KeepsValid (restart_mock_agent id s (some a))
restart_kept id s a e v =
    let (home, port) = Holds-lookup _ id a s.agents v.placed e in
    record {
      housed = v.housed;
      placed = Holds-insert _ id (restarted s a) s.agents (later_ports s v) (home, omega arith);
      own_ports = HaveOwnPorts-fresh id (restarted s a) s.agents (fresh_port s v) v.own_ports;
    }

agent_by_id_kept :
    (s : ArpState) (r : MockRequest) → IsValid s → KeepsValid (handle_agent_by_id s r)
unfolding handle_agent_by_id
agent_by_id_kept s r v =
    let id : String = (agent_path r.path).0 in
    let action : String = (agent_path r.path).1 in
    if_holds KeepsValid (r.method == "GET" && action == "") _ _ v (
      if_holds KeepsValid (r.method == "POST" && action == "stop") _ _
        (stop id (lookup id s.agents) refl)
        (if_holds KeepsValid (r.method == "POST" && action == "restart") _ _
          (restart id (lookup id s.agents) refl) v))
  where
    stop :
        (id : String) (o : Option MockAgent)
        → lookup id s.agents ≡ o
        → KeepsValid (stop_mock_agent id s o)
    stop id none e = v
    stop id (some a) e = changed-IsValid id a (record a { status = "stopped" }) s e refl refl v

    restart :
        (id : String) (o : Option MockAgent)
        → lookup id s.agents ≡ o
        → KeepsValid (restart_mock_agent id s o)
    restart id none e = v
    restart id (some a) e = restart_kept id s a e v

serve-IsValid :
    (env : Setting) (s : ArpState) (r : MockRequest) → IsValid s → KeepsValid (serve env s r)
unfolding serve
serve-IsValid env s r v =
    if_holds KeepsValid (r.path == "/api/projects") _ _ (projects_kept env.now s r v) (
      if_holds KeepsValid (has_prefix r.path "/api/projects/") _ _ (project_by_name_kept s r v) (
        if_holds KeepsValid (r.path == "/api/workspaces") _ _ (workspaces_kept env s r v) (
          if_holds KeepsValid (has_prefix r.path "/api/workspaces/") _ _
            (workspace_by_name_kept s r v)
            (if_holds KeepsValid (r.path == "/api/agents") _ _ (agents_kept env s r v) (
              if_holds KeepsValid (has_prefix r.path "/api/agents/") _ _ (agent_by_id_kept s r v)
                v)))))

wake-IsValid : (id : String) (s : ArpState) → IsValid s → IsValid (wake id s)
unfolding wake
wake-IsValid id s v = go (lookup id s.agents) refl
  where
    go :
        (o : Option MockAgent)
        → lookup id s.agents ≡ o
        → IsValid (elim o [
          | none ↦ s
          | some a ↦ record s { agents = insert id (record a { status = "ready" }) s.agents }
        ])
    go none e = v
    go (some a) e = changed-IsValid id a (record a { status = "ready" }) s e refl refl v

-- Whatever requests the mock server gets, well-formed or not, and whenever its goroutines wake up
-- between them: each workspace is active and its project registered, each agent's workspace is there,
-- its port is below the next one to hand out, and no two agents have the same port.
pub Reachable-IsValid : {s : ArpState} → Reachable s → IsValid s
Reachable-IsValid begins = record { housed = tt; placed = tt; own_ports = tt }
Reachable-IsValid (serves env r h) = serve-IsValid env _ r (Reachable-IsValid h)
Reachable-IsValid (wakes {s} before after id e h) =
    let v : IsValid s = Reachable-IsValid h in
    wake-IsValid id (record s { sleeping = before ++ after })
      (record { housed = v.housed; placed = v.placed; own_ports = v.own_ports })
