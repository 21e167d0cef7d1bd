-- ===== src/Mock/Tests.antt =====
-- The mock ARP server on a short life of one agent.
use spec_torture.Base.{◌≡◌, refl, String, Option, none, some, [], ◌∷◌}
use spec_torture.Base.Dict.{Dict, lookup}
use spec_torture.Value.{Value, text}
use spec_torture.Mock.Lifecycle.{MockRequest, ArpState, new_arp_state}
use spec_torture.Mock.Lifecycle.Agents.{Setting, wake}
use spec_torture.Mock.Lifecycle.Steps.{serve, Reachable, begins, serves, wakes}
use spec_torture.Mock.Lifecycle.Steps.Valid.{IsValid}
use spec_torture.Mock.Lifecycle.Steps.Kept.{Reachable-IsValid}

abbrev env : Setting
env = record { now = "2025-01-01T00:00:00Z"; url = "http://127.0.0.1:9000" }

abbrev post : String → Dict Value → MockRequest
post path body = record { method = "POST"; path = path; query = []; body = some body }

abbrev project_request : MockRequest
project_request = post "/api/projects" (("name", text "demo") ∷ [])

abbrev workspace_request : MockRequest
workspace_request = post "/api/workspaces" (("name", text "ws") ∷ ("project", text "demo") ∷ [])

abbrev agent_request : MockRequest
agent_request = post "/api/agents" (("workspace", text "ws") ∷ ("template", text "echo") ∷ [])

abbrev spawned : ArpState
spawned =
    (serve env (serve env (serve env new_arp_state project_request).1 workspace_request).1
      agent_request).1

spawned-Reachable : Reachable spawned
spawned-Reachable =
    serves env agent_request (serves env workspace_request (serves env project_request begins))

spawned_sleeping : spawned.sleeping ≡ "agent-001" ∷ []
unfolding serve
spawned_sleeping = refl

-- the status of the agent before and after its goroutine wakes up
abbrev status_in : ArpState → Option String
status_in s = elim (lookup "agent-001" s.agents) [ none ↦ none | some a ↦ some a.status ]

starts : status_in spawned ≡ some "starting"
unfolding serve lookup
starts = refl

-- An agent that is stopped before its goroutine wakes up is marked as ready by it.
stopped_then_ready :
    (status_in (serve env spawned (post "/api/agents/agent-001/stop" [])).1 ≡ some "stopped")
    × (status_in (wake "agent-001" (serve env spawned (post "/api/agents/agent-001/stop" [])).1)
        ≡ some "ready")
unfolding serve wake lookup
stopped_then_ready = (refl, refl)

Reachable-IsValid_example : IsValid (wake "agent-001" (record spawned { sleeping = [] }))
Reachable-IsValid_example =
    Reachable-IsValid (wakes [] [] "agent-001" spawned_sleeping spawned-Reachable)
