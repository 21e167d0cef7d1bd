-- ===== src/Arp/Projects/Unregister.antt =====
-- When a project may be taken away.
use spec_torture.Base.{
  ◌≡◌, ◌≢◌, refl, String, Bool, true, false, none, List, [], ◌∷◌, arith, eq_refl, eq_iff, any, ◌==◌,
  contains,
}
use spec_torture.Base.Dict.{lookup, keys, lookup-delete}
use spec_torture.Arp.Handler.{ok}
use spec_torture.Arp.Handler.Ensures.{
  Ensures, Ensures-bind, Ensures-run, Ensures-modify, Ensures-guard, Ensures-gets, Ensures-or_fail,
  Ensures-ok,
}
use spec_torture.Arp.State.{Server, World}
use spec_torture.Arp.Scope.{can_access_project, is_admin}
use spec_torture.Arp.Auth.{Principal, Call, authenticate}
use spec_torture.Arp.Agents.Queries.{agent_named}
use spec_torture.Arp.Projects.{active_in, has_active_agent, remove_project, unregister_project}

-- No agent that the server lists is at work in the project.
abbrev pub IsIdle : String → Server → Type 0
IsIdle name s =
    (id : String) → contains (keys s.agents) id ≡ true → active_in name (agent_named s id) ≡ false

any_none :
    (f : String → Bool) (xs : List String) (x : String)
    → any f xs ≡ false
    → contains xs x ≡ true
    → f x ≡ false
any_none f [] x h k = cc
any_none f (y ∷ ys) x h k = ground (arith, any_none f ys x, eq_iff y x)

-- Who asked from the state `s`, and what is left in `t`.
pub record Unregistered (w : World) (call : Call) (name : String) (s t : Server) : Type 0 where
  pub caller : Principal
  pub midway : Server
  pub authenticated : authenticate w call s ≡ (ok caller, midway)
  pub admin : is_admin caller.perm ≡ true
  pub reaches : can_access_project caller.scope name ≡ true
  pub known : lookup name midway.projects ≢ none
  pub gone : lookup name t.projects ≡ none
  pub others_kept :
      (other : String)
      → (name == other) ≡ false
      → lookup other t.projects ≡ lookup other midway.projects
  pub idle : IsIdle name t

remove_project-Unregistered :
    (w : World) (call : Call) (name : String) (s u : Server) (p : Principal)
    → authenticate w call s ≡ (ok p, u)
    → is_admin p.perm ≡ true
    → can_access_project p.scope name ≡ true
    → lookup name u.projects ≢ none
    → has_active_agent u name ≡ false
    → Unregistered w call name s (remove_project name u)
unfolding remove_project has_active_agent agent_named
remove_project-Unregistered w call name s u p e admin reaches known idle = record {
  caller = p;
  midway = u;
  authenticated = e;
  admin = admin;
  reaches = reaches;
  known = known;
  gone = rw (lookup-delete, eq_refl) refl;
  others_kept = λ other apart. rw (lookup-delete, apart) refl;
  idle = λ id. any_none _ (keys u.agents) id idle;
}

unregister_project-Ensures :
    (w : World) (call : Call) (name : String) (s : Server)
    → Ensures (λ u. u ≡ s) (unregister_project w call name) (λ _. Unregistered w call name s)
unfolding unregister_project
unregister_project-Ensures w call name s =
    Ensures-bind _ _ (Ensures-run (authenticate w call) s) λ p. Ensures-guard _ _ _ λ named.
      Ensures-guard _ _ _ λ admin. Ensures-gets _ _ λ found. Ensures-or_fail _ _ _ λ proj e.
        Ensures-guard _ _ _ λ reached. Ensures-gets _ _ λ busy. Ensures-guard _ _ _ λ quiet.
          Ensures-modify _ λ u h.
            remove_project-Unregistered w call name s u p h.0.0 admin reached (ground arith)
              (ground arith)

-- A project is taken away only by an authenticated admin whose scope reaches it, only if it was
-- registered, and only while no listed agent is at work in it; it is then gone, and every other
-- project is as it was.
pub unregister_project_lem :
    (w : World) (call : Call) (name : String) (s t : Server)
    → unregister_project w call name s ≡ (ok tt, t)
    → Unregistered w call name s t
unregister_project_lem w call name s t e =
    Ensures-ok _ (unregister_project-Ensures w call name s) s t tt refl e
