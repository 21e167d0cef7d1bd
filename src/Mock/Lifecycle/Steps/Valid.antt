-- ===== src/Mock/Lifecycle/Steps/Valid.antt =====
-- The invariant of the state of the mock ARP server.
use spec_torture.Base.{
  ℕ, ◌+◌, ◌<◌, ◌≡◌, refl, String, Bool, true, false, some, List, [], ◌∷◌, ◌==◌, All, any, arith,
  eq_iff, eq_refl, Bool-cases, inl, inr, sym, subst,
}
use spec_torture.Base.Dict.{Dict, lookup, insert, delete, lookup-insert, lookup-delete}
use spec_torture.Mock.Lifecycle.{
  MockProject, MockWorkspace, MockAgent, ArpState, is_active_in, values,
}
use spec_torture.Mock.Lifecycle.Agents.{start_agent}
use spec_torture.Mock.Lifecycle.Workspaces.{with_workspace}
use spec_torture.Mock.Lifecycle.Steps.Entries.{
  Holds, Holds-imply, Holds-insert, Holds-lookup, has_key, HasOtherPort, HaveOwnPorts,
  HaveOwnPorts-fresh, HaveOwnPorts-same,
}

-- the workspace is active, and its project is registered
abbrev pub IsHoused : Dict MockProject → MockWorkspace → Type 0
IsHoused projects ws = (ws.status ≡ "active") × (has_key ws.project projects ≡ true)

-- the workspace of the agent is there, and the port was handed out
abbrev pub IsPlaced : Dict MockWorkspace → ℕ → MockAgent → Type 0
IsPlaced workspaces next a = (has_key a.workspace workspaces ≡ true) × (a.port < next)

pub record IsValid (s : ArpState) : Type 0 where
  pub housed : Holds (IsHoused s.projects) s.workspaces
  pub placed : Holds (IsPlaced s.workspaces s.next_port) s.agents
  pub own_ports : HaveOwnPorts s.agents

module _ {V : Type 0} where
  pub has_key-insert :
      (k name : String) (v : V) (m : Dict V)
      → has_key k m ≡ true
      → has_key k (insert name v m) ≡ true
  has_key-insert k name v m h = elim (Bool-cases (name == k)) [
    | inl e ↦ rw (has_key, lookup-insert name k v m, e) refl
    | inr e ↦ rw (has_key, lookup-insert name k v m, e) h
  ]

  pub has_key-new : (name : String) (v : V) (m : Dict V) → has_key name (insert name v m) ≡ true
  has_key-new name v m = rw (has_key, lookup-insert name name v m, eq_refl name) refl

  pub has_key-delete :
      (k name : String) (m : Dict V)
      → (k == name) ≡ false
      → has_key k m ≡ true
      → has_key k (delete name m) ≡ true
  has_key-delete k name m apart h =
      let other : (name == k) ≡ false = ground (arith, eq_iff name k, eq_iff k name) in
      rw (has_key, lookup-delete name k m, other) h

none_of : {V : Type 0} (f : V → Bool) (vs : List V) → any f vs ≡ false → All (λ v. f v ≡ false) vs
none_of f [] h = tt
none_of f (v ∷ vs) h = (ground arith, none_of f vs (ground arith))

All-both :
    {V : Type 0} (P Q : V → Type 0) (vs : List V) → All P vs → All Q vs → All (λ v. P v × Q v) vs
All-both P Q [] p q = tt
All-both P Q (v ∷ vs) (p, ps) (q, qs) = ((p, q), All-both P Q vs ps qs)

-- a project that is new or changed
pub add_project-IsValid :
    (name : String) (p : MockProject) (s : ArpState)
    → IsValid s
    → IsValid (record s { projects = insert name p s.projects })
add_project-IsValid name p s v = record {
  housed =
      Holds-imply _ _ s.workspaces (λ ws (a, h). (a, has_key-insert ws.project name p s.projects h))
        v.housed;
  placed = v.placed;
  own_ports = v.own_ports;
}

-- a project without active workspaces
pub drop_project-IsValid :
    (name : String) (s : ArpState)
    → any (is_active_in name) (values s.workspaces) ≡ false
    → IsValid s
    → IsValid (record s { projects = delete name s.projects })
drop_project-IsValid name s idle v = record {
  housed =
      Holds-imply _ _ s.workspaces
        (λ ws ((a, h), i).
          let apart : (ws.project == name) ≡ false = ground (arith, eq_iff ws.status "active") in
          (a, has_key-delete ws.project name s.projects apart h))
        (All-both _ _ _ v.housed (none_of (is_active_in name) (values s.workspaces) idle));
  placed = v.placed;
  own_ports = v.own_ports;
}

pub with_workspace-IsValid :
    (name : String) (ws : MockWorkspace) (s : ArpState)
    → IsHoused s.projects ws
    → IsValid s
    → IsValid (with_workspace name ws s)
with_workspace-IsValid name ws s h v = record {
  housed = Holds-insert _ name ws s.workspaces v.housed h;
  placed =
      Holds-imply _ _ s.agents (λ a (w, p). (has_key-insert a.workspace name ws s.workspaces w, p))
        v.placed;
  own_ports = v.own_ports;
}

-- a port that was not handed out yet is that of no agent
pub fresh_port : (s : ArpState) → IsValid s → Holds (HasOtherPort s.next_port) s.agents
fresh_port s v = Holds-imply _ _ s.agents (λ a (w, p) e. absurd (omega arith)) v.placed

pub later_ports :
    (s : ArpState) → IsValid s → Holds (IsPlaced s.workspaces (s.next_port + 1)) s.agents
later_ports s v = Holds-imply _ _ s.agents (λ a (w, p). (w, omega arith)) v.placed

pub start_agent-IsValid :
    (a : MockAgent) (s : ArpState)
    → a.port ≡ s.next_port
    → has_key a.workspace s.workspaces ≡ true
    → IsValid s
    → IsValid (start_agent a s)
unfolding start_agent
start_agent-IsValid a s p w v = record {
  housed = v.housed;
  placed = Holds-insert _ a.id a s.agents (later_ports s v) (w, omega arith);
  own_ports =
      HaveOwnPorts-fresh a.id a s.agents
        (subst (λ n. Holds (HasOtherPort n) s.agents) (sym p) (fresh_port s v)) v.own_ports;
}

-- an agent that changes, but for its workspace and its port
pub changed-IsValid :
    (id : String) (a b : MockAgent) (s : ArpState)
    → lookup id s.agents ≡ some a
    → b.workspace ≡ a.workspace
    → b.port ≡ a.port
    → IsValid s
    → IsValid (record s { agents = insert id b s.agents })
changed-IsValid id a b s e w p v =
    let (home, port) = Holds-lookup _ id a s.agents v.placed e in
    record {
      housed = v.housed;
      placed =
          Holds-insert _ id b s.agents v.placed
            (subst (λ x. has_key x s.workspaces ≡ true) (sym w) home, omega arith);
      own_ports = HaveOwnPorts-same id a b s.agents e p v.own_ports;
    }
