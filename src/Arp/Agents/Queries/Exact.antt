-- ===== src/Arp/Agents/Queries/Exact.antt =====
-- What a listing holds: the agents that pass, and no others.
use spec_torture.Base.{
  ◌≡◌, ◌≢◌, refl, String, Bool, true, Option, none, some, List, [], ◌∷◌, arith, eq_refl, eq_iff,
  All, Any, Bool-cases, Option-cases, ◌==◌, contains, ◌⊎◌, inl, inr, ◌↔◌, ◌&&◌, if◌then◌else◌,
}
use spec_torture.Base.Dict.{contains-keys}
use spec_torture.Base.Sort.{contains-sort_strings}
use spec_torture.Arp.Handler.{ok}
use spec_torture.Arp.Handler.Ensures.{Ensures-bind, Ensures-run, Ensures-last, Ensures-ok}
use spec_torture.Arp.Messages.{Asked, named, unnamed, AgentInstance, AgentStatus}
use spec_torture.Arp.State.{AgentEntry, Server, World}
use spec_torture.Arp.Scope.{can_access_project, is_session}
use spec_torture.Arp.Auth.{Principal, Call, authenticate, can_see_agent}
use spec_torture.Arp.Agents.Queries.{
  ListAgentsRequest, text_passes, same_status, status_passes, sorted_ids, agent_named, list_passes,
  collect_agents, messages, list_agents,
}

-- `e` is one of the entries.
abbrev pub Holds : AgentEntry → List AgentEntry → Type 0
Holds e es = Any (λ x. x ≡ e) es

module _ (s : Server) (pass : AgentEntry → Bool) (e : AgentEntry) where
  -- `e` passes, and one of `ids` names it
  abbrev Named : List String → Type 0
  Named ids =
      (id : String) × (contains ids id ≡ true) × (agent_named s id ≡ some e) × (pass e ≡ true)

  collected-Named : (ids : List String) → Holds e (collect_agents s pass ids) → Named ids
  unfolding collect_agents
  collected-Named [] h = absurd (h tt)
  collected-Named (j ∷ ids) h = elim (Option-cases (agent_named s j)) [
    | inl missing ↦ widen (collected-Named ids (ground arith))
    | inr (x, found) ↦ elim (Bool-cases (pass x)) [
      | inl passes ↦ elim (kept x found passes h) [
        | inl same ↦ (j, rw (eq_refl j) refl, rw (← same) found, rw (← same) passes)
        | inr rest ↦ widen (collected-Named ids rest)
      ]
      | inr fails ↦ widen (collected-Named ids (ground arith))
    ]
  ]
    where
      widen : Named ids → Named (j ∷ ids)
      widen (id, k, found, passes) = (id, ground arith, found, passes)

      kept :
          (x : AgentEntry)
          → agent_named s j ≡ some x
          → pass x ≡ true
          → Holds e (collect_agents s pass (j ∷ ids))
          → (x ≡ e) ⊎ Holds e (collect_agents s pass ids)
      kept x found passes h = ground arith

  -- the loop's body, for what the map names
  abbrev kept_or : List AgentEntry → Option AgentEntry → List AgentEntry
  kept_or rest o = elim o [ none ↦ rest | some x ↦ if pass x then x ∷ rest else rest ]

  later_kept :
      (rest : List AgentEntry) (o : Option AgentEntry) → Holds e rest → Holds e (kept_or rest o)
  later_kept rest none h = h
  later_kept rest (some x) h = elim (Bool-cases (pass x)) [
    | inl good ↦ rw good (inr h)
    | inr bad ↦ rw bad h
  ]

  here_kept :
      (rest : List AgentEntry) (o : Option AgentEntry)
      → o ≡ some e
      → pass e ≡ true
      → Holds e (kept_or rest o)
  here_kept rest none at passes = cc
  here_kept rest (some x) at passes =
      let same : x ≡ e = ground arith in rw (same, passes) (inl refl)

  named_collected :
      (ids : List String) (id : String)
      → contains ids id ≡ true
      → agent_named s id ≡ some e
      → pass e ≡ true
      → Holds e (collect_agents s pass ids)
  unfolding collect_agents
  named_collected [] id k found passes = cc
  named_collected (j ∷ ids) id k found passes = elim (Bool-cases (j == id)) [
    | inl here ↦
        let at : agent_named s j ≡ some e = rw ((eq_iff j id).0 here) found in
        here_kept _ (agent_named s j) at passes
    | inr apart ↦
        later_kept _ (agent_named s j) (named_collected ids id (ground arith) found passes)
  ]

-- a field of a request that is empty, or equal to what the agent has
abbrev pub Fits : String → String → Type 0
Fits wanted actual = (wanted ≡ "") ⊎ (actual ≡ wanted)

-- What a caller may see and asked for: an agent of a project of its scope, of its own session if its
-- permission confines it to one, and with the workspace, status and template of the request, where
-- the request names them.
pub record IsWanted (p : Principal) (req : ListAgentsRequest) (e : AgentEntry) : Type 0 where
  pub in_scope : can_access_project p.scope e.project ≡ true
  pub in_session : is_session p.perm ≡ true → (p.session_id ≢ "") × (e.pb.session_id ≡ p.session_id)
  pub workspace : Fits req.workspace e.pb.workspace
  pub status : (req.status ≡ named AgentStatus.unspecified) ⊎ (req.status ≡ named e.pb.status)
  pub template : Fits req.template e.pb.template

and_iff : (a b : Bool) → (a && b ≡ true) ↔ ((a ≡ true) × (b ≡ true))
and_iff a b = ground arith

text_passes_iff : (wanted actual : String) → (text_passes wanted actual ≡ true) ↔ Fits wanted actual
text_passes_iff wanted actual = ground (arith, eq_iff wanted "", eq_iff actual wanted)

same_status_iff : (a b : AgentStatus) → (same_status a b ≡ true) ↔ (a ≡ b)
same_status_iff a b = ground arith

status_passes_iff :
    (wanted : Asked AgentStatus) (actual : AgentStatus)
    → (status_passes wanted actual ≡ true)
      ↔ ((wanted ≡ named AgentStatus.unspecified) ⊎ (wanted ≡ named actual))
status_passes_iff (named AgentStatus.unspecified) actual = ground arith
status_passes_iff (named AgentStatus.starting) actual =
    ground (arith, same_status_iff actual AgentStatus.starting)
status_passes_iff (named AgentStatus.ready) actual =
    ground (arith, same_status_iff actual AgentStatus.ready)
status_passes_iff (named AgentStatus.busy) actual =
    ground (arith, same_status_iff actual AgentStatus.busy)
status_passes_iff (named AgentStatus.error) actual =
    ground (arith, same_status_iff actual AgentStatus.error)
status_passes_iff (named AgentStatus.stopping) actual =
    ground (arith, same_status_iff actual AgentStatus.stopping)
status_passes_iff (named AgentStatus.stopped) actual =
    ground (arith, same_status_iff actual AgentStatus.stopped)
status_passes_iff (unnamed n) actual = ground arith

can_see_agent_iff :
    (p : Principal) (e : AgentEntry)
    → (can_see_agent p e ≡ true) ↔ (
        (can_access_project p.scope e.project ≡ true)
        × (is_session p.perm ≡ true → (p.session_id ≢ "") × (e.pb.session_id ≡ p.session_id)))
unfolding can_see_agent
can_see_agent_iff p e = ground (arith, eq_iff p.session_id "", eq_iff e.pb.session_id p.session_id)

list_passes_iff :
    (p : Principal) (req : ListAgentsRequest) (e : AgentEntry)
    → (list_passes p req e ≡ true) ↔ IsWanted p req e
unfolding list_passes
list_passes_iff p req e = (
  λ h.
      let (seen, rest) = (and_iff _ _).0 h in
      let (place, rest2) = (and_iff _ _).0 rest in
      let (state, kind) = (and_iff _ _).0 rest2 in
      let (scope, session) = (can_see_agent_iff p e).0 seen in
      record {
        in_scope = scope;
        in_session = session;
        workspace = (text_passes_iff _ _).0 place;
        status = (status_passes_iff _ _).0 state;
        template = (text_passes_iff _ _).0 kind;
      },
  λ k. (and_iff _ _).1 (
    (can_see_agent_iff p e).1 (k.in_scope, k.in_session),
    (and_iff _ _).1 (
      (text_passes_iff _ _).1 k.workspace,
      (and_iff _ _).1 ((status_passes_iff _ _).1 k.status, (text_passes_iff _ _).1 k.template),
    ),
  ),
)

-- What a listing answers, when `t` is the state after the authentication of `p`.
abbrev pub Lists : Principal → ListAgentsRequest → Server → List AgentInstance → Type 0
Lists p req t answer =
    (es : List AgentEntry) × (answer ≡ messages es)
    × ((e : AgentEntry)
        → Holds e es ↔ ((id : String) × (agent_named t id ≡ some e) × IsWanted p req e))

agent_named-key :
    (s : Server) (id : String) (e : AgentEntry)
    → agent_named s id ≡ some e
    → contains (sorted_ids s.agents) id ≡ true
unfolding agent_named sorted_ids
agent_named-key s id e found = rw (contains-sort_strings, contains-keys) (ground arith)

collect_agents-Lists :
    (p : Principal) (req : ListAgentsRequest) (s : Server)
    → Lists p req s (messages (collect_agents s (list_passes p req) (sorted_ids s.agents)))
collect_agents-Lists p req s =
    let ids = sorted_ids s.agents in
    let pass = list_passes p req in
    (
      collect_agents s pass ids,
      refl,
      λ e. (
        λ h.
            let (id, k, found, passes) = collected-Named s pass e ids h in
            (id, found, (list_passes_iff p req e).0 passes),
        λ h.
            named_collected s pass e ids h.0 (agent_named-key s h.0 e h.1) h.1
              ((list_passes_iff p req e).1 h.2),
      ),
    )

-- A listing that succeeds is for an authenticated caller, and it answers with the agents that the map
-- names, that are of a project in the caller's scope, of its session if its permission confines it to
-- one, and that have the workspace, status and template which the request names: all of them and no
-- others.
pub list_agents_exact :
    (w : World) (call : Call) (req : ListAgentsRequest) (s t : Server) (answer : List AgentInstance)
    → list_agents w call req s ≡ (ok answer, t)
    → (p : Principal) × (authenticate w call s ≡ (ok p, t)) × Lists p req t answer
unfolding list_agents
list_agents_exact w call req s t answer e =
    Ensures-ok _
      (Ensures-bind
        {R = λ found u. (p : Principal) × (authenticate w call s ≡ (ok p, u)) × Lists p req u found}
        _ _ (Ensures-run (authenticate w call) s)
        λ p. Ensures-last _ λ u h. (p, h, collect_agents-Lists p req u))
      s t answer refl e

All-messages :
    (P : AgentInstance → Type 0) (es : List AgentEntry)
    → ((e : AgentEntry) → Holds e es → P e.pb)
    → All P (messages es)
All-messages P [] h = tt
All-messages P (e ∷ es) h = (h e (inl refl), All-messages P es (λ x k. h x (inr k)))

-- For a caller whose permission confines it to a session, every agent in a listing is of that
-- session; a caller that has no session yet is shown no agent.
pub list_agents_confined :
    (w : World) (call : Call) (req : ListAgentsRequest) (s t : Server) (answer : List AgentInstance)
    (p : Principal)
    → list_agents w call req s ≡ (ok answer, t)
    → authenticate w call s ≡ (ok p, t)
    → All
        (λ pb. is_session p.perm ≡ true → (p.session_id ≢ "") × (pb.session_id ≡ p.session_id))
        answer
list_agents_confined w call req s t answer p e h =
    let (q, auth, (es, shown, exact)) = list_agents_exact w call req s t answer e in
    let same : q ≡ p = ground arith in
    rw shown (
      All-messages _ es
        λ x k. let (id, found, passes) = (exact x).0 k in rw (← same) passes.in_session)
