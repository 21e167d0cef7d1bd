-- ===== src/Arp/Agents/Lifecycle/StopCall.antt =====
-- Who may stop an agent, and what the call leaves and answers.
use spec_torture.Base.{ℕ, ◌≡◌, refl, String, true, some, arith, get_elem?, ◌∙◌, sym, ap}
use spec_torture.Base.Dict.{lookup}
use spec_torture.Arp.Handler.{ok, internal}
use spec_torture.Arp.Handler.Ensures.{
  Ensures, Ensures-bind, Ensures-guard, Ensures-gets, Ensures-or_fail, Ensures-run, Ensures-read,
  Ensures-modify, Ensures-pure, Ensures-ok,
}
use spec_torture.Arp.Messages.{AgentInstance}
use spec_torture.Arp.State.{AgentEntry, Server, World, load_agent}
use spec_torture.Arp.Auth.{Principal, Call, authenticate, can_see_agent}
use spec_torture.Arp.Agents.{find_agent_for_caller}
use spec_torture.Arp.Agents.Lifecycle.{stop_agent, stop_agent_internal}
use spec_torture.Arp.Agents.Lifecycle.Stopped.{IsStopped, stop_agent_internal-IsStopped}

load_agent-Ensures :
    {P : Server → Type 0} (a : ℕ)
    → Ensures P (load_agent a) (λ e u. P u × (get_elem? u.agent_heap a ≡ some e))
unfolding load_agent
load_agent-Ensures a = Ensures-read internal (λ u. get_elem? u.agent_heap a)

-- `id` names the entry `e` at `a`, and the caller sees it
abbrev pub Sees : Principal → String → ℕ → AgentEntry → Server → Type 0
Sees p id a e u =
    (lookup id u.agents ≡ some a) × (get_elem? u.agent_heap a ≡ some e) × (can_see_agent p e ≡ true)

pub find_agent_for_caller-Sees :
    {P : Server → Type 0} (p : Principal) (id : String)
    → Ensures P (find_agent_for_caller p id) (λ a u. P u × ((e : AgentEntry) × Sees p id a e u))
unfolding find_agent_for_caller
find_agent_for_caller-Sees p id = Ensures-gets _ _ λ found. Ensures-or_fail _ _ _ λ a e.
    Ensures-bind _ _ (load_agent-Ensures a) λ entry.
      Ensures-guard _ _ _ λ seen. Ensures-pure a λ u h. (h.0.0, (entry, (h.0.1 ∙ e, h.1, seen)))

-- Who asked from the state `s`, which agent it was, and what is left in `t`.
pub record StoppedBy (w : World) (call : Call) (id : String) (s : Server) (answer : AgentInstance)
    (t : Server) : Type 0 where
  pub caller : Principal
  pub midway : Server
  pub at : ℕ
  pub entry : AgentEntry
  pub authenticated : authenticate w call s ≡ (ok caller, midway)
  pub sees : Sees caller id at entry midway
  pub only_stopped : t ≡ stop_agent_internal w id midway
  pub has_stopped : IsStopped at entry.pb.port t
  pub answered : answer ≡ has_stopped.entry.pb

only_one : {x y : AgentEntry} → some x ≡ some y → x ≡ y
only_one e = ground arith

stop_agent-StoppedBy :
    (w : World) (call : Call) (id : String) (s : Server)
    → Ensures (λ u. u ≡ s) (stop_agent w call id) (StoppedBy w call id s)
unfolding stop_agent
stop_agent-StoppedBy w call id s = Ensures-bind _ _ (Ensures-run (authenticate w call) s) λ p.
    Ensures-guard _ _ _ λ named. Ensures-bind _ _ (find_agent_for_caller-Sees p id) λ a.
      Ensures-bind
        {Q = λ _ t.
          (midway : Server) × ((authenticate w call s ≡ (ok p, midway))
            × (t ≡ stop_agent_internal w id midway)
            × ((e : AgentEntry) × Sees p id a e midway × IsStopped a e.pb.port t))}
        _ _
        (Ensures-modify _ λ u h.
          let (auth, (e, sees)) = h in
          (u, (auth, refl, (e, sees, stop_agent_internal-IsStopped w id u a e sees.0 sees.1))))
        λ _. Ensures-bind _ _ (load_agent-Ensures a) λ last. Ensures-pure _ λ u h.
          let ((midway, (auth, left, (e, sees, st))), loaded) = h in
          let same : last ≡ st.entry = only_one (sym loaded ∙ st.stored) in
          record {
            caller = p;
            midway = midway;
            at = a;
            entry = e;
            authenticated = auth;
            sees = sees;
            only_stopped = left;
            has_stopped = st;
            answered = ap (λ x. x.pb) same;
          }

-- An agent is stopped only for an authenticated caller who can see it; the call does nothing but
-- the stop, which leaves the agent stopped and its port free, and it answers with the stored entry.
pub stop_agent_lem :
    (w : World) (call : Call) (id : String) (s t : Server) (answer : AgentInstance)
    → stop_agent w call id s ≡ (ok answer, t)
    → StoppedBy w call id s answer t
stop_agent_lem w call id s t answer e =
    Ensures-ok _ (stop_agent-StoppedBy w call id s) s t answer refl e
