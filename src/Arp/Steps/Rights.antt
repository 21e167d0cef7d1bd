-- ===== src/Arp/Steps/Rights.antt =====
-- What no call changes: the rights of a token once issued, and whose an agent is.
use spec_torture.Base.{
  ℕ, ◌≡◌, refl, String, some, List, [], ◌∷◌, ◌⊎◌, arith, get_elem?, get_elem?-append, get_elem?-set,
  eqb, eqb_iff, Bool-cases, inl, inr, set, subst, ◌++◌,
}
use spec_torture.Arp.State.{
  AgentEntry, TokenEntry, Server, World, store_token, store_agent, store_workspace,
}
use spec_torture.Arp.Auth.{Call}
use spec_torture.Arp.Tokens.{add_token}
use spec_torture.Arp.Agents.Spawn.{add_agent}
use spec_torture.Arp.Workspaces.{add_workspace}
use spec_torture.Arp.Rpc.{Rpc, handle_all}
use spec_torture.Arp.Steps.{
  SameAgent, Step, Steps-keep, quiet, mint, first_session, enlist, write_agent, forget_agent,
  open_workspace, write_workspace, close_workspace, with_session_id,
}
use spec_torture.Arp.Steps.Calls.{handle_all-Steps}

-- Everything but the session, which is set at most once.
pub record SameRights (tok tok' : TokenEntry) : Type 0 where
  pub id : tok'.id ≡ tok.id
  pub subject : tok'.subject ≡ tok.subject
  pub scope : tok'.scope ≡ tok.scope
  pub perm : tok'.perm ≡ tok.perm
  pub parent_token_id : tok'.parent_token_id ≡ tok.parent_token_id
  pub bearer : tok'.bearer ≡ tok.bearer
  pub issued_at : tok'.issued_at ≡ tok.issued_at
  pub expires_at : tok'.expires_at ≡ tok.expires_at
  pub session_id : (tok.session_id ≡ "") ⊎ (tok'.session_id ≡ tok.session_id)

-- `xs` has an element with the property at `a`
abbrev pub At : {A : Type 0} → (A → Type 0) → ℕ → List A → Type 0
At {A} P a xs = (x : A) × (get_elem? xs a ≡ some x) × P x

module _ {A : Type 0} (P : A → Type 0) (a : ℕ) (xs : List A) where
  -- a write keeps it, if it keeps the property of what it replaces
  pub At-set :
      (i : ℕ) (y y' : A) → get_elem? xs i ≡ some y → (P y → P y') → At P a xs → At P a (set xs i y')
  At-set i y y' found keeps (x, e, p) = elim (Bool-cases (eqb i a)) [
    | inl same ↦
        let x-eq-y : x ≡ y = ground (arith, eqb_iff i a) in
        (y', rw (get_elem?-set, same, e) refl, keeps (subst P x-eq-y p))
    | inr other ↦ (x, rw (get_elem?-set, other) e, p)
  ]

  -- an append keeps it
  pub At-append : (y : A) → At P a xs → At P a (xs ++ y ∷ [])
  At-append y (x, e, p) = (x, get_elem?-append xs a x y e, p)

SameRights-refl : (tok : TokenEntry) → SameRights tok tok
SameRights-refl tok = ground arith

session_once :
    (tok tok' : TokenEntry) (sess : String)
    → tok'.session_id ≡ ""
    → SameRights tok tok'
    → SameRights tok (with_session_id sess tok')
session_once tok tok' sess unset r = ground arith

module _ (tok : TokenEntry) (a : ℕ) where
  -- the entry at `a` still has the rights of `tok`
  abbrev Kept : Server → Type 0
  Kept s = At (SameRights tok) a s.token_heap

  Step-Kept : (s t : Server) → Step s t → Kept s → Kept t
  unfolding add_token store_token add_agent store_agent add_workspace store_workspace
  Step-Kept s t (quiet q) k = rw q.token_heap k
  Step-Kept s t (mint new) k = At-append (SameRights tok) a s.token_heap new k
  Step-Kept s t (first_session i old sess found unset) k =
      At-set (SameRights tok) a s.token_heap i old _ found (session_once tok old sess unset) k
  Step-Kept s t (enlist e) k = k
  Step-Kept s t (write_agent i e e' found same) k = k
  Step-Kept s t (forget_agent id) k = k
  Step-Kept s t (open_workspace e) k = k
  Step-Kept s t (write_workspace at e e' found same) k = k
  Step-Kept s t (close_workspace name) k = k

SameAgent-refl : (e : AgentEntry) → SameAgent e e
SameAgent-refl e = ground arith

SameAgent-trans : (e f g : AgentEntry) → SameAgent f g → SameAgent e f → SameAgent e g
SameAgent-trans e f g p q = ground arith

module _ (e : AgentEntry) (a : ℕ) where
  abbrev KeptAgent : Server → Type 0
  KeptAgent s = At (SameAgent e) a s.agent_heap

  Step-KeptAgent : (s t : Server) → Step s t → KeptAgent s → KeptAgent t
  unfolding add_token store_token add_agent store_agent add_workspace store_workspace
  Step-KeptAgent s t (quiet q) k = rw q.agent_heap k
  Step-KeptAgent s t (mint new) k = k
  Step-KeptAgent s t (first_session i old sess found unset) k = k
  Step-KeptAgent s t (enlist new) k = At-append (SameAgent e) a s.agent_heap new k
  Step-KeptAgent s t (write_agent i f g found same) k =
      At-set (SameAgent e) a s.agent_heap i f g found (SameAgent-trans e f g same) k
  Step-KeptAgent s t (forget_agent id) k = k
  Step-KeptAgent s t (open_workspace f) k = k
  Step-KeptAgent s t (write_workspace at f g found same) k = k
  Step-KeptAgent s t (close_workspace name) k = k

-- Whatever calls are served, by whatever callers and with whatever outcomes, a token that exists
-- keeps its id, subject, scope, permission, parent, bearer and times; its session changes only from
-- "".
pub token_rights_fixed :
    (w : World) (calls : List (Call × Rpc)) (s : Server) (a : ℕ) (tok : TokenEntry)
    → get_elem? s.token_heap a ≡ some tok
    → At (SameRights tok) a (handle_all w calls s).token_heap
token_rights_fixed w calls s a tok found =
    Steps-keep {P = Kept tok a} (Step-Kept tok a) (handle_all-Steps w calls s)
      (tok, found, SameRights-refl tok)

-- Whatever calls are served, an agent's entry keeps its id, workspace, template, project, session,
-- token and spawner: stopping, restarting and failing change neither whose it is nor where it stands.
pub agent_identity_fixed :
    (w : World) (calls : List (Call × Rpc)) (s : Server) (a : ℕ) (e : AgentEntry)
    → get_elem? s.agent_heap a ≡ some e
    → At (SameAgent e) a (handle_all w calls s).agent_heap
agent_identity_fixed w calls s a e found =
    Steps-keep {P = KeptAgent e a} (Step-KeptAgent e a) (handle_all-Steps w calls s)
      (e, found, SameAgent-refl e)
