-- ===== src/Arp/Auth.antt =====
-- arp/server/server.go: who calls (`principal`, `authenticate`), and what of the registry the
-- caller may see.
pub mod Sound
use Prim.Native.Char.{code}
use spec_torture.Base.{
  ℕ, ◌+◌, String, Bool, true, false, not, ◌&&◌, ◌||◌, Option, none, some, List, [], ◌∷◌, ◌==◌,
  if◌then◌else◌, eqb, leb, any,
}
use spec_torture.Base.Dict.{lookup}
use spec_torture.Base.{get_elem?}
use spec_torture.Base.Text.{trim_space}
use spec_torture.Arp.Handler.{pure, gets, or_fail, guard, ◌>>=◌, ◌>>◌, unauthenticated}
use spec_torture.Arp.Messages.{Scope, Permission}
use spec_torture.Arp.State.{
  TokenEntry, AgentEntry, WorkspaceEntry, Server, World, Action, question, load_token,
}
use spec_torture.Arp.Scope.{can_access_project, is_session}

-- `token` is the address of the entry that the bearer named.
pub record Principal : Type 0 where
  pub token : Option ℕ
  pub subject : String
  pub scope : Option Scope
  pub perm : Permission
  pub session_id : String
  pub localhost_admin : Bool

-- What a call brings: the values of the metadata key `authorization`, if there is metadata, and the
-- peer's address, if there is a peer.
pub record Call : Type 0 where
  pub metadata : Option (List String)
  pub peer : Option String

lower : ℕ → ℕ
lower c = if leb b'A' c && leb c b'Z' then c + 32 else c

-- what follows `scheme`, compared letter by letter whatever the case
strip_fold : List ℕ → String → Option String
strip_fold [] s = some s
strip_fold (k ∷ ks) String.[] = none
strip_fold (k ∷ ks) (String.◌∷◌ c s) =
    let rest = strip_fold ks s in if eqb (lower (code c)) k then rest else none

abbrev bearer_scheme : List ℕ
bearer_scheme = b'b' ∷ b'e' ∷ b'a' ∷ b'r' ∷ b'e' ∷ b'r' ∷ b' ' ∷ []

-- `len(v) > 7 && strings.EqualFold(v[:7], "Bearer ")`: the text after the scheme, if there is any
bearer_value : String → Option String
unfolding strip_fold lower
bearer_value v = elim (strip_fold bearer_scheme v) [
  | none ↦ none
  | some rest ↦ if rest == "" then none else some rest
]

first_bearer : List String → String
unfolding bearer_value trim_space
first_bearer [] = ""
first_bearer (v ∷ vs) =
    let later = first_bearer vs in elim (bearer_value v) [ none ↦ later | some b ↦ trim_space b ]

-- The source reads the key `authorization` a second time, which finds what the first time found.
unfoldable pub bearer_from_call : Call → String
unfolding first_bearer
bearer_from_call call = elim call.metadata [ none ↦ "" | some values ↦ first_bearer values ]

unfoldable pub is_loopback : World → Call → Bool
is_loopback w call = elim call.peer [
  | none ↦ true
  | some address ↦
      let host : String = elim (w.split_host address) [ none ↦ address | some h ↦ h ] in
      if host == "bufconn" || host == "" then true else w.ip_is_loopback host
]

abbrev pub local_admin : Principal
local_admin = record {
  token = none;
  subject = "localhost";
  scope = some (record { global = true; projects = [] });
  perm = Permission.admin;
  session_id = "";
  localhost_admin = true;
}

abbrev pub token_principal : ℕ → TokenEntry → Principal
token_principal a tok = record {
  token = some a;
  subject = tok.subject;
  scope = tok.scope;
  perm = tok.perm;
  session_id = tok.session_id;
  localhost_admin = false;
}

module _ (w : World) where
  -- `!tok.expiresAt.IsZero() && time.Now().After(tok.expiresAt)`: the clock is read only if need be
  unfoldable pub check_expiry : Option ℕ → Action (Unit {0})
  check_expiry none = pure tt
  check_expiry (some t) = do n ← question; guard (leb (w.now n) t) unauthenticated

  unfoldable pub by_token : String → Action Principal
  by_token bearer = do
    found ← gets (λ s. lookup bearer s.by_bearer)
    a ← or_fail unauthenticated found
    tok ← load_token a
    check_expiry tok.expires_at
    pure (token_principal a tok)

  unfoldable pub by_peer : Call → Action Principal
  by_peer call = do
    trusted ← gets (λ s. s.cfg.localhost_admin)
    guard (trusted && is_loopback w call) unauthenticated
    pure local_admin

  unfoldable pub authenticate : Call → Action Principal
  authenticate call =
      let bearer = bearer_from_call call in if bearer == "" then by_peer call else by_token bearer

-- `canSeeAgent`
unfoldable pub can_see_agent : Principal → AgentEntry → Bool
can_see_agent p a =
    if not (can_access_project p.scope a.project)
    then false
    else if is_session p.perm
    then not (p.session_id == "") && a.pb.session_id == p.session_id
    else true

-- whether the agent that the map names is of the session
unfoldable pub in_session : Server → String → String → Bool
in_session s session id = elim (lookup id s.agents) [
  | none ↦ false
  | some a ↦ elim (get_elem? s.agent_heap a) [ none ↦ false | some e ↦ e.pb.session_id == session ]
]

-- `workspaceVisible`
unfoldable pub workspace_visible : Server → Principal → WorkspaceEntry → Bool
workspace_visible s p e =
    if not (can_access_project p.scope e.project)
    then false
    else if is_session p.perm
    then (if p.session_id == "" then false else any (in_session s p.session_id) e.agents)
    else true
