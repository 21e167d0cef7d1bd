-- ===== src/Arp/Tokens.antt =====
-- arp/server/scope.go (`issueToken`, `toProto`) and arp/server/token.go (`CreateToken`).
pub mod Issue
pub mod Create
use spec_torture.Base.{
  ℕ, zero, suc, ◌+◌, ◌*◌, ◌-◌, String, Bool, true, false, Option, none, some, List, [], ◌∷◌, ◌++◌,
  ◌==◌, not, if◌then◌else◌, length,
}
use spec_torture.Base.Int.{ℤ, pos, negsuc}
use spec_torture.Base.Dict.{lookup, insert}
use spec_torture.Base.Text.{concat}
use spec_torture.Arp.Handler.{
  ok, pure, fail, gets, or_fail, guard, modify, ◌>>=◌, ◌>>◌, permission_denied, invalid_argument,
}
use spec_torture.Arp.Messages.{Scope, Permission, Token}
use spec_torture.Arp.State.{TokenEntry, Server, World, Action, question, load_token}
use spec_torture.Arp.Scope.{scope_subset, clone_scope, exceeds, is_unspecified, is_admin}
use spec_torture.Arp.Auth.{Principal, Call, authenticate}

pub record CreateTokenRequest : Type 0 where
  pub subject : String
  pub scope : Option Scope
  pub permission : Permission
  pub expires_in_seconds : ℤ

pub record CreateTokenResponse : Type 0 where
  pub token : Token
  pub bearer_token : String

-- The scope of the new token, `none` if the request is wider than the parent's.
unfoldable pub issued_scope : Option Scope → Option Scope → Option Scope
unfolding scope_subset clone_scope
issued_scope parent none = elim (clone_scope parent) [
  | none ↦ some (record { global = true; projects = [] })
  | some s ↦ some s
]
issued_scope parent (some requested) =
    if scope_subset (some requested) parent then clone_scope (some requested) else none

-- The permission of the new token, `none` if the request exceeds the parent's.
unfoldable pub issued_perm : Permission → Permission → Option Permission
issued_perm parent requested =
    if is_unspecified requested
    then some parent
    else if exceeds requested parent
    then none
    else some requested

-- `parent` as the source unpacks it: a nil parent is an unconstrained issuer.
abbrev pub parent_scope : Option Principal → Option Scope
parent_scope none = none
parent_scope (some p) = p.scope

abbrev pub parent_perm : Option Principal → Permission
parent_perm none = Permission.admin
parent_perm (some p) = p.perm

-- the id of the token at an address, "" for no address
unfoldable pub token_id : Option ℕ → Action String
token_id none = pure ""
token_id (some a) = do tok ← load_token a; pure tok.id

abbrev pub parent_token : Option Principal → Option ℕ
parent_token none = none
parent_token (some p) = p.token

-- `issuedAt.Add(ttl)` if `ttl > 0`
unfoldable pub expiry : ℕ → ℤ → Option ℕ
expiry now (pos zero) = none
expiry now (pos (suc n)) = some (now + suc n)
expiry now (negsuc n) = none

module _ (w : World) where
  -- newID
  unfoldable pub new_id : String → Action String
  new_id prefix = do n ← question; pure (concat prefix (concat "-" (w.uuid_head n)))

  -- randomToken
  unfoldable pub random_token : Action String
  random_token = do n ← question; pure (concat "arp_" (w.random_hex n))

  -- time.Now().UTC()
  unfoldable pub clock : Action ℕ
  clock = do n ← question; pure (w.now n)

-- `s.tokens[tok.id] = tok; s.byBearer[tok.bearer] = tok`; the result is the entry's address
unfoldable pub add_token : TokenEntry → Action ℕ
add_token tok s =
    let a = length s.token_heap in
    (
      ok a,
      record s {
        token_heap = s.token_heap ++ tok ∷ [];
        tokens = insert tok.id a s.tokens;
        by_bearer = insert tok.bearer a s.by_bearer;
      },
    )

module _ (w : World) where
  -- the entry that a permitted request creates
  unfoldable pub mint : String → Scope → Permission → String → String → ℤ → Action ℕ
  mint parent_token_id scope perm subject session ttl = do
    id ← new_id w "tok"
    bearer ← random_token w
    now ← clock w
    add_token (record {
      id = id;
      subject = subject;
      scope = some scope;
      perm = perm;
      session_id = session;
      parent_token_id = parent_token_id;
      bearer = bearer;
      issued_at = some now;
      expires_at = expiry now ttl;
    })

  unfoldable pub issue_token :
      Option Principal → Option Scope → Permission → String → String → ℤ → Action ℕ
  issue_token parent req_scope req_perm subject session ttl = do
    parent_token_id ← token_id (parent_token parent)
    scope ← or_fail permission_denied (issued_scope (parent_scope parent) req_scope)
    perm ← or_fail permission_denied (issued_perm (parent_perm parent) req_perm)
    mint parent_token_id scope perm subject session ttl

-- `toProto`
unfoldable pub to_proto : TokenEntry → Token
unfolding clone_scope
to_proto t = record {
  id = t.id;
  subject = t.subject;
  scope = clone_scope t.scope;
  permission = t.perm;
  session_id = t.session_id;
  parent_token_id = t.parent_token_id;
  issued_at = t.issued_at;
  expires_at = t.expires_at;
}

-- `time.Duration(n) * time.Second`: an int32 times 10 ^ 9 fits an int64
unfoldable pub seconds : ℤ → ℤ
seconds (pos n) = pos (n * 1000000000)
seconds (negsuc n) = negsuc (suc n * 1000000000 - 1)

abbrev pub is_some : Option Scope → Bool
is_some none = false
is_some (some s) = true

module _ (w : World) where
  unfoldable pub create_token : Call → CreateTokenRequest → Action CreateTokenResponse
  create_token call req = do
    p ← authenticate w call
    guard (not (req.subject == "")) invalid_argument
    guard (is_some req.scope) invalid_argument
    guard (not (is_unspecified req.permission)) invalid_argument
    guard (is_admin p.perm) permission_denied
    a ←
        issue_token w (some p) req.scope req.permission req.subject ""
          (seconds req.expires_in_seconds)
    tok ← load_token a
    pure (record { token = to_proto tok; bearer_token = tok.bearer })
