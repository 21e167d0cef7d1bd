-- ===== src/Arp/Tokens/Create.antt =====
-- Who may create a token, and what the answer to the call says.
use spec_torture.Base.{ℕ, ◌≡◌, refl, true, some, get_elem?}
use spec_torture.Arp.Handler.{ok, internal}
use spec_torture.Arp.Handler.Ensures.{
  Ensures, Ensures-bind, Ensures-guard, Ensures-run, Ensures-read, Ensures-known, Ensures-pure,
  Ensures-ok,
}
use spec_torture.Arp.State.{TokenEntry, Server, World, load_token}
use spec_torture.Arp.Scope.{is_admin}
use spec_torture.Arp.Auth.{Principal, Call, authenticate}
use spec_torture.Arp.Tokens.{
  CreateTokenRequest, CreateTokenResponse, to_proto, create_token, seconds,
}
use spec_torture.Arp.Tokens.Issue.{Granted, issue_token-Granted}

-- Who asked from the state `s`, and what is left in `t`.
pub record Created (w : World) (call : Call) (s : Server) (answer : CreateTokenResponse)
    (t : Server) : Type 0 where
  pub caller : Principal
  pub midway : Server
  pub at : ℕ
  pub token : TokenEntry
  pub authenticated : authenticate w call s ≡ (ok caller, midway)
  pub admin : is_admin caller.perm ≡ true
  pub granted : Granted caller at t
  pub stored : get_elem? t.token_heap at ≡ some token
  pub shown : answer.token ≡ to_proto token
  pub bearer : answer.bearer_token ≡ token.bearer

create_token-Created :
    (w : World) (call : Call) (req : CreateTokenRequest) (s : Server)
    → Ensures (λ u. u ≡ s) (create_token w call req) (Created w call s)
unfolding create_token load_token
create_token-Created w call req s = Ensures-bind _ _ (Ensures-run (authenticate w call) s) λ p.
    Ensures-guard _ _ _ λ named. Ensures-guard _ _ _ λ scoped. Ensures-guard _ _ _ λ ranked.
      Ensures-guard _ _ _ λ admin.
        Ensures-bind _ _
          (Ensures-known ((midway : Server) × (authenticate w call s ≡ (ok p, midway)))
            (λ u h. (u, h))
            (issue_token-Granted w p req.scope req.permission req.subject ""
              (seconds req.expires_in_seconds)))
          λ a. Ensures-bind _ _ (Ensures-read internal (λ u. get_elem? u.token_heap a)) λ tok.
            Ensures-pure _ λ u h. record {
              caller = p;
              midway = h.0.0.0;
              at = a;
              token = tok;
              authenticated = h.0.0.1;
              admin = admin;
              granted = h.0.1;
              stored = h.1;
              shown = refl;
              bearer = refl;
            }

-- Only an authenticated admin creates a token; the token is live under its bearer and within the
-- rights of that admin, and the answer shows the stored token and its bearer.
pub create_token_lem :
    (w : World) (call : Call) (req : CreateTokenRequest) (s t : Server)
    (answer : CreateTokenResponse)
    → create_token w call req s ≡ (ok answer, t)
    → Created w call s answer t
create_token_lem w call req s t answer e =
    Ensures-ok _ (create_token-Created w call req s) s t answer refl e
