-- ===== src/Arp/Tokens/Issue.antt =====
-- What an issued token may do: no more than the principal that asked for it.
use spec_torture.Base.{
  ℕ, ◌≡◌, refl, String, true, Option, none, some, arith, get_elem?, get_elem?-append_length,
  eq_refl, subst, sym,
}
use spec_torture.Base.Int.{ℤ, pos, ◌≤ℤ◌}
use spec_torture.Base.Dict.{lookup, lookup-insert}
use spec_torture.Arp.Handler.{ok}
use spec_torture.Arp.Handler.Ensures.{
  Ensures, Ensures-bind, Ensures-any, Ensures-or_fail, Ensures-ok,
}
use spec_torture.Arp.Messages.{Scope, Permission, permission_number}
use spec_torture.Arp.State.{TokenEntry, Server, World}
use spec_torture.Arp.Scope.{can_access_project, is_session}
use spec_torture.Arp.Scope.Narrowing.{scope_subset_sound}
use spec_torture.Arp.Auth.{Principal}
use spec_torture.Arp.Tokens.{
  issued_scope, issued_perm, mint, issue_token, add_token, token_id, new_id, random_token, clock,
}

issued_scope_narrows :
    (parent requested : Option Scope) {scope : Scope} (name : String)
    → issued_scope parent requested ≡ some scope
    → can_access_project (some scope) name ≡ true
    → can_access_project parent name ≡ true
unfolding issued_scope
issued_scope_narrows none requested name h k = unfold can_access_project in refl
issued_scope_narrows (some p) none {scope} name h k = let e : p ≡ scope = ground arith in rw e k
issued_scope_narrows (some p) (some r) {scope} name h k =
    scope_subset_sound r (some p) name (ground arith) (let e : r ≡ scope = ground arith in rw e k)

issued_perm_lowers :
    (parent requested : Permission) {perm : Permission}
    → issued_perm parent requested ≡ some perm
    → permission_number perm ≤ℤ permission_number parent
unfolding issued_perm
issued_perm_lowers parent requested h = ground arith

-- a principal that is confined to its session gives only such a permission, or a negative number
issued_perm_confines :
    (parent requested : Permission) {perm : Permission}
    → issued_perm parent requested ≡ some perm
    → is_session parent ≡ true
    → pos 0 ≤ℤ permission_number perm
    → is_session perm ≡ true
unfolding issued_perm
issued_perm_confines parent Permission.unspecified {perm} h k l =
    let same : parent ≡ perm = ground arith in rw (← same) k
issued_perm_confines parent (Permission.negative n) {perm} h k l =
    let same : Permission.negative n ≡ perm = ground arith in
    let below : pos 0 ≤ℤ permission_number (Permission.negative n) =
      subst (λ x. pos 0 ≤ℤ permission_number x) (sym same) l in
    absurd (omega arith)
issued_perm_confines parent Permission.session h k l = ground arith
issued_perm_confines parent Permission.project h k l = ground arith
issued_perm_confines parent Permission.admin h k l = ground arith
issued_perm_confines parent (Permission.beyond n) h k l = ground arith

-- The rights of a token against those of a principal: a permission that is no higher, a scope that
-- reaches no further project, and for a principal confined to its session a token that is confined
-- too, unless its permission is a negative number.
pub record IsWithin (tok : TokenEntry) (p : Principal) : Type 0 where
  pub lower : permission_number tok.perm ≤ℤ permission_number p.perm
  pub narrower :
      (name : String)
      → can_access_project tok.scope name ≡ true
      → can_access_project p.scope name ≡ true
  pub confined :
      is_session p.perm ≡ true → pos 0 ≤ℤ permission_number tok.perm → is_session tok.perm ≡ true

-- A live token within the rights of `p`, found by its bearer.
abbrev pub Granted : Principal → ℕ → Server → Type 0
Granted p a t =
    (tok : TokenEntry) × (get_elem? t.token_heap a ≡ some tok)
    × (lookup tok.bearer t.by_bearer ≡ some a)
    × IsWithin tok p

add_token-Granted :
    (p : Principal) (tok : TokenEntry)
    → IsWithin tok p
    → Ensures (λ _. Unit) (add_token tok) (Granted p)
unfolding add_token
add_token-Granted p tok within = record {
  at = λ s _. (tok, get_elem?-append_length s.token_heap tok, rw (lookup-insert, eq_refl), within);
}

module _ (w : World) (p : Principal) (req_scope : Option Scope) (req_perm : Permission)
    (subject session : String) (ttl : ℤ) where
  mint-Granted :
      (parent : String) (scope : Scope) (perm : Permission)
      → issued_scope p.scope req_scope ≡ some scope
      → issued_perm p.perm req_perm ≡ some perm
      → Ensures (λ _. Unit) (mint w parent scope perm subject session ttl) (Granted p)
  unfolding mint
  mint-Granted parent scope perm hs hp = Ensures-bind _ _ (Ensures-any (new_id w "tok")) λ id.
      Ensures-bind _ _ (Ensures-any (random_token w)) λ bearer.
        Ensures-bind _ _ (Ensures-any (clock w)) λ now. add_token-Granted p _ (record {
          lower = issued_perm_lowers p.perm req_perm hp;
          narrower = λ name. issued_scope_narrows p.scope req_scope name hs;
          confined = issued_perm_confines p.perm req_perm hp;
        })

  pub issue_token-Granted :
      Ensures
        (λ _. Unit)
        (issue_token w (some p) req_scope req_perm subject session ttl)
        (Granted p)
  unfolding issue_token
  issue_token-Granted = Ensures-bind _ _ (Ensures-any (token_id p.token)) λ parent.
      Ensures-or_fail _ _ _
        λ scope hs. Ensures-or_fail _ _ _ λ perm hp. mint-Granted parent scope perm hs hp

-- Whenever a principal is issued a token, the token is live under its bearer, the number of its
-- permission is no higher than the principal's, and it reaches no project that the principal does not
-- reach. If the principal is confined to its session by its permission, so is the token, unless its
-- permission is a negative number, which the code lets through.
pub issue_token_narrows :
    (w : World) (p : Principal) (req_scope : Option Scope) (req_perm : Permission)
    (subject session : String) (ttl : ℤ) (s t : Server) (a : ℕ)
    → issue_token w (some p) req_scope req_perm subject session ttl s ≡ (ok a, t)
    → Granted p a t
issue_token_narrows w p req_scope req_perm subject session ttl s t a e =
    Ensures-ok _ (issue_token-Granted w p req_scope req_perm subject session ttl) s t a tt e
