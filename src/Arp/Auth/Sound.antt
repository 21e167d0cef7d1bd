-- ===== src/Arp/Auth/Sound.antt =====
-- Whom the server takes a caller for.
use spec_torture.Base.{
  ℕ, ◌≡◌, refl, true, Option, none, some, ◌⊎◌, inl, inr, arith, get_elem?, ◌==◌, ◌≤◌, ◌∙◌, sym, ap,
  leb→le, eq_iff, ◌≢◌,
}
use spec_torture.Base.Dict.{lookup}
use spec_torture.Arp.Handler.{ok, internal}
use spec_torture.Arp.Handler.Ensures.{
  Ensures, Ensures-bind, Ensures-guard, Ensures-gets, Ensures-or_fail, Ensures-read, Ensures-pure,
  Ensures-if, Ensures-ok, Ensures-guard_last, Ensures-weaken,
}
use spec_torture.Arp.State.{TokenEntry, Server, World, load_token, question}
use spec_torture.Arp.Auth.{
  Principal, Call, bearer_from_call, is_loopback, local_admin, token_principal, check_expiry,
  by_token, by_peer, authenticate,
}

-- An expiry, if there is one, that had not passed at the time that the call reads off the clock, the
-- answer to the first question that it asks.
abbrev pub IsCurrent : World → Server → Option ℕ → Type 0
IsCurrent w s expiry = (t : ℕ) → expiry ≡ some t → w.now s.tick ≤ t

-- The caller brought a bearer that the server knows, and acts for its token.
abbrev pub ByToken : World → Call → Server → Principal → Type 0
ByToken w call s p =
    (a : ℕ) × ((tok : TokenEntry) × (bearer_from_call call ≢ "")
      × (lookup (bearer_from_call call) s.by_bearer ≡ some a)
      × (get_elem? s.token_heap a ≡ some tok)
      × IsCurrent w s tok.expires_at
      × (p ≡ token_principal a tok))

-- The caller brought no bearer and is local, where local callers are trusted.
abbrev pub ByPeer : World → Call → Server → Principal → Type 0
ByPeer w call s p =
    (bearer_from_call call ≡ "")
    × (s.cfg.localhost_admin ≡ true)
    × (is_loopback w call ≡ true)
    × (p ≡ local_admin)

module _ (w : World) (call : Call) (s : Server) where
  by_peer-ByPeer :
      bearer_from_call call ≡ "" → Ensures (λ u. u ≡ s) (by_peer w call) (λ p _. ByPeer w call s p)
  unfolding by_peer
  by_peer-ByPeer missing =
      Ensures-gets _ _ λ trusted. Ensures-guard _ _ _ λ allowed. Ensures-pure _ λ u h. ground arith

  question_keeps :
      {P : Server → Type 0} (F : Type 0)
      → ((u : Server) → P u → F × (u.tick ≡ s.tick))
      → Ensures P question (λ n _. F × (n ≡ s.tick))
  unfolding question
  question_keeps F known = record { at = known }

  -- what is known before is known after
  check_expiry-IsCurrent :
      {P : Server → Type 0} (F : Type 0) (expiry : Option ℕ)
      → ((u : Server) → P u → F × (u.tick ≡ s.tick))
      → Ensures P (check_expiry w expiry) (λ _ _. F × IsCurrent w s expiry)
  unfolding check_expiry question
  check_expiry-IsCurrent F none known = Ensures-pure _ λ u h. ((known u h).0, λ t e. cc)
  check_expiry-IsCurrent F (some t) known = Ensures-bind _ _ (question_keeps F known) λ n.
      Ensures-guard_last _ _ λ fresh u h. (
        h.0,
        λ t' e. let same : t ≡ t' = ground arith in rw (← same, ← h.1) (leb→le (w.now n) t fresh),
      )

  by_token-ByToken :
      bearer_from_call call ≢ ""
      → Ensures (λ u. u ≡ s) (by_token w (bearer_from_call call)) (λ p _. ByToken w call s p)
  unfolding by_token load_token
  by_token-ByToken given = Ensures-gets _ _ λ found. Ensures-or_fail _ _ _ λ a e.
      Ensures-bind _ _ (Ensures-read internal (λ u. get_elem? u.token_heap a)) λ tok.
        Ensures-bind _ _
          (check_expiry-IsCurrent
            ((lookup (bearer_from_call call) s.by_bearer ≡ some a)
              × (get_elem? s.token_heap a ≡ some tok))
            tok.expires_at
            (λ u h.
              let same : u ≡ s = h.0.0 in
              (
                (
                  ap (λ x. lookup (bearer_from_call call) x.by_bearer) (sym same) ∙ (h.0.1 ∙ e),
                  ap (λ x. get_elem? x.token_heap a) (sym same) ∙ h.1,
                ),
                ap (λ x. x.tick) same,
              )))
          λ _. Ensures-pure _ λ u h. (a, (tok, given, h.0.0, h.0.1, h.1, refl))

  authenticate-ByToken :
      Ensures (λ u. u ≡ s) (authenticate w call) (λ p _. ByToken w call s p ⊎ ByPeer w call s p)
  unfolding authenticate
  authenticate-ByToken =
      Ensures-if (bearer_from_call call == "") _ _
        (λ missing.
          Ensures-weaken (λ p u h. inr h)
            (by_peer-ByPeer (ground (arith, eq_iff (bearer_from_call call) ""))))
        (λ given.
          Ensures-weaken (λ p u h. inl h)
            (by_token-ByToken (ground (arith, eq_iff (bearer_from_call call) ""))))

-- A caller is authenticated either for a token, whose bearer it brought, which the server knows and
-- whose expiry, if it has one, is not before the time that this call reads off the clock, and then
-- with exactly the token's rights; or as the local administrator,
-- if it brought no bearer, is on the loopback and the configuration trusts such callers.
pub authenticate_lem :
    (w : World) (call : Call) (s t : Server) (p : Principal)
    → authenticate w call s ≡ (ok p, t)
    → ByToken w call s p ⊎ ByPeer w call s p
authenticate_lem w call s t p e = Ensures-ok _ (authenticate-ByToken w call s) s t p refl e
