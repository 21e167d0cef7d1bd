-- ===== src/Runner/Http/Poll.antt =====
-- How a poll of internal/runner/http_runner.go ends.
use spec_torture.Base.{ℕ, ◌+◌, ◌≤◌, ◌<◌, ◌≡◌, ◌⊎◌, Bool, true, false, none, some}
use spec_torture.Runner.Host.{Host}
use spec_torture.Runner.Transport.{Response}
use spec_torture.Runner.Http.{
  no_reply, cancelled, Sent, got, failed, Link, Attempt, done, again, is_final,
}

module _ (h : Host) where
  -- What one attempt may do: it asks once, and goes on without a response only if it is not the last.
  abbrev Tells : Bool → Link → Attempt → Type 0
  Tells last l (done (got none) l') = ⊥
  Tells last l (done (got (some r)) l') =
      (is_final h r ≡ true) × (l'.last_response ≡ some r) × (l'.asked ≡ l.asked + 1)
  Tells last l (done (failed no_reply) l') = (last ≡ true) × (l'.asked ≡ l.asked + 1)
  Tells last l (done (failed cancelled) l') = (last ≡ false) × (l'.asked ≡ l.asked + 1)
  Tells last l (done (failed _) l') = ⊥
  Tells last l (again kept l') =
      (l'.asked ≡ l.asked + 1)
      × (last ≡ true → (r : Response) × (kept ≡ some r) × (l'.last_response ≡ some r))

  -- How a poll of `rounds` attempts, the first of them with `l`, may end.
  abbrev pub Ends : Link → ℕ → Sent × Link → Type 0
  Ends l rounds (got none, l') = (rounds ≡ 0) × (l' ≡ l)
  Ends l rounds (got (some r), l') =
      (l'.last_response ≡ some r)
      × (l'.asked ≤ l.asked + rounds)
      × ((is_final h r ≡ true) ⊎ (l'.asked ≡ l.asked + rounds))
  Ends l rounds (failed no_reply, l') = l'.asked ≡ l.asked + rounds
  Ends l rounds (failed cancelled, l') = l'.asked < l.asked + rounds
  Ends l rounds (failed _, l') = ⊥
