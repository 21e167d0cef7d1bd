-- ===== src/Arp/Ports/Fresh.antt =====
-- A port that the scan finds was not reserved, and is from then on.
use spec_torture.Base.{
  ℕ, zero, suc, ◌+◌, ◌≤◌, ◌<◌, ◌≡◌, refl, ◌⊎◌, inl, inr, true, false, Option, none, some, has,
  arith, eqb, eqb_iff, Bool-cases,
}
use spec_torture.Arp.State.{Server, World}
use spec_torture.Arp.Ports.{ticked, use_port, scan_ports}

has-use_port : (p : ℕ) (s : Server) → has (use_port p s).used_ports p ≡ true
unfolding use_port
has-use_port p s = elim (Bool-cases (has s.used_ports p)) [
  | inl e ↦ rw e e
  | inr e ↦ rw e (ground (arith, eqb_iff p p))
]

module _ (w : World) where
  -- What a scan of `rounds` ports from `port` on may find.
  abbrev pub Scanned : ℕ → ℕ → Server → Option ℕ × Server → Type 0
  Scanned rounds port s (some p, t) =
      (port ≤ p)
      × (p < port + rounds)
      × (has s.used_ports p ≡ false)
      × (has t.used_ports p ≡ true)
      × ((n : ℕ) × (w.port_free n p ≡ true))
  Scanned rounds port s (none, t) =
      (q : ℕ)
      → port ≤ q
      → q < port + rounds
      → (has s.used_ports q ≡ true) ⊎ ((n : ℕ) × (w.port_free n q ≡ false))

  -- a port that is skipped leaves the scan to the ports after it
  skip_port :
      (rounds port : ℕ) (s s' : Server) (r : Option ℕ × Server)
      → s'.used_ports ≡ s.used_ports
      → (has s.used_ports port ≡ true) ⊎ ((n : ℕ) × (w.port_free n port ≡ false))
      → Scanned rounds (port + 1) s' r
      → Scanned (suc rounds) port s r
  skip_port rounds port s s' (some p, t) same skipped (l, u, f, g, h) =
      (omega (arith, l), omega (arith, u), rw (← same) f, g, h)
  skip_port rounds port s s' (none, t) same skipped h = λ q l u. elim (Bool-cases (eqb port q)) [
    | inl e ↦ let at : port ≡ q = (eqb_iff port q).0 e in rw (← at) skipped
    | inr e ↦
        let apart : ¬ (port ≡ q) = ground (arith, eqb_iff port q) in
        rw (← same) (h q (omega arith) (omega arith))
  ]

  -- Whatever the ports in use and the answers of the system, the scan returns a port of its range
  -- that was not in use, that the system agreed to and that is in use afterwards; it gives up only
  -- when each port of the range is in use or was refused.
  pub scan_ports-Scanned :
      (rounds port : ℕ) (s : Server) → Scanned rounds port s (scan_ports w rounds port s)
  unfolding scan_ports
  scan_ports-Scanned zero port s = λ q l u. absurd (omega arith)
  scan_ports-Scanned (suc rounds) port s = elim (Bool-cases (has s.used_ports port)) [
    | inl busy ↦
        rw busy
          (skip_port rounds port s s _ refl (inl busy) (scan_ports-Scanned rounds (port + 1) s))
    | inr unused ↦ elim (Bool-cases (w.port_free s.tick port)) [
      | inl free ↦
          rw (unused, free) (omega arith, omega arith, unused, has-use_port port _, (s.tick, free))
      | inr refused ↦
          rw (unused, refused)
            (skip_port rounds port s (ticked s) _ refl (inr (s.tick, refused))
              (scan_ports-Scanned rounds (port + 1) (ticked s)))
    ]
  ]
