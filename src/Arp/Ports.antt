-- ===== src/Arp/Ports.antt =====
-- arp/server/server.go: the ports that the server hands to agents (`allocPort`, `freePort`).
pub mod Fresh
use spec_torture.Base.{
  ℕ, zero, suc, ◌+◌, ◌-◌, Bool, Option, none, some, List, [], ◌∷◌, has, without, if◌then◌else◌,
}
use spec_torture.Arp.Handler.{
  Handler, Result, ok, err, or_fail, gets, modify, pure, ◌>>=◌, ◌>>◌, internal,
}
use spec_torture.Arp.State.{Server, World, Action, question}

-- `s.usedPorts[port] = true`
unfoldable pub use_port : ℕ → Server → Server
use_port port s = if has s.used_ports port then s else record s { used_ports = port ∷ s.used_ports }

unfoldable pub free_port : ℕ → Server → Server
free_port port s = record s { used_ports = without s.used_ports port }

abbrev pub ticked : Server → Server
ticked s = record s { tick = s.tick + 1 }

module _ (w : World) where
  -- The loop from `port` on, `rounds` ports long: the first port that is neither in use nor refused
  -- by the system.
  unfoldable pub scan_ports : ℕ → ℕ → Server → Option ℕ × Server
  scan_ports zero port s = (none, s)
  scan_ports (suc rounds) port s =
      let busy = scan_ports rounds (port + 1) s in
      let refused = scan_ports rounds (port + 1) (ticked s) in
      if has s.used_ports port
      then busy
      else if w.port_free s.tick port
      then (some port, use_port port (ticked s))
      else refused

  -- Outside the range, the system chooses.
  unfoldable pub system_port : Action ℕ
  system_port = do
    n ← question
    port ← or_fail internal (w.os_port n)
    modify (use_port port)
    pure port

  abbrev pub or_system : Option ℕ → Action ℕ
  or_system none = system_port
  or_system (some port) = pure port

  -- `min .. max` holds max + 1 - min ports. Every caller reports a failure as `internal`.
  unfoldable pub scan_range : Action (Option ℕ)
  scan_range s =
      let (found, t) = scan_ports (s.cfg.max_port + 1 - s.cfg.min_port) s.cfg.min_port s in
      (ok found, t)

  unfoldable pub alloc_port : Action ℕ
  alloc_port = do found ← scan_range; or_system found
