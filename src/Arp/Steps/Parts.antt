-- ===== src/Arp/Steps/Parts.antt =====
-- The parts of the handlers are sequences of steps.
use spec_torture.Base.{ℕ, zero, suc, ◌+◌, String, Option, none, some, arith}
use spec_torture.Base.Int.{ℤ}
use spec_torture.Arp.Handler.{modify}
use spec_torture.Arp.Handler.Follows.{
  Follows, Follows-pure, Follows-bind, Follows-modify, Follows-on_error, Follows-if,
  Follows-or_fail, follows_rules,
}
use spec_torture.Arp.Messages.{Scope, Permission}
use spec_torture.Arp.State.{
  TokenEntry, Server, World, Action, question, load_token, load_agent, load_workspace,
}
use spec_torture.Arp.Auth.{Principal, Call, check_expiry, by_token, by_peer, authenticate}
use spec_torture.Arp.Tokens.{token_id, new_id, random_token, clock, add_token, mint, issue_token}
use spec_torture.Arp.Ports.{
  use_port, free_port, scan_ports, scan_range, system_port, or_system, alloc_port,
}
use spec_torture.Arp.Steps.{
  Quiet, SameAgent, Step, Steps, quiet, first_session, here, next, one, Steps-append,
  Steps-IsPreorder,
}

abbrev pub Moves : {A : Type 0} → Action A → Type 0
Moves m = Follows Steps m

-- a change of the state by a function, which keeps everything but the quiet fields
abbrev pub IsQuiet : (Server → Server) → Type 0
IsQuiet f = (s : Server) → Quiet s (f s)

pub quietly : (f : Server → Server) → IsQuiet f → (s : Server) → Steps s (f s)
quietly f h s = one (quiet (h s))

pub Quiet-refl : (s : Server) → Quiet s s
Quiet-refl s = ground arith

pub Quiet-trans : {s t u : Server} → Quiet s t → Quiet t u → Quiet s u
Quiet-trans p q = ground arith

pub question-Moves : Moves question
unfolding question
question-Moves = record { at = λ s. one (quiet (ground arith)) }

pub load_token-Moves : (a : ℕ) → Moves (load_token a)
unfolding load_token
load_token-Moves a = record { at = λ s. (Follows-or_fail Steps-IsPreorder _ _).at s }

pub load_agent-Moves : (a : ℕ) → Moves (load_agent a)
unfolding load_agent
load_agent-Moves a = record { at = λ s. (Follows-or_fail Steps-IsPreorder _ _).at s }

pub load_workspace-Moves : (a : ℕ) → Moves (load_workspace a)
unfolding load_workspace
load_workspace-Moves a = record { at = λ s. (Follows-or_fail Steps-IsPreorder _ _).at s }

pub modify-Moves : (f : Server → Server) → ((s : Server) → Steps s (f s)) → Moves (modify f)
modify-Moves f h = Follows-modify Steps-IsPreorder f h

pub ruleset reads = (
  Steps-IsPreorder, follows_rules, question-Moves, load_token-Moves, load_agent-Moves,
  load_workspace-Moves,
)

module _ (w : World) where
  check_expiry-Moves : (t : Option ℕ) → Moves (check_expiry w t)
  unfolding check_expiry
  check_expiry-Moves none = search reads
  check_expiry-Moves (some t) = search reads

  pub authenticate-Moves : (call : Call) → Moves (authenticate w call)
  unfolding authenticate by_token by_peer
  authenticate-Moves call = search (reads, check_expiry-Moves) depth 12

  pub new_id-Moves : (prefix : String) → Moves (new_id w prefix)
  unfolding new_id
  new_id-Moves prefix = search reads

  random_token-Moves : Moves (random_token w)
  unfolding random_token
  random_token-Moves = search reads

  pub clock-Moves : Moves (clock w)
  unfolding clock
  clock-Moves = search reads

pub token_id-Moves : (t : Option ℕ) → Moves (token_id t)
unfolding token_id
token_id-Moves none = search reads
token_id-Moves (some a) = search reads

add_token-Moves : (tok : TokenEntry) → Moves (add_token tok)
add_token-Moves tok = record { at = λ s. one (Step.mint tok) }

module _ (w : World) where
  mint-Moves :
      (parent : String) (scope : Scope) (perm : Permission) (subject session : String) (ttl : ℤ)
      → Moves (mint w parent scope perm subject session ttl)
  unfolding mint
  mint-Moves parent scope perm subject session ttl =
      search (reads, new_id-Moves, random_token-Moves, clock-Moves, add_token-Moves) depth 12

  pub issue_token-Moves :
      (parent : Option Principal) (req_scope : Option Scope) (req_perm : Permission)
      (subject session : String) (ttl : ℤ)
      → Moves (issue_token w parent req_scope req_perm subject session ttl)
  unfolding issue_token
  issue_token-Moves parent req_scope req_perm subject session ttl =
      search (reads, token_id-Moves, mint-Moves) depth 12

pub use_port-IsQuiet : (port : ℕ) → IsQuiet (use_port port)
unfolding use_port
use_port-IsQuiet port s = ground arith

pub free_port-IsQuiet : (port : ℕ) → IsQuiet (free_port port)
unfolding free_port
free_port-IsQuiet port s = ground arith

module _ (w : World) where
  scan_ports-IsQuiet : (n port : ℕ) → IsQuiet (λ s. (scan_ports w n port s).1)
  unfolding scan_ports use_port
  scan_ports-IsQuiet zero port s = Quiet-refl s
  scan_ports-IsQuiet (suc n) port s = ground (
    arith,
    scan_ports-IsQuiet n (port + 1) s,
    scan_ports-IsQuiet n (port + 1) (record s { tick = s.tick + 1 }),
  )

  scan_range-Moves : Moves (scan_range w)
  unfolding scan_range
  scan_range-Moves = record { at = λ s. quietly _ (scan_ports-IsQuiet _ _) s }

  system_port-Moves : Moves (system_port w)
  unfolding system_port
  system_port-Moves = search (reads, modify-Moves, quietly, use_port-IsQuiet) depth 12

  or_system-Moves : (found : Option ℕ) → Moves (or_system w found)
  or_system-Moves none = system_port-Moves
  or_system-Moves (some port) = search reads

  pub alloc_port-Moves : Moves (alloc_port w)
  unfolding alloc_port
  alloc_port-Moves = search (reads, scan_range-Moves, or_system-Moves) depth 12

pub ruleset move_rules = (
  reads, authenticate-Moves, new_id-Moves, clock-Moves, token_id-Moves, issue_token-Moves,
  alloc_port-Moves, modify-Moves,
)
