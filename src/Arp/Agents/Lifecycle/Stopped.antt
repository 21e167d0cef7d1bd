-- ===== src/Arp/Agents/Lifecycle/Stopped.antt =====
-- What a stop leaves.
use spec_torture.Base.{
  ℕ, ◌≡◌, refl, String, true, false, Option, none, some, arith, get_elem?, has, has-without,
  get_elem?-set, eqb, eqb_iff, Option-cases, inl, inr,
}
use spec_torture.Base.Dict.{lookup}
use spec_torture.Arp.Messages.{AgentStatus, AgentEventType, AgentCard}
use spec_torture.Arp.State.{AgentEntry, Server, World, store_agent}
use spec_torture.Arp.Ports.{free_port}
use spec_torture.Arp.Cards.{refresh_card}
use spec_torture.Arp.Events.{publish_agent_event}
use spec_torture.Arp.Agents.{update_agent}
use spec_torture.Arp.Agents.Lifecycle.{
  release_port, begin_stop, stopping_entry, finish_stop, stopped_entry, stop_agent_internal,
}

-- The agent at `a` has stopped, without a handle or a process, and its port is free.
pub record IsStopped (a port : ℕ) (t : Server) : Type 0 where
  pub entry : AgentEntry
  pub stored : get_elem? t.agent_heap a ≡ some entry
  pub status : entry.pb.status ≡ AgentStatus.stopped
  pub no_handle : entry.handle ≡ none
  pub no_process : entry.pb.pid ≡ 0
  pub same_port : entry.pb.port ≡ port
  pub port_freed : has t.used_ports port ≡ false

eqb_same : (n : ℕ) → eqb n n ≡ true
eqb_same n = ground (arith, eqb_iff n n)

get_elem?-update_agent :
    (a : ℕ) (f : AgentEntry → AgentEntry) (s : Server) (e : AgentEntry)
    → get_elem? s.agent_heap a ≡ some e
    → get_elem? (update_agent a f s).agent_heap a ≡ some (f e)
unfolding update_agent store_agent
get_elem?-update_agent a f s e found =
    rw (update_agent, found) (rw get_elem?-set (rw (found, eqb_same a) refl))

agent_heap-publish :
    (a : ℕ) (type : AgentEventType) (card : Option AgentCard) (s : Server)
    → (publish_agent_event a type card s).agent_heap ≡ s.agent_heap
unfolding publish_agent_event
agent_heap-publish a type card s = ground arith

used_ports-publish :
    (a : ℕ) (type : AgentEventType) (card : Option AgentCard) (s : Server)
    → (publish_agent_event a type card s).used_ports ≡ s.used_ports
unfolding publish_agent_event
used_ports-publish a type card s = ground arith

used_ports-update_agent :
    (a : ℕ) (f : AgentEntry → AgentEntry) (s : Server)
    → (update_agent a f s).used_ports ≡ s.used_ports
unfolding update_agent store_agent
used_ports-update_agent a f s = elim (Option-cases (get_elem? s.agent_heap a)) [
  | inl missing ↦ rw (update_agent, missing) refl
  | inr (e, found) ↦ rw (update_agent, found) refl
]

release_port-free_port :
    (a : ℕ) (s : Server) (e : AgentEntry)
    → get_elem? s.agent_heap a ≡ some e
    → release_port a s ≡ free_port e.pb.port s
unfolding release_port
release_port-free_port a s e found = rw (release_port, found) refl

finish_stop-IsStopped :
    (w : World) (a : ℕ) (s : Server) (e : AgentEntry)
    → get_elem? s.agent_heap a ≡ some e
    → IsStopped a e.pb.port (finish_stop w a s)
unfolding finish_stop refresh_card free_port
finish_stop-IsStopped w a s e found = record {
  entry = stopped_entry w e;
  stored =
      rw (agent_heap-publish, release_port-free_port a s e found)
        (get_elem?-update_agent a (stopped_entry w) (free_port e.pb.port s) e found);
  status = refl;
  no_handle = refl;
  no_process = refl;
  same_port = refl;
  port_freed =
      rw (used_ports-publish, used_ports-update_agent, release_port-free_port a s e found)
        (rw (has-without s.used_ports e.pb.port e.pb.port, eqb_same e.pb.port) refl);
}

begin_stop-keeps :
    (w : World) (a : ℕ) (s : Server) (e : AgentEntry)
    → get_elem? s.agent_heap a ≡ some e
    → get_elem? (begin_stop w a s).agent_heap a ≡ some (stopping_entry w e)
unfolding begin_stop
begin_stop-keeps w a s e found =
    rw agent_heap-publish (get_elem?-update_agent a (stopping_entry w) s e found)

-- After a stop of a registered agent, whatever its status was, its entry is stopped, has neither a
-- handle nor a process, and names the port that it had, which is no longer in use.
pub stop_agent_internal-IsStopped :
    (w : World) (id : String) (s : Server) (a : ℕ) (e : AgentEntry)
    → lookup id s.agents ≡ some a
    → get_elem? s.agent_heap a ≡ some e
    → IsStopped a e.pb.port (stop_agent_internal w id s)
unfolding stop_agent_internal refresh_card
stop_agent_internal-IsStopped w id s a e named found =
    rw (stop_agent_internal, named)
      (finish_stop-IsStopped w a (begin_stop w a s) (stopping_entry w e)
        (begin_stop-keeps w a s e found))
