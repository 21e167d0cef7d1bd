-- ===== src/Arp/Steps/Pointers.antt =====
-- Every address that a map holds is that of an entry with the map's key.
use spec_torture.Base.{
  ℕ, ◌≡◌, refl, String, some, List, [], ◌∷◌, ◌++◌, arith, get_elem?, get_elem?-append_length,
  length, eq_iff, ◌==◌, Bool-cases, inl, inr, set, ◌∙◌,
}
use spec_torture.Base.Dict.{
  Dict, lookup, insert, delete, lookup-insert, lookup-delete, lookup-empty,
}
use spec_torture.Arp.State.{
  Config, WorkspaceEntry, AgentEntry, TokenEntry, Server, World, store_token, store_agent,
  store_workspace,
}
use spec_torture.Arp.Auth.{Call}
use spec_torture.Arp.Tokens.{add_token}
use spec_torture.Arp.Agents.Spawn.{add_agent}
use spec_torture.Arp.Workspaces.{add_workspace}
use spec_torture.Arp.Seed.{new}
use spec_torture.Arp.Rpc.{Rpc, handle_all}
use spec_torture.Arp.Steps.{
  Step, Steps-keep, quiet, mint, first_session, enlist, write_agent, forget_agent, open_workspace,
  write_workspace, close_workspace,
}
use spec_torture.Arp.Steps.Calls.{handle_all-Steps}
use spec_torture.Arp.Steps.Rights.{At, At-set, At-append}

-- A map of addresses into a heap whose entries know their keys.
abbrev pub Points : {A : Type 0} → (A → String) → Dict ℕ → List A → Type 0
Points key m xs = (k : String) (a : ℕ) → lookup k m ≡ some a → At (λ x. key x ≡ k) a xs

module _ {A : Type 0} (key : A → String) (m : Dict ℕ) (xs : List A) where
  Points-add : (x : A) → Points key m xs → Points key (insert (key x) (length xs) m) (xs ++ x ∷ [])
  Points-add x h k a found = elim (Bool-cases (key x == k)) [
    | inl same ↦
        let at : length xs ≡ a = ground (arith, lookup-insert (key x) k (length xs) m) in
        rw (← at) (x, get_elem?-append_length xs x, (eq_iff _ _).0 same)
    | inr other ↦
        At-append (λ y. key y ≡ k) a xs x
          (h k a (ground (arith, lookup-insert (key x) k (length xs) m)))
  ]

  Points-set :
      (i : ℕ) (y y' : A)
      → get_elem? xs i ≡ some y
      → key y' ≡ key y
      → Points key m xs
      → Points key m (set xs i y')
  Points-set i y y' found same h k a e =
      At-set (λ x. key x ≡ k) a xs i y y' found (λ p. same ∙ p) (h k a e)

  Points-delete : (j : String) → Points key m xs → Points key (delete j m) xs
  Points-delete j h k a found = h k a (ground (arith, lookup-delete j k m))

-- No map of the server holds a dangling or a misfiled address.
pub record IsWellFormed (s : Server) : Type 0 where
  pub tokens : Points (λ (x : TokenEntry). x.id) s.tokens s.token_heap
  pub bearers : Points (λ (x : TokenEntry). x.bearer) s.by_bearer s.token_heap
  pub agents : Points (λ (x : AgentEntry). x.pb.id) s.agents s.agent_heap
  pub workspaces : Points (λ (x : WorkspaceEntry). x.pb.name) s.workspaces s.workspace_heap

Step-IsWellFormed : (s t : Server) → Step s t → IsWellFormed s → IsWellFormed t
unfolding add_token store_token add_agent store_agent add_workspace store_workspace
Step-IsWellFormed s t (quiet q) h = record {
  tokens = rw (q.tokens, q.token_heap) h.tokens;
  bearers = rw (q.by_bearer, q.token_heap) h.bearers;
  agents = rw (q.agents, q.agent_heap) h.agents;
  workspaces = rw (q.workspaces, q.workspace_heap) h.workspaces;
}
Step-IsWellFormed s t (mint tok) h = record {
  tokens = Points-add _ s.tokens s.token_heap tok h.tokens;
  bearers = Points-add _ s.by_bearer s.token_heap tok h.bearers;
  agents = h.agents;
  workspaces = h.workspaces;
}
Step-IsWellFormed s t (first_session a tok sess found unset) h = record {
  tokens = Points-set _ s.tokens s.token_heap a tok _ found refl h.tokens;
  bearers = Points-set _ s.by_bearer s.token_heap a tok _ found refl h.bearers;
  agents = h.agents;
  workspaces = h.workspaces;
}
Step-IsWellFormed s t (enlist e) h = record {
  tokens = h.tokens;
  bearers = h.bearers;
  agents = Points-add (λ (x : AgentEntry). x.pb.id) s.agents s.agent_heap e h.agents;
  workspaces = h.workspaces;
}
Step-IsWellFormed s t (write_agent a e e' found same) h = record {
  tokens = h.tokens;
  bearers = h.bearers;
  agents =
      Points-set (λ (x : AgentEntry). x.pb.id) s.agents s.agent_heap a e e' found same.id h.agents;
  workspaces = h.workspaces;
}
Step-IsWellFormed s t (forget_agent id) h = record {
  tokens = h.tokens;
  bearers = h.bearers;
  agents = Points-delete _ s.agents s.agent_heap id h.agents;
  workspaces = h.workspaces;
}
Step-IsWellFormed s t (open_workspace e) h = record {
  tokens = h.tokens;
  bearers = h.bearers;
  agents = h.agents;
  workspaces =
      Points-add (λ (x : WorkspaceEntry). x.pb.name) s.workspaces s.workspace_heap e h.workspaces;
}
Step-IsWellFormed s t (write_workspace at e e' found same) h = record {
  tokens = h.tokens;
  bearers = h.bearers;
  agents = h.agents;
  workspaces =
      Points-set (λ (x : WorkspaceEntry). x.pb.name) s.workspaces s.workspace_heap at e e' found
        same.name h.workspaces;
}
Step-IsWellFormed s t (close_workspace name) h = record {
  tokens = h.tokens;
  bearers = h.bearers;
  agents = h.agents;
  workspaces = Points-delete _ s.workspaces s.workspace_heap name h.workspaces;
}

nothing-Points : {A : Type 0} (key : A → String) → Points key [] []
nothing-Points key k a e = cc (lookup-empty {V = ℕ} k)

new-IsWellFormed : (cfg : Config) → IsWellFormed (new cfg)
unfolding new
new-IsWellFormed cfg = record {
  tokens = nothing-Points _;
  bearers = nothing-Points _;
  agents = nothing-Points _;
  workspaces = nothing-Points _;
}

-- After any calls on a new server, each address in its maps is that of an entry, and the entry bears
-- the key: the token's id or bearer, the agent's id, the workspace's name.
pub reachable-IsWellFormed :
    (w : World) (cfg : Config) (calls : List (Call × Rpc))
    → IsWellFormed (handle_all w calls (new cfg))
reachable-IsWellFormed w cfg calls =
    Steps-keep {P = IsWellFormed} Step-IsWellFormed (handle_all-Steps w calls (new cfg))
      (new-IsWellFormed cfg)
