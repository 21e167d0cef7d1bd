-- ===== src/Arp/Workspaces/Destroy.antt =====
-- What the destruction of a workspace leaves.
use spec_torture.Base.{
  ℕ, ◌≡◌, ◌∙◌, refl, String, true, none, some, List, [], ◌∷◌, arith, eq_refl, Bool-cases, inl, inr,
  contains, get_elem?, ◌==◌,
}
use spec_torture.Base.Dict.{lookup, lookup-delete}
use spec_torture.Arp.Handler.{ok, internal}
use spec_torture.Arp.Handler.Ensures.{
  Ensures, Ensures-bind, Ensures-run, Ensures-guard, Ensures-read, Ensures-pure, Ensures-modify,
  Ensures-ok, Ensures-gets, Ensures-or_fail,
}
use spec_torture.Arp.Messages.{WorkspaceEventType}
use spec_torture.Arp.State.{WorkspaceEntry, Server, World, load_workspace, store_workspace}
use spec_torture.Arp.Auth.{Principal, Call, authenticate, workspace_visible}
use spec_torture.Arp.Events.{publish_workspace}
use spec_torture.Arp.Workspaces.{
  find_workspace, delete_agents, deactivate, remove_workspace, tear_down, stop_all,
  destroy_workspace,
}

-- Neither the workspace nor any of the agents is registered.
pub record AreGone (name : String) (ids : List String) (t : Server) : Type 0 where
  pub workspace : lookup name t.workspaces ≡ none
  pub agents : (id : String) → contains ids id ≡ true → lookup id t.agents ≡ none

stays_deleted :
    (ids : List String) (s : Server) (id : String)
    → lookup id s.agents ≡ none
    → lookup id (delete_agents ids s).agents ≡ none
unfolding delete_agents
stays_deleted [] s id h = h
stays_deleted (j ∷ ids) s id h =
    stays_deleted ids _ id (ground (arith, lookup-delete j id s.agents))

delete_agents-gone :
    (ids : List String) (s : Server) (id : String)
    → contains ids id ≡ true
    → lookup id (delete_agents ids s).agents ≡ none
unfolding delete_agents
delete_agents-gone [] s id k = cc
delete_agents-gone (j ∷ ids) s id k = elim (Bool-cases (j == id)) [
  | inl same ↦ stays_deleted ids _ id (ground (arith, lookup-delete j id s.agents))
  | inr other ↦ delete_agents-gone ids _ id (ground arith)
]

publish-AreGone :
    (name : String) (ids : List String) (at : ℕ) (s : Server)
    → AreGone name ids s
    → AreGone name ids (publish_workspace at WorkspaceEventType.destroyed none s)
unfolding publish_workspace
publish-AreGone name ids at s h = ground arith

agents-deactivate : (at : ℕ) (s : Server) → (deactivate at s).agents ≡ s.agents
unfolding deactivate store_workspace
agents-deactivate at s = ground arith

tear_down-AreGone :
    (w : World) (at : ℕ) (name : String) (ids : List String) (s : Server)
    → AreGone name ids (tear_down w at name ids s)
unfolding tear_down remove_workspace
tear_down-AreGone w at name ids s = publish-AreGone name ids at _ (record {
  workspace = rw (lookup-delete, eq_refl) refl;
  agents = λ id k. rw agents-deactivate (delete_agents-gone ids (stop_all w ids s) id k);
})

-- Who asked from the state `s`, and what is left in `t`.
pub record Destroyed (w : World) (call : Call) (name : String) (s t : Server) : Type 0 where
  pub caller : Principal
  pub midway : Server
  pub at : ℕ
  pub entry : WorkspaceEntry
  pub authenticated : authenticate w call s ≡ (ok caller, midway)
  pub found : lookup name midway.workspaces ≡ some at
  pub stored : get_elem? midway.workspace_heap at ≡ some entry
  pub visible : workspace_visible midway caller entry ≡ true
  pub gone : AreGone name entry.agents t

load_workspace-Ensures :
    {P : Server → Type 0} (at : ℕ)
    → Ensures P (load_workspace at) (λ e u. P u × (get_elem? u.workspace_heap at ≡ some e))
unfolding load_workspace
load_workspace-Ensures at = Ensures-read internal (λ s. get_elem? s.workspace_heap at)

-- the entry at `at` is that of `name`, and the caller sees it
abbrev Seen : Principal → String → ℕ → Server → Type 0
Seen p name at u =
    (lookup name u.workspaces ≡ some at)
    × ((e : WorkspaceEntry) × (get_elem? u.workspace_heap at ≡ some e)
        × (workspace_visible u p e ≡ true))

find_workspace-Ensures :
    {P : Server → Type 0} (p : Principal) (name : String)
    → Ensures P (find_workspace p name) (λ at u. P u × Seen p name at u)
unfolding find_workspace
find_workspace-Ensures p name = Ensures-gets _ _ λ found. Ensures-or_fail _ _ _ λ at e.
    Ensures-bind _ _ (load_workspace-Ensures at) λ entry. Ensures-gets _ _ λ seen.
      Ensures-guard _ _ _
        λ visible. Ensures-pure at λ u h. (h.0.0.0, (h.0.0.1 ∙ e, (entry, h.0.1, h.1 ∙ visible)))

destroy_workspace-Ensures :
    (w : World) (call : Call) (name : String) (s : Server)
    → Ensures (λ u. u ≡ s) (destroy_workspace w call name) (λ _. Destroyed w call name s)
unfolding destroy_workspace
destroy_workspace-Ensures w call name s =
    Ensures-bind _ _ (Ensures-run (authenticate w call) s) λ p. Ensures-guard _ _ _ λ named.
      Ensures-bind _ _ (find_workspace-Ensures p name) λ at.
        Ensures-bind _ _ (load_workspace-Ensures at) λ e. Ensures-modify _ λ u h.
          let ((auth, (found, (e', stored, visible))), here) = h in
          let same : e' ≡ e = ground arith in
          record {
            caller = p;
            midway = u;
            at = at;
            entry = e;
            authenticated = auth;
            found = found;
            stored = here;
            visible = rw (← same) visible;
            gone = tear_down-AreGone w at name e.agents u;
          }

-- A workspace is destroyed only by an authenticated caller who can see it; afterwards neither its
-- name nor any agent that it held is registered.
pub destroy_workspace_lem :
    (w : World) (call : Call) (name : String) (s t : Server)
    → destroy_workspace w call name s ≡ (ok tt, t)
    → Destroyed w call name s t
destroy_workspace_lem w call name s t e =
    Ensures-ok _ (destroy_workspace-Ensures w call name s) s t tt refl e
