-- ===== src/Arp/Agents.antt =====
-- arp/server/agent.go: the lifecycle of an agent. A handler that unlocks the server's mutex is the
-- composition of its locked regions, each a definition of its own.
pub mod Spawn
pub mod Lifecycle
pub mod Queries
use spec_torture.Base.{
  ℕ, String, Bool, Option, none, some, List, [], ◌∷◌, ◌==◌, ◌++◌, get_elem?, contains,
  if◌then◌else◌,
}
use spec_torture.Base.Dict.{Dict, lookup}
use spec_torture.Base.Text.{concat}
use spec_torture.Arp.Handler.{
  ok, pure, gets, or_fail, guard, modify, ◌>>=◌, ◌>>◌, not_found, permission_denied,
}
use spec_torture.Arp.Messages.{AgentTemplate}
use spec_torture.Arp.State.{
  AgentEntry, TokenEntry, WorkspaceEntry, Server, World, Action, load_token, load_agent,
  store_token, store_agent,
}
use spec_torture.Arp.Auth.{Principal, can_see_agent}
use spec_torture.Arp.Tokens.{new_id}

-- `proxyURL`
unfoldable pub proxy_url : String → String → String
unfolding concat
proxy_url base agent_id = if base == "" then "" else concat base (concat "/a2a/agents/" agent_id)

named : String → List AgentTemplate → Option AgentTemplate
named name [] = none
named name (t ∷ ts) = if t.name == name then some t else named name ts

-- `resolveTemplate`: the project's templates first, then the global ones
unfoldable pub resolve_template : Server → String → String → Option AgentTemplate
unfolding named
resolve_template s project name = elim (lookup project s.projects) [
  | none ↦ lookup name s.cfg.templates
  | some proj ↦ elim (named name proj.agents) [
    | none ↦ lookup name s.cfg.templates
    | some t ↦ some t
  ]
]

unfoldable pub display_name : String → String → String
display_name name template = if name == "" then template else name

module _ (w : World) where
  unfoldable pub session_of : ℕ → TokenEntry → Action String
  session_of a tok =
      if tok.session_id == ""
      then (do
        sess ← new_id w "sess"
        modify (store_token a (record tok { session_id = sess }))
        pure sess)
      else pure tok.session_id

  -- the session of a token, made on its first use
  unfoldable pub token_session : ℕ → Action String
  token_session a = do tok ← load_token a; session_of a tok

  abbrev pub with_session : Principal → String → Principal
  with_session p sess = record p { session_id = sess }

  -- `resolveSession`, with the principal as it leaves it
  unfoldable pub resolve_session_on : Option ℕ → Principal → Action (String × Principal)
  resolve_session_on none p = do
    sess ← new_id w "sess"
    pure (sess, if p.session_id == "" then with_session p sess else p)
  resolve_session_on (some a) p = do sess ← token_session a; pure (sess, with_session p sess)

  unfoldable pub resolve_session : Principal → Action (String × Principal)
  resolve_session p = resolve_session_on p.token p

-- `findAgentForCaller`: the address of the agent
unfoldable pub find_agent_for_caller : Principal → String → Action ℕ
find_agent_for_caller p id = do
  found ← gets (λ s. lookup id s.agents)
  a ← or_fail not_found found
  e ← load_agent a
  guard (can_see_agent p e) permission_denied
  pure a

-- writes to the fields of an agent, through its pointer
unfoldable pub update_agent : ℕ → (AgentEntry → AgentEntry) → Server → Server
unfolding store_agent
update_agent a f s = elim (get_elem? s.agent_heap a) [ none ↦ s | some e ↦ store_agent a (f e) s ]
