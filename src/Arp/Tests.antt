-- ===== src/Arp/Tests.antt =====
-- Runs of the server on small inputs.
use spec_torture.Base.{ℕ, zero, suc, ◌≡◌, refl, String, true, none, some, [], ◌∷◌, leb, ◌==◌}
use spec_torture.Base.Dict.{lookup, insert, delete, keys}
use spec_torture.Base.Sort.{sort_strings}
use spec_torture.Base.Text.{concat, trim_space}
use spec_torture.Arp.Handler.{◌>>=◌}
use spec_torture.Arp.Messages.{named, AgentStatus, AgentTemplate}
use spec_torture.Arp.State.{
  Config, Server, World, question, load_token, load_agent, load_workspace, store_token, store_agent,
  store_workspace, new_server,
}
use spec_torture.Arp.Scope.{scope_subset, clone_scope, can_access_project}
use spec_torture.Arp.Auth.{
  Call, bearer_from_call, is_loopback, check_expiry, by_token, by_peer, authenticate, can_see_agent,
  in_session, workspace_visible,
}
use spec_torture.Arp.Tokens.{
  issued_scope, issued_perm, token_id, expiry, new_id, random_token, clock, add_token, mint,
  issue_token, to_proto, seconds, create_token,
}
use spec_torture.Arp.Ports.{use_port, free_port, scan_ports, system_port, scan_range, alloc_port}
use spec_torture.Arp.Cards.{refresh_card, backend_card_fallback, card_has_capability}
use spec_torture.Arp.Events.{publish_agent_event, publish_workspace, build_workspace_pb}
use spec_torture.Arp.Agents.{
  proxy_url, resolve_template, display_name, session_of, token_session, resolve_session_on,
  resolve_session, find_agent_for_caller, update_agent,
}
use spec_torture.Arp.Agents.Spawn.{
  add_agent, join_workspace, choose_id, claim_id, reserve_with, reserve, start, abandon,
  card_or_fallback, finish_spawn, settle, spawn_agent_internal, spawn_agent,
}
use spec_torture.Arp.Agents.Lifecycle.{
  begin_stop, release_port, finish_stop, stop_agent_internal, stop_agent, restart_agent,
}
use spec_torture.Arp.Agents.Queries.{
  sorted_ids, agent_named, list_passes, collect_agents, list_agents, get_agent_status,
}
use spec_torture.Arp.Projects.{
  visible_projects, put_project, has_active_agent, remove_project, list_projects, register_project,
  unregister_project,
}
use spec_torture.Arp.Workspaces.{
  add_workspace, make_workspace, install_workspace, auto_spawn, create_workspace, find_workspace,
  workspace_named, get_workspace, stop_all, delete_agents, deactivate, remove_workspace, tear_down,
  destroy_workspace,
}
use spec_torture.Arp.Seed.{SeedConfig, new, seed_missing, seed_workspace, seed_agents, seed}

-- Every definition that a run goes through.
unfoldable pub runs : Unit {0}
unfolding lookup insert delete keys sort_strings concat trim_space ◌>>=◌ question load_token
    load_agent load_workspace store_token store_agent store_workspace new_server scope_subset
    clone_scope can_access_project bearer_from_call is_loopback check_expiry by_token by_peer
    authenticate can_see_agent in_session workspace_visible issued_scope issued_perm token_id expiry
    new_id random_token clock add_token mint issue_token to_proto seconds create_token use_port
    free_port scan_ports system_port scan_range alloc_port refresh_card backend_card_fallback
    card_has_capability publish_agent_event publish_workspace build_workspace_pb proxy_url
    resolve_template display_name session_of token_session resolve_session_on resolve_session
    find_agent_for_caller update_agent add_agent join_workspace choose_id claim_id reserve_with
    reserve start abandon card_or_fallback finish_spawn settle spawn_agent_internal spawn_agent
    begin_stop release_port finish_stop stop_agent_internal stop_agent restart_agent sorted_ids
    agent_named list_passes collect_agents list_agents get_agent_status visible_projects put_project
    has_active_agent remove_project list_projects register_project unregister_project add_workspace
    make_workspace install_workspace auto_spawn create_workspace find_workspace workspace_named
    get_workspace stop_all delete_agents deactivate remove_workspace tear_down destroy_workspace new
    seed_missing seed_workspace seed_agents seed
runs = tt

-- a text that differs from question to question
abbrev tally : ℕ → String
tally zero = ""
tally (suc n) = String.◌∷◌ "i" (tally n)

abbrev pub world : World
world = record {
  uuid_head = tally;
  random_hex = tally;
  now = λ n. n;
  port_free = λ n p. leb 9101 p;
  os_port = λ n. some 40000;
  spawn = λ n spec. some (record { direct_url = "http://127.0.0.1"; port = spec.port; pid = 7 });
  fetch_card = λ n url. none;
  decode_card = λ m. none;
  rfc3339 = λ n. "now";
  join_path = λ a b. concat a b;
  split_host = λ a. none;
  ip_is_loopback = λ h. h == "127.0.0.1";
}

abbrev pub config : Config
config = record {
  gateway_base_url = "";
  min_port = 0;
  max_port = 0;
  localhost_admin = true;
  templates = [];
  workspace_root = "";
}

abbrev pub echo : AgentTemplate
echo = record {
  name = "echo";
  command = "echo";
  env = [];
  capabilities = "say" ∷ [];
  card_config = none;
}

abbrev seed_config : SeedConfig
seed_config = record {
  project = "proj";
  repo = "repo";
  branch = "";
  templates = echo ∷ [];
  workspace = "ws";
  agents = record { id = "echo-1"; template = "echo"; name = "" } ∷ [];
}

abbrev pub seeded : Server
unfolding runs
seeded = (seed world seed_config (new config)).1

abbrev pub local : Call
local = record { metadata = none; peer = none }

seeded_ports : seeded.used_ports ≡ 9101 ∷ []
unfolding runs
seeded_ports = refl

seeded_agents : keys seeded.agents ≡ "echo-1" ∷ []
unfolding runs
seeded_agents = refl

listed :
    (list_agents world local
      (record { workspace = "ws"; status = named AgentStatus.ready; template = "" })
      seeded).0
    ≡ (list_agents world local
        (record { workspace = ""; status = named AgentStatus.unspecified; template = "echo" })
        seeded).0
unfolding runs
listed = refl

stopped_ports : (stop_agent world local "echo-1" seeded).1.used_ports ≡ []
unfolding runs
stopped_ports = refl

destroyed : (destroy_workspace world local "ws" seeded).1.agents ≡ []
unfolding runs
destroyed = refl
