-- ===== src/Arp/Witnesses.antt =====
-- The theorems about the server, each at an input that meets its hypotheses.
mod Access
use spec_torture.Base.{
  ◌≡◌, refl, String, true, false, none, some, List, [], ◌∷◌, ◌↔◌, ◌⊎◌, All, contains, ◌≢◌,
}
use spec_torture.Base.Int.{pos}
use spec_torture.Arp.Messages.{named, Scope, Permission, AgentStatus, AgentInstance}
use spec_torture.Arp.State.{AgentEntry, TokenEntry, Server}
use spec_torture.Arp.Handler.{ok}
use spec_torture.Arp.Scope.{scope_subset, is_global, can_access_project, get_projects, is_session}
use spec_torture.Arp.Scope.Narrowing.{scope_subset_sound, scope_subset_iff}
use spec_torture.Arp.Auth.{Principal, Call, authenticate}
use spec_torture.Arp.Tokens.{issue_token}
use spec_torture.Arp.Tokens.Issue.{Granted, issue_token_narrows}
use spec_torture.Arp.Ports.{scan_ports}
use spec_torture.Arp.Ports.Fresh.{Scanned, scan_ports-Scanned}
use spec_torture.Arp.Agents.Queries.{ListAgentsRequest}
use spec_torture.Arp.Agents.Queries.Exact.{Lists, list_agents_exact, list_agents_confined}
use spec_torture.Arp.Projects.{unregister_project}
use spec_torture.Arp.Projects.Unregister.{Unregistered, unregister_project_lem}
use spec_torture.Arp.Workspaces.{destroy_workspace}
use spec_torture.Arp.Workspaces.Destroy.{Destroyed, destroy_workspace_lem}
use spec_torture.Arp.Seed.{new}
use spec_torture.Arp.Rpc.{Rpc, handle_all}
use spec_torture.Arp.Steps.{SameAgent}
use spec_torture.Arp.Steps.Rights.{At, SameRights, token_rights_fixed, agent_identity_fixed}
use spec_torture.Arp.Steps.Pointers.{IsWellFormed, reachable-IsWellFormed}
use spec_torture.Arp.Tests.{runs, world, config, echo, seeded, local}

abbrev pub only : String → Scope
only name = record { global = false; projects = name ∷ [] }

abbrev pub both : Scope
both = record { global = false; projects = "proj" ∷ "other" ∷ [] }

scope_subset_sound_example : can_access_project (some both) "proj" ≡ true
unfolding runs is_global
scope_subset_sound_example = scope_subset_sound (only "proj") (some both) "proj" refl refl

scope_subset_iff_example : (scope_subset (some (only "proj")) (some both) ≡ true) ↔ (
    (is_global (some both) ≡ true)
    ⊎ ((false ≡ false)
        × ((name : String)
            → contains ("proj" ∷ []) name ≡ true
            → contains (get_projects (some both)) name ≡ true)))
scope_subset_iff_example = scope_subset_iff (only "proj") (some both)

abbrev pub asker : Principal
asker = record {
  token = none;
  subject = "asker";
  scope = some both;
  perm = Permission.project;
  session_id = "";
  localhost_admin = false;
}

abbrev pub issued : Server
unfolding runs
issued =
    (issue_token world (some asker) (some (only "proj")) Permission.session "sub" "s1" (pos 60)
      (new config)).1

issue_token_narrows_example : Granted asker 0 issued
unfolding runs
issue_token_narrows_example =
    issue_token_narrows world asker (some (only "proj")) Permission.session "sub" "s1" (pos 60)
      (new config) issued 0 refl

abbrev first_token : TokenEntry
first_token = record {
  id = "tok-";
  subject = "sub";
  scope = some (only "proj");
  perm = Permission.session;
  session_id = "s1";
  parent_token_id = "";
  bearer = "arp_i";
  issued_at = some 2;
  expires_at = some 62;
}

abbrev calls : List (Call × Rpc)
calls =
    (local, Rpc.list_projects)
    ∷ (
      local,
      Rpc.create_token (record {
        subject = "more";
        scope = some both;
        permission = Permission.project;
        expires_in_seconds = pos 5;
      }),
    )
    ∷ (local, Rpc.stop_agent "a-1")
    ∷ []

token_rights_fixed_example :
    At (SameRights first_token) 0 (handle_all world calls issued).token_heap
unfolding runs
token_rights_fixed_example = token_rights_fixed world calls issued 0 first_token refl

abbrev pub instance_of : String → String → AgentInstance
instance_of id session = record {
  id = id;
  template = "echo";
  workspace = "ws";
  status = AgentStatus.ready;
  port = 9101;
  direct_url = "http://127.0.0.1";
  proxy_url = "";
  pid = 7;
  card = none;
  token_id = "tok-";
  session_id = session;
  spawned_by = "sub";
  started_at = some 3;
}

abbrev pub entry_of : String → String → AgentEntry
entry_of id session = record {
  pb = instance_of id session;
  handle = none;
  template = echo;
  project = "proj";
  name = "echo";
  env = [];
  card_base = [];
}

-- two agents of two sessions
abbrev pub populated : Server
populated = record issued {
  agent_heap = entry_of "a-1" "s1" ∷ entry_of "a-2" "s2" ∷ [];
  agents = ("a-1", 0) ∷ ("a-2", 1) ∷ [];
}

agent_identity_fixed_example :
    At (SameAgent (entry_of "a-1" "s1")) 0 (handle_all world calls populated).agent_heap
agent_identity_fixed_example =
    agent_identity_fixed world calls populated 0 (entry_of "a-1" "s1") refl

reachable-IsWellFormed_example : IsWellFormed (handle_all world calls (new config))
reachable-IsWellFormed_example = reachable-IsWellFormed world config calls

abbrev everything : ListAgentsRequest
everything = record { workspace = ""; status = named AgentStatus.unspecified; template = "" }

abbrev pub confined_call : Call
confined_call = record { metadata = some ("Bearer arp_i" ∷ []); peer = none }

abbrev pub confined : Principal
confined = record {
  token = some 0;
  subject = "sub";
  scope = some (only "proj");
  perm = Permission.session;
  session_id = "s1";
  localhost_admin = false;
}

abbrev pub after_listing : Server
after_listing = record populated { tick = 4 }

list_agents_exact_example :
    (p : Principal) × (authenticate world confined_call populated ≡ (ok p, after_listing))
    × Lists p everything after_listing (instance_of "a-1" "s1" ∷ [])
unfolding runs
list_agents_exact_example =
    list_agents_exact world confined_call everything populated after_listing
      (instance_of "a-1" "s1" ∷ []) refl

list_agents_confined_example :
    All
      (λ pb.
        is_session confined.perm ≡ true
        → (confined.session_id ≢ "") × (pb.session_id ≡ confined.session_id))
      (instance_of "a-1" "s1" ∷ [])
unfolding runs
list_agents_confined_example =
    list_agents_confined world confined_call everything populated after_listing
      (instance_of "a-1" "s1" ∷ []) confined refl refl

scan_ports-Scanned_example : Scanned world 3 9100 seeded (scan_ports world 3 9100 seeded)
scan_ports-Scanned_example = scan_ports-Scanned world 3 9100 seeded

abbrev torn_down : Server
unfolding runs
torn_down = (destroy_workspace world local "ws" seeded).1

destroy_workspace_lem_example : Destroyed world local "ws" seeded torn_down
unfolding runs
destroy_workspace_lem_example = destroy_workspace_lem world local "ws" seeded torn_down refl

abbrev unregistered : Server
unfolding runs
unregistered = (unregister_project world local "proj" torn_down).1

unregister_project_lem_example : Unregistered world local "proj" torn_down unregistered
unfolding runs
unregister_project_lem_example =
    unregister_project_lem world local "proj" torn_down unregistered refl
