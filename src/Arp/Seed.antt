-- ===== src/Arp/Seed.antt =====
-- arp/server/seed.go, and the defaults of a configuration (arp/server/server.go).
use spec_torture.Base.{
  ℕ, String, true, ◌&&◌, Option, none, some, List, [], ◌∷◌, ◌==◌, eqb, if◌then◌else◌,
}
use spec_torture.Base.Dict.{lookup}
use spec_torture.Base.Text.{trim_slashes}
use spec_torture.Arp.Handler.{pure, gets, modify, ◌>>=◌, ◌>>◌}
use spec_torture.Arp.Messages.{AgentTemplate, Permission, Project}
use spec_torture.Arp.State.{Config, Server, World, Action, new_server}
use spec_torture.Arp.Auth.{Principal}
use spec_torture.Arp.Projects.{or_main, put_project}
use spec_torture.Arp.Agents.Spawn.{SpawnArgs, spawn_agent_internal}
use spec_torture.Arp.Workspaces.{make_workspace}

pub record SeedAgent : Type 0 where
  pub id : String
  pub template : String
  pub name : String

pub record SeedConfig : Type 0 where
  pub project : String
  pub repo : String
  pub branch : String
  pub templates : List AgentTemplate
  pub workspace : String
  pub agents : List SeedAgent

-- `applyDefaults`, of the fields that the model keeps
unfoldable pub apply_defaults : Config → Config
unfolding trim_slashes
apply_defaults c =
    let unset = eqb c.min_port 0 && eqb c.max_port 0 in
    record c {
      gateway_base_url = trim_slashes c.gateway_base_url;
      min_port = if unset then 9100 else c.min_port;
      max_port = if unset then 9199 else c.max_port;
      workspace_root = if c.workspace_root == "" then "/tmp/arp-workspaces" else c.workspace_root;
    }

-- `New`
unfoldable pub new : Config → Server
unfolding new_server apply_defaults
new cfg = new_server (apply_defaults cfg)

abbrev pub admin_principal : Principal
admin_principal = record {
  token = none;
  subject = "seed";
  scope = some (record { global = true; projects = [] });
  perm = Permission.admin;
  session_id = "";
  localhost_admin = true;
}

abbrev pub seeded_project : SeedConfig → Project
seeded_project cfg = record {
  name = cfg.project;
  repo = cfg.repo;
  branch = or_main cfg.branch;
  agents = cfg.templates;
}

abbrev pub seed_args : String → SeedAgent → SpawnArgs
seed_args workspace a = record {
  workspace = workspace;
  template = a.template;
  name = a.name;
  env = [];
  scope = none;
  perm = Permission.unspecified;
  fixed_id = a.id;
}

module _ (w : World) where
  unfoldable pub seed_missing : Option ℕ → String → String → Action (Unit {0})
  seed_missing (some at) name project = pure tt
  seed_missing none name project = do make_workspace w name project; pure tt

  -- a workspace of that name that is already there stays
  unfoldable pub seed_workspace : String → String → Action (Unit {0})
  seed_workspace name project = do
    old ← gets (λ s. lookup name s.workspaces)
    if name == "" then pure tt else seed_missing old name project

  unfoldable pub seed_agents : Principal → String → List SeedAgent → Action (Unit {0})
  seed_agents p workspace [] = pure tt
  seed_agents p workspace (a ∷ more) = do
    done ← spawn_agent_internal w p (seed_args workspace a)
    seed_agents done.1 workspace more

  unfoldable pub seed : SeedConfig → Action (Unit {0})
  seed cfg = do
    modify (put_project cfg.project (seeded_project cfg))
    seed_workspace cfg.workspace cfg.project
    seed_agents admin_principal cfg.workspace cfg.agents
