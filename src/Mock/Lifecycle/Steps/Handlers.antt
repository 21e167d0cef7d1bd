-- ===== src/Mock/Lifecycle/Steps/Handlers.antt =====
-- The handlers of projects and workspaces keep the invariant of the mock ARP server.
use spec_torture.Base.{
  ◌≡◌, refl, String, true, ◌||◌, Option, none, some, List, [], ◌∷◌, ◌++◌, ◌==◌, any, Bool-cases,
  Option-cases, if_holds, inl, inr,
}
use spec_torture.Base.Dict.{Dict, lookup, insert}
use spec_torture.Base.Strings.{trim_prefix}
use spec_torture.Value.{Value}
use spec_torture.Mock.Lifecycle.{
  MockProject, MockWorkspace, MockAgent, ArpState, MockRequest, MockReply, is_active_in, values,
  text_or_empty, new_project, reply_of, error_reply, project_value, add_project, post_project,
  drop_project, handle_projects_crud, handle_project_by_name,
}
use spec_torture.Mock.Lifecycle.Agents.{Setting, fresh_agent, start_agent}
use spec_torture.Mock.Lifecycle.Workspaces.{
  new_workspace, with_workspace, is_named, spawn_named, spawn_all, put_workspace, post_workspace,
  drop_workspace, handle_workspaces_crud, handle_workspace_by_name, items_or_none,
}
use spec_torture.Mock.Lifecycle.Steps.Entries.{
  Holds-imply, Holds-delete, has_key, Holds-drop_agents, HaveOwnPorts-drop,
}
use spec_torture.Mock.Lifecycle.Steps.Valid.{
  IsValid, has_key-new, has_key-delete, add_project-IsValid, drop_project-IsValid,
  with_workspace-IsValid, start_agent-IsValid,
}

abbrev pub KeepsValid : MockReply × ArpState → Type 0
KeepsValid x = IsValid x.1

pub found :
    {V : Type 0} (k : String) (v : V) (m : Dict V) → lookup k m ≡ some v → has_key k m ≡ true
found k v m e = rw (has_key, e) refl

add_project_kept :
    (now : String) (s : ArpState) (body : Dict Value) (name : String)
    → IsValid s
    → KeepsValid (add_project now s body name)
add_project_kept now s body name v =
    if_holds KeepsValid (name == "") _ _ v (go (lookup name s.projects))
  where
    go :
        (o : Option MockProject)
        → KeepsValid (elim o [
          | some p ↦ (error_reply 409 "project already exists", s)
          | none ↦
              let p : MockProject = new_project now name body in
              (reply_of 201 (project_value p), record s { projects = insert name p s.projects })
        ])
    go none = add_project-IsValid name (new_project now name body) s v
    go (some p) = v

pub projects_kept :
    (now : String) (s : ArpState) (r : MockRequest)
    → IsValid s
    → KeepsValid (handle_projects_crud now s r)
unfolding handle_projects_crud
projects_kept now s r v =
    if_holds KeepsValid (r.method == "GET") _ _ v
      (if_holds KeepsValid (r.method == "POST") _ _ (post r.body) v)
  where
    post : (o : Option (Dict Value)) → KeepsValid (post_project now s o)
    post none = v
    post (some body) = add_project_kept now s body (text_or_empty (lookup "name" body)) v

pub project_by_name_kept :
    (s : ArpState) (r : MockRequest) → IsValid s → KeepsValid (handle_project_by_name s r)
unfolding handle_project_by_name
project_by_name_kept s r v =
    let name : String = trim_prefix r.path "/api/projects/" in
    if_holds KeepsValid (name == "") _ _ v (
      if_holds KeepsValid (r.method == "GET") _ _ v
        (if_holds KeepsValid (r.method == "DELETE") _ _ (remove name (lookup name s.projects)) v))
  where
    remove : (name : String) (o : Option MockProject) → KeepsValid (drop_project s name o)
    remove name none = v
    remove name (some p) = elim (Bool-cases (any (is_active_in name) (values s.workspaces))) [
      | inl e ↦ rw e v
      | inr e ↦ rw e (drop_project-IsValid name s e v)
    ]

-- what the spawning of a workspace's agents keeps, the workspace and its project included
abbrev KeepsWith : String → String → List String × ArpState → Type 0
KeepsWith name project x =
    IsValid x.1 × (has_key name x.1.workspaces ≡ true) × (has_key project x.1.projects ≡ true)

spawn_named_kept :
    (env : Setting) (name project template : String) (ts : List Value) (x : List String × ArpState)
    → KeepsWith name project x
    → KeepsWith name project (spawn_named env name template ts x)
unfolding spawn_named start_agent
spawn_named_kept env name project template [] (ids, s) k = k
spawn_named_kept env name project template (t ∷ ts) (ids, s) (v, h, p) =
    let a : MockAgent = fresh_agent env s name template in
    if_holds (KeepsWith name project) (is_named template t) _ _
      (spawn_named_kept env name project template ts (ids ++ (a.id ∷ []), start_agent a s)
        (start_agent-IsValid a s refl h v, h, p))
      (spawn_named_kept env name project template ts (ids, s) (v, h, p))

spawn_all_kept :
    (env : Setting) (name project : String) (templates names : List Value)
    (x : List String × ArpState)
    → KeepsWith name project x
    → KeepsWith name project (spawn_all env name templates names x)
unfolding spawn_all
spawn_all_kept env name project templates [] x k = k
spawn_all_kept env name project templates (n ∷ ns) x k =
    spawn_all_kept env name project templates ns
      (spawn_named env name (text_or_empty (some n)) templates x)
      (spawn_named_kept env name project (text_or_empty (some n)) templates x k)

add_workspace_kept :
    (env : Setting) (s : ArpState) (body : Dict Value) (name project : String)
    → IsValid s
    → KeepsValid (put_workspace env s body name project)
unfolding put_workspace
add_workspace_kept env s body name project v =
    if_holds KeepsValid (name == "" || project == "") _ _ v
      (elim (Option-cases (lookup project s.projects)) [
        | inl e ↦ rw e v
        | inr (p, e) ↦
            let ws : MockWorkspace = new_workspace env.now name project in
            let known : has_key project s.projects ≡ true = found project p s.projects e in
            let start : KeepsWith name project ([], with_workspace name ws s) = (
              with_workspace-IsValid name ws s (refl, known) v,
              has_key-new name ws s.workspaces,
              known,
            ) in
            let (v', h, k) =
              spawn_all_kept env name project (items_or_none p.agents)
                (items_or_none (lookup "auto_agents" body)) ([], with_workspace name ws s) start in
            rw e (with_workspace-IsValid name _ _ (refl, k) v')
      ])

pub workspaces_kept :
    (env : Setting) (s : ArpState) (r : MockRequest)
    → IsValid s
    → KeepsValid (handle_workspaces_crud env s r)
unfolding handle_workspaces_crud
workspaces_kept env s r v =
    if_holds KeepsValid (r.method == "GET") _ _ v
      (if_holds KeepsValid (r.method == "POST") _ _ (post r.body) v)
  where
    post : (o : Option (Dict Value)) → KeepsValid (post_workspace env s o)
    post none = v
    post (some body) =
        add_workspace_kept env s body (text_or_empty (lookup "name" body))
          (text_or_empty (lookup "project" body)) v

remove_workspace_kept :
    (s : ArpState) (name : String) (o : Option MockWorkspace)
    → IsValid s
    → KeepsValid (drop_workspace s name o)
remove_workspace_kept s name none v = v
remove_workspace_kept s name (some ws) v = record {
  housed = Holds-delete _ name s.workspaces v.housed;
  placed =
      Holds-imply _ _ _
        (λ a ((w, p), apart). (has_key-delete a.workspace name s.workspaces apart w, p))
        (Holds-drop_agents _ name s.agents v.placed);
  own_ports = HaveOwnPorts-drop name s.agents v.own_ports;
}

pub workspace_by_name_kept :
    (s : ArpState) (r : MockRequest) → IsValid s → KeepsValid (handle_workspace_by_name s r)
unfolding handle_workspace_by_name
workspace_by_name_kept s r v =
    let name : String = trim_prefix r.path "/api/workspaces/" in
    if_holds KeepsValid (name == "") _ _ v (
      if_holds KeepsValid (r.method == "GET") _ _ v (
        if_holds KeepsValid (r.method == "DELETE") _ _
          (remove_workspace_kept s name (lookup name s.workspaces) v) v))
