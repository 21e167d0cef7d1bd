-- ===== src/Mock/Lifecycle/Agents.antt =====
-- internal/mockserver/arp_lifecycle.go: the agents of the mock ARP server.
use spec_torture.Base.{
  ℕ, ◌+◌, String, Bool, true, ◌&&◌, ◌||◌, Option, none, some, List, [], ◌∷◌, ◌++◌, ◌==◌, ltb, map,
  filter, if◌then◌else◌,
}
use spec_torture.Base.Int.{pos}
use spec_torture.Base.Dict.{Dict, lookup, insert}
use spec_torture.Base.Text.{concat, decimal}
use spec_torture.Base.Strings.{trim_prefix, cut}
use spec_torture.Value.{Value, text, int, arr, obj, field, no_fields, of_items, of_fields}
use spec_torture.Mock.Lifecycle.{
  MockAgent, ArpState, MockRequest, MockReply, reply_of, error_reply, method_not_allowed,
  text_or_empty, with_entry, values,
}

-- `agent-%03d`
unfoldable pub agent_id_of : ℕ → String
unfolding concat decimal
agent_id_of n =
    concat "agent-" (concat (if ltb n 10 then "00" else if ltb n 100 then "0" else "") (decimal n))

abbrev direct_url_of : ℕ → String
direct_url_of port = concat "http://127.0.0.1:" (decimal port)

abbrev token_entries : MockAgent → Dict Value
token_entries a = elim a.scope [
  | none ↦ elim a.permission [ none ↦ [] | some p ↦ ("token_id", text (concat "tok-" a.id)) ∷ [] ]
  | some s ↦ ("token_id", text (concat "tok-" a.id)) ∷ []
]

-- the map of an agent, before the entries that not every agent has
abbrev agent_entries : MockAgent → Dict Value → Dict Value
agent_entries a rest =
    ("id", text a.id)
    ∷ ("template", text a.template)
    ∷ ("workspace", text a.workspace)
    ∷ ("status", text a.status)
    ∷ ("port", int (pos a.port))
    ∷ ("direct_url", text a.direct_url)
    ∷ ("proxy_url", text a.proxy_url)
    ∷ ("started_at", text a.started_at)
    ∷ rest

unfoldable pub agent_fields : MockAgent → Dict Value
unfolding concat
agent_fields a = agent_entries a (
    with_entry "name" a.name
      (with_entry "scope" a.scope (with_entry "permission" a.permission (token_entries a))))

abbrev pub agent_value : MockAgent → Value
agent_value a = obj (of_fields (agent_fields a))

-- What a handler knows besides the request: the time, and the URL of the server.
pub record Setting : Type 0 where
  pub now : String
  pub url : String

abbrev pub fresh_agent : Setting → ArpState → String → String → MockAgent
fresh_agent env s workspace template =
    let id : String = agent_id_of s.next_agent_n in
    record {
      id = id;
      template = template;
      workspace = workspace;
      status = "starting";
      port = s.next_port;
      direct_url = direct_url_of s.next_port;
      proxy_url = concat env.url (concat "/a2a/agents/" (concat id "/"));
      started_at = env.now;
      name = none;
      scope = none;
      permission = none;
    }

-- a new agent of the state, with the goroutine that will mark it as ready
unfoldable pub start_agent : MockAgent → ArpState → ArpState
unfolding insert
start_agent a s = record s {
  agents = insert a.id a s.agents;
  next_port = s.next_port + 1;
  next_agent_n = s.next_agent_n + 1;
  sleeping = s.sleeping ++ (a.id ∷ []);
}

-- the goroutine of an agent wakes up
unfoldable pub wake : String → ArpState → ArpState
unfolding insert lookup
wake id s = elim (lookup id s.agents) [
  | none ↦ s
  | some a ↦ record s { agents = insert id (record a { status = "ready" }) s.agents }
]

-- what a filter of the query asks of a field
abbrev pub passes : Option String → String → Bool
passes none actual = true
passes (some wanted) actual = wanted == "" || actual == wanted

unfoldable pub list_mock_agents : Dict String → List MockAgent → List MockAgent
unfolding lookup
list_mock_agents query as_ =
    filter
      (λ a.
        passes (lookup "workspace" query) a.workspace
        && (passes (lookup "status" query) a.status && passes (lookup "template" query) a.template))
      as_

abbrev pub asked_agent : Setting → ArpState → Dict Value → String → String → MockAgent
asked_agent env s body workspace template = record (fresh_agent env s workspace template) {
  name = lookup "name" body;
  scope = lookup "scope" body;
  permission = lookup "permission" body;
}

abbrev pub spawn_in : Setting → ArpState → Dict Value → String → String → MockReply × ArpState
spawn_in env s body workspace template =
    if workspace == "" || template == ""
    then (error_reply 400 "workspace and template are required", s)
    else elim (lookup workspace s.workspaces) [
      | none ↦ (error_reply 400 "workspace does not exist", s)
      | some ws ↦
          let a : MockAgent = asked_agent env s body workspace template in
          (reply_of 201 (agent_value a), start_agent a s)
    ]

abbrev pub post_agent : Setting → ArpState → Option (Dict Value) → MockReply × ArpState
post_agent env s none = (error_reply 400 "invalid JSON body", s)
post_agent env s (some body) =
    spawn_in env s body (text_or_empty (lookup "workspace" body))
      (text_or_empty (lookup "template" body))

-- `handleARPAgentsCRUD`
unfoldable pub handle_agents_crud : Setting → ArpState → MockRequest → MockReply × ArpState
unfolding list_mock_agents agent_fields agent_id_of start_agent concat decimal lookup
handle_agents_crud env s r =
    if r.method == "GET"
    then (
      reply_of 200 (arr (of_items (map agent_value (list_mock_agents r.query (values s.agents))))),
      s,
    )
    else if r.method == "POST"
    then post_agent env s r.body
    else (method_not_allowed, s)

abbrev or_whole : String → Option (String × String) → String × String
or_whole path none = (path, "")
or_whole path (some (id, action)) = (id, action)

-- the agent and the action of a path
unfoldable pub agent_path : String → String × String
unfolding trim_prefix cut
agent_path path =
    let rest : String = trim_prefix path "/api/agents/" in or_whole rest (cut rest "/")

-- the mock card of an agent
abbrev card_entry : String → MockAgent → Value
card_entry id a = obj (
    field "name" (text a.template) (
      field "version" (text "1.0.0") (
        field "metadata"
          (obj (
            field "arp"
              (obj (
                field "agent_id" (text id) (
                  field "workspace" (text a.workspace) (field "status" (text a.status) no_fields))))
              no_fields))
          no_fields)))

abbrev pub get_agent : String → Option MockAgent → MockReply
get_agent id none = error_reply 404 "agent not found"
get_agent id (some a) =
    reply_of 200 (obj (of_fields (insert "a2a_agent_card" (card_entry id a) (agent_fields a))))

abbrev pub stop_mock_agent : String → ArpState → Option MockAgent → MockReply × ArpState
stop_mock_agent id s none = (error_reply 404 "agent not found", s)
stop_mock_agent id s (some a) =
    let a' : MockAgent = record a { status = "stopped" } in
    (reply_of 200 (agent_value a'), record s { agents = insert id a' s.agents })

abbrev pub restarted : ArpState → MockAgent → MockAgent
restarted s a = record a {
  status = "starting";
  port = s.next_port;
  direct_url = direct_url_of s.next_port;
}

abbrev pub restart_mock_agent : String → ArpState → Option MockAgent → MockReply × ArpState
restart_mock_agent id s none = (error_reply 404 "agent not found", s)
restart_mock_agent id s (some a) =
    let a' : MockAgent = restarted s a in
    (
      reply_of 200 (agent_value a'),
      record s {
        agents = insert id a' s.agents;
        next_port = s.next_port + 1;
        sleeping = s.sleeping ++ (id ∷ []);
      },
    )

-- `handleARPAgentByID`
unfoldable pub handle_agent_by_id : ArpState → MockRequest → MockReply × ArpState
unfolding agent_path agent_fields insert lookup concat decimal
handle_agent_by_id s r =
    let (id, action) = agent_path r.path in
    if r.method == "GET" && action == ""
    then (get_agent id (lookup id s.agents), s)
    else if r.method == "POST" && action == "stop"
    then stop_mock_agent id s (lookup id s.agents)
    else if r.method == "POST" && action == "restart"
    then restart_mock_agent id s (lookup id s.agents)
    else (method_not_allowed, s)
