-- ===== src/Mock/Server/Proxy.antt =====
-- internal/mockserver/arp_handlers.go: the proxy endpoints of the mock server, which keep no state but
-- the record of requests, and the inspection of that record.
use spec_torture.Base.{
  String, Bool, true, false, Option, none, some, List, [], ◌∷◌, ◌==◌, any, map, if◌then◌else◌,
}
use spec_torture.Base.Dict.{Dict, lookup}
use spec_torture.Base.Text.{concat}
use spec_torture.Base.Strings.{has_prefix, has_suffix, has_infix, trim_prefix, cut}
use spec_torture.Value.{Value, null, boolean, text, arr, items, of_items}
use spec_torture.Mock.Server.{
  Recorded, MockServer, HttpCall, RpcRequest, Answer, http_error, json, events, object_of,
  map_or_empty, requests_of, requests_by_method, reset, record_request, handle_rpc,
}

-- what is recorded of a call that is no JSON-RPC request
abbrev pub plain_record : HttpCall → String → Recorded
plain_record c body = record {
  method = "";
  id = null;
  params = none;
  raw_body = body;
  path = c.path;
  http_method = c.method;
}

-- a body that cannot be read to its end counts as empty
abbrev body_text : HttpCall → String
body_text c = elim c.body [ none ↦ "" | some s ↦ s ]

abbrev texts : List String → Value
texts ss = arr (of_items (map (λ s. text s) ss))

abbrev one : Value → Value
one v = arr (of_items (v ∷ []))

abbrev echo_skill : Value
echo_skill = object_of (
    ("id", text "echo")
    ∷ ("name", text "Echo")
    ∷ ("description", text "Echoes back")
    ∷ ("tags", texts ("echo" ∷ "test" ∷ []))
    ∷ [])

abbrev interface_at : String → Value
interface_at url =
    object_of (
      ("url", text url)
      ∷ ("protocolBinding", text "JSONRPC")
      ∷ ("protocolVersion", text "1.0")
      ∷ [])

abbrev arp_metadata : String → Value
arp_metadata id = object_of (
    (
      "arp",
      object_of (
          ("agent_id", text id)
          ∷ ("workspace", text "test-workspace")
          ∷ ("project", text "test-project")
          ∷ ("template", text "default")
          ∷ ("status", text "ready")
          ∷ ("direct_url", text "http://127.0.0.1:9999")
          ∷ ("started_at", text "2026-01-01T00:00:00Z")
          ∷ []),
    )
    ∷ [])

abbrev agent_url : String → String → String
agent_url url id = concat url (concat "/a2a/agents/" (concat id "/"))

-- the card in the list of agents
abbrev listed_card : String → Value
listed_card url = object_of (
    ("name", text "mock-a2a-agent")
    ∷ ("version", text "1.0.0")
    ∷ ("supportedInterfaces", one (interface_at (agent_url url "mock-agent-001")))
    ∷ ("capabilities", object_of (("streaming", boolean true) ∷ []))
    ∷ ("defaultInputModes", texts ("text/plain" ∷ []))
    ∷ ("defaultOutputModes", texts ("text/plain" ∷ []))
    ∷ ("skills", one echo_skill)
    ∷ ("metadata", arp_metadata "mock-agent-001")
    ∷ [])

-- the card of an agent that is asked for
abbrev proxied_card : String → String → Value
proxied_card url id = object_of (
    ("name", text "mock-a2a-agent")
    ∷ ("version", text "1.0.0")
    ∷ ("supportedInterfaces", one (interface_at (agent_url url id)))
    ∷ ("skills", one echo_skill)
    ∷ ("metadata", arp_metadata id)
    ∷ [])

abbrev completed : Value
completed = object_of (("state", text "completed") ∷ [])

abbrev proxy_task : Value
proxy_task = object_of (
    ("id", text "task-arp-001")
    ∷ ("contextId", text "ctx-arp-001")
    ∷ (
      "status",
      object_of (
          ("state", text "completed")
          ∷ (
            "message",
            object_of (
                ("messageId", text "resp-arp-001")
                ∷ ("role", text "agent")
                ∷ ("parts", one (object_of (("text", text "ARP proxy response") ∷ [])))
                ∷ []),
          )
          ∷ []),
    )
    ∷ [])

abbrev routed_task : Value
routed_task = object_of (
    ("id", text "task-routed-001")
    ∷ ("contextId", text "ctx-routed-001")
    ∷ ("status", completed)
    ∷ [])

abbrev streamed_task : Value
streamed_task =
    object_of
      (("task", object_of (("id", text "task-stream-001") ∷ ("status", completed) ∷ [])) ∷ [])

abbrev or_whole : String → Option (String × String) → String × String
or_whole path none = (path, "")
or_whole path (some (id, rest)) = (id, rest)

-- the agent of a path, and what follows
unfoldable pub proxied_path : String → String × String
unfolding trim_prefix cut
proxied_path path =
    let rest : String = trim_prefix path "/a2a/agents/" in or_whole rest (cut rest "/")

-- the answer for an agent that exists
abbrev proxy_answer : String → (Value → String) → String → String → Answer
proxy_answer url marshal id sub =
    if sub == ".well-known/agent-card.json"
    then json (proxied_card url id)
    else if has_suffix sub "message:send"
    then json (object_of (("task", proxy_task) ∷ []))
    else if has_suffix sub "message:stream"
    then events (marshal streamed_task ∷ [])
    else json
        (object_of (("status", text "ok") ∷ ("agent_id", text id) ∷ ("subpath", text sub) ∷ []))

-- `handleARPAgentSubpath`, whose writer can always flush
unfoldable pub handle_agent_subpath :
    String → (Value → String) → MockServer → HttpCall → Answer × MockServer
unfolding proxied_path record_request has_suffix concat
handle_agent_subpath url marshal s c =
    let (id, sub) = proxied_path c.path in
    let s' : MockServer = record_request (plain_record c (body_text c)) s in
    if id == "nonexistent-agent-00000"
    then (http_error 404 "{\"error\": \"agent not found\"}", s')
    else (proxy_answer url marshal id sub, s')

-- `handleARPAgents`
unfoldable pub handle_agents :
    String → (Value → String) → MockServer → HttpCall → Answer × MockServer
unfolding handle_agent_subpath record_request concat
handle_agents url marshal s c =
    if c.path == "/a2a/agents"
    then (json (one (listed_card url)), record_request (plain_record c "") s)
    else handle_agent_subpath url marshal s c

-- `handleARPDiscover`
unfoldable pub handle_discover : MockServer → HttpCall → Answer × MockServer
unfolding record_request
handle_discover s c = (
  json (
      object_of (
        (
          "agents",
          one (
              object_of (
                ("agent_id", text "mock-agent-001")
                ∷ ("name", text "mock-a2a-agent")
                ∷ ("status", text "ready")
                ∷ [])),
        )
        ∷ [])),
  record_request (plain_record c "") s,
)

-- a text among the tags that no agent has
abbrev pub names_nonexistent : Value → Bool
names_nonexistent (text s) = has_infix s "nonexistent"
names_nonexistent v = false

abbrev items_or_none : Option Value → List Value
items_or_none (some (arr vs)) = items vs
items_or_none _ = []

abbrev or_empty : Option (Option (Dict Value)) → Dict Value
or_empty (some (some m)) = m
or_empty _ = []

-- `handleARPRoute`, with json.Unmarshal into a map
unfoldable pub handle_route :
    (String → Option (Option (Dict Value))) → MockServer → HttpCall → Answer × MockServer
unfolding record_request has_infix lookup
handle_route parse s c =
    let routing : Dict Value = map_or_empty (lookup "routing" (or_empty (parse (body_text c)))) in
    let s' : MockServer = record_request (plain_record c (body_text c)) s in
    if any names_nonexistent (items_or_none (lookup "tags" routing))
    then (http_error 404 "{\"error\": \"no matching agent\"}", s')
    else (json (object_of (("task", routed_task) ∷ [])), s')

-- `handleCatchAll`
unfoldable pub handle_catch_all :
    (String → Option RpcRequest)
    → String
    → (Value → String)
    → MockServer
    → HttpCall
    → Answer × MockServer
unfolding handle_agent_subpath handle_rpc has_prefix
handle_catch_all decode url marshal s c =
    if has_prefix c.path "/a2a/agents/"
    then handle_agent_subpath url marshal s c
    else handle_rpc decode marshal s c

-- the requests that `handleInspectRequests` answers with
unfoldable pub inspected : String → MockServer → List Recorded
unfolding requests_by_method
inspected method s = if method == "" then requests_of s else requests_by_method method s

-- `handleInspectReset`
unfoldable pub handle_inspect_reset : MockServer → Answer × MockServer
unfolding reset
handle_inspect_reset s = (json (object_of (("status", text "ok") ∷ [])), reset s)

-- `handleAgentCard`, with the card of the server
unfoldable pub handle_agent_card : Value → MockServer → HttpCall → Answer × MockServer
unfolding record_request
handle_agent_card card s c = (json card, record_request (plain_record c "") s)
