-- ===== src/Mock/Server/Answers.antt =====
-- What the JSON-RPC side of internal/mockserver/server.go answers and records.
use spec_torture.Base.{
  ◌≡◌, ◌≢◌, refl, ◌⊎◌, inl, inr, String, true, Option, none, some, List, [], ◌∷◌, ◌++◌, ◌==◌, arith,
  eq_iff, Bool-cases, Option-cases,
}
use spec_torture.Base.Dict.{lookup}
use spec_torture.Base.Strings.{has_infix}
use spec_torture.Value.{Value, null}
use spec_torture.Mock.Server.{
  Recorded, HandlerResult, result, rpc_error, MockServer, HttpCall, RpcRequest, Answer, http_error,
  events, handled, handle_custom, dispatch, recorded, serve_decoded, serve_body, handle_rpc,
  record_request, marshal_all,
}
use spec_torture.Mock.Server.Replies.{
  result-IsResultOf, error-IsErrorOf, IsHandled, IsParseError, IsInvalidRequest, IsDefault,
  handle_default-IsDefault,
}

module _ (decode : String → Option RpcRequest) (marshal : Value → String) where
  -- The caller accepts a stream, and there is a handler that streams for the method.
  abbrev pub Streams : MockServer → RpcRequest → String → (Recorded → List String) → Type 0
  Streams s q accept h =
      (lookup q.method s.stream_handlers ≡ some h) × (has_infix accept "text/event-stream" ≡ true)

  -- The answer to a valid request: what the streaming handler of the method sends, or else what its
  -- custom handler returns, or else what the default handlers answer.
  pub record IsReply (s : MockServer) (r : Recorded) (q : RpcRequest) (accept : String) (a : Answer)
      : Type 0 where
    pub streamed : (h : Recorded → List String) → Streams s q accept h → a ≡ events (h r)
    pub custom :
        ((g : Recorded → List String) → ¬ (Streams s q accept g))
        → (h : Recorded → HandlerResult) → lookup q.method s.handlers ≡ some h
        → IsHandled q.id (h r) a
    pub default :
        ((g : Recorded → List String) → ¬ (Streams s q accept g))
        → lookup q.method s.handlers ≡ none
        → IsDefault (marshal_all decode marshal) q a

  handled-IsHandled :
      (id : Value) (r : HandlerResult) → IsHandled id r (handled decode marshal id r)
  handled-IsHandled id (result v) = result-IsResultOf id v
  handled-IsHandled id (rpc_error e) = error-IsErrorOf id e.code e.message e.details

  unstreamed-IsReply :
      (s : MockServer) (r : Recorded) (q : RpcRequest) (accept : String)
      → ((g : Recorded → List String) → ¬ (Streams s q accept g))
      → IsReply s r q accept (handle_custom decode marshal s r q)
  unfolding handle_custom
  unstreamed-IsReply s r q accept none_streams = record {
    streamed = λ g e. absurd (none_streams g e);
    custom = λ _ h e. rw (handle_custom, e) (handled-IsHandled q.id (h r));
    default = λ _ e. rw (handle_custom, e) (handle_default-IsDefault decode marshal q);
  }

  dispatch-IsReply :
      (s : MockServer) (r : Recorded) (q : RpcRequest) (accept : String)
      → IsReply s r q accept (dispatch decode marshal s r q accept)
  unfolding dispatch
  dispatch-IsReply s r q accept = elim (Option-cases (lookup q.method s.stream_handlers)) [
    | inl e ↦ rw (dispatch, e) (unstreamed-IsReply s r q accept (λ g k. ground arith))
    | inr (h, e) ↦ elim (Bool-cases (has_infix accept "text/event-stream")) [
      | inl t ↦
          rw (dispatch, e, t)
            (record {
              streamed = λ g k. let same : h ≡ g = ground arith in rw same refl;
              custom = λ none_streams. absurd (none_streams h (e, t));
              default = λ none_streams. absurd (none_streams h (e, t));
            })
      | inr f ↦ rw (dispatch, e, f) (unstreamed-IsReply s r q accept (λ g k. ground arith))
    ]
  ]

  -- the request that a call carries
  abbrev pub carried : HttpCall → Option RpcRequest
  carried c = elim c.body [ none ↦ none | some body ↦ decode body ]

  -- How a request ends, with the one that is recorded of it.
  abbrev pub Replied : MockServer → HttpCall → RpcRequest → Recorded → Answer × MockServer → Type 0
  Replied s c q r (a, t) =
      (q.jsonrpc ≢ "2.0") × IsInvalidRequest q.id a × (t ≡ s)
      ⊎ (q.jsonrpc ≡ "2.0")
        × IsReply s r q c.accept a
        × (t ≡ record s { requests = s.requests ++ (r ∷ []) })

  -- How a call ends: the answer, and the requests that are on record afterwards.
  abbrev pub Serves : MockServer → HttpCall → Answer × MockServer → Type 0
  Serves s c (a, t) =
      (c.method ≢ "POST") × (a ≡ http_error 405 "method not allowed") × (t ≡ s)
      ⊎ ((carried c ≡ none) × IsParseError a × (t ≡ s)
          ⊎ ((q : RpcRequest) × (body : String) × (decode body ≡ some q)
              × (c.body ≡ some body)
              × Replied s c q (recorded decode marshal c body q) (a, t)))

  replied :
      (s : MockServer) (c : HttpCall) (body : String) (q : RpcRequest)
      → Replied s c q
          (recorded decode marshal c body q)
          (serve_decoded decode marshal s c body (some q))
  unfolding record_request
  replied s c body q = elim (Bool-cases (q.jsonrpc == "2.0")) [
    | inl e ↦ rw e (
        inr (
          (eq_iff _ _).0 e,
          dispatch-IsReply s (recorded decode marshal c body q) q c.accept,
          refl,
        ))
    | inr e ↦
        rw e (inl (ground (arith, eq_iff (q.jsonrpc) "2.0"), error-IsErrorOf q.id _ _ none, refl))
  ]

  body_served :
      (s : MockServer) (c : HttpCall) (body : String) (o : Option RpcRequest)
      → decode body ≡ o
      → c.body ≡ some body
      → Serves s c (serve_decoded decode marshal s c body o)
  body_served s c body none d b = inr (inl (rw b d, error-IsErrorOf null _ _ none, refl))
  body_served s c body (some q) d b = inr (inr (q, body, d, b, replied s c body q))

  -- A call that is no POST is refused with 405 and changes nothing. A body that cannot be read or
  -- decoded is answered with the error -32700 and a null id, a request whose version is not 2.0 with the
  -- error -32600 under its id, and neither is recorded. Any other request is recorded once, after the
  -- earlier ones, and answered under its id: with the events of the streaming handler of its method, if
  -- there is one and the caller accepts a stream; else with the result or the error that its custom
  -- handler returns, if there is one; else by the default handlers, which answer with an error -32602
  -- where the message id or the task id is missing, -32001 for an unknown task and -32601 for an unknown
  -- method, with the two events of a stream, with the one completed task to a message and to a request
  -- for that task, and to a cancellation with a canceled task of the id that was named.
  pub handle_rpc-Serves :
      (s : MockServer) (c : HttpCall) → Serves s c (handle_rpc decode marshal s c)
  unfolding handle_rpc
  handle_rpc-Serves s c = elim (Bool-cases (c.method == "POST")) [
    | inl e ↦ rw e (go c.body refl)
    | inr e ↦ rw e (inl (ground (arith, eq_iff c.method "POST"), refl, refl))
  ]
    where
      go : (o : Option String) → c.body ≡ o → Serves s c (serve_body decode marshal s c o)
      go none e = inr (inl (rw e refl, error-IsErrorOf null _ _ none, refl))
      go (some body) e = body_served s c body (decode body) refl e
