-- ===== src/Runner/JsonRpc/Stream/Streamed.antt =====
-- A streaming call, from the default handler of internal/mockserver/server.go to the events that
-- internal/runner/jsonrpc_runner.go keeps.
use spec_torture.Base.{String, Option, none, some, List, [], ◌∷◌}
use spec_torture.Base.Dict.{Dict}
use spec_torture.Value.{Value, obj, fields}
use spec_torture.Runner.Host.{Host}
use spec_torture.Runner.JsonRpc.Stream.Printed.{printed}
use spec_torture.Mock.Server.{Answer, http_error, json, events, stream_values}

-- the lines of an answer that is a stream
abbrev pub lines_of : Answer → List String
lines_of (events es) = printed es
lines_of (json v) = []
lines_of (http_error status message) = []

module _ (h : Host) where
  abbrev pub map_of : Value → Option (Dict Value)
  map_of (obj fs) = some (fields fs)
  map_of v = none

  abbrev first_value : Value → Value
  first_value id = elim (stream_values id) [ [] ↦ id | v ∷ vs ↦ v ]
