-- ===== src/Runner/JsonRpc/Stream/Printed.antt =====
-- The events that internal/mockserver/server.go prints, read by internal/runner/jsonrpc_runner.go.
use spec_torture.Base.{◌≡◌, refl, String, Bool, Option, none, some, List, [], ◌∷◌, ◌++◌, ap, ◌∙◌}
use spec_torture.Base.Dict.{Dict}
use spec_torture.Base.Text.{concat}
use spec_torture.Value.{Value}
use spec_torture.Runner.Host.{Host}
use spec_torture.Runner.JsonRpc.Stream.{keep_event, flush, line_data, scan_lines, parse_sse}

-- `data: %s\n\n` for each event, as lines: that of a text for an event without a line break
unfoldable pub printed : List String → List String
unfolding concat
printed [] = []
printed (e ∷ es) = concat "data: " e ∷ "" ∷ printed es

module _ (h : Host) where
  -- the events that are objects, in their order
  abbrev pub decoded : List String → List (Option (Dict Value))
  decoded [] = []
  decoded (String.[] ∷ es) = decoded es
  decoded (String.◌∷◌ c e ∷ es) = keep_event h (h.parse_object (String.◌∷◌ c e)) (decoded es)

  keep_event-++ :
      (o : Option (Option (Dict Value))) (a b : List (Option (Dict Value)))
      → keep_event h o (a ++ b) ≡ keep_event h o a ++ b
  keep_event-++ none a b = refl
  keep_event-++ (some m) a b = refl

  -- Whatever follows in the stream and whether or not the stream ends in time, the reader gets each
  -- event that was printed and that is an object, in the order of printing, and then what it reads
  -- off the rest.
  pub parse_sse-printed :
      (es rest : List String) (ended : Bool)
      → parse_sse h (printed es ++ rest) ended ≡ decoded es ++ parse_sse h rest ended
  unfolding parse_sse scan_lines printed line_data concat flush
  parse_sse-printed [] rest ended = refl
  parse_sse-printed (String.[] ∷ es) rest ended = parse_sse-printed es rest ended
  parse_sse-printed (String.◌∷◌ c e ∷ es) rest ended =
      ap (keep_event h (h.parse_object (String.◌∷◌ c e))) (parse_sse-printed es rest ended)
      ∙ keep_event-++ (h.parse_object (String.◌∷◌ c e)) (decoded es) (parse_sse h rest ended)
