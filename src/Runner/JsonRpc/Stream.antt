-- ===== src/Runner/JsonRpc/Stream.antt =====
-- `parseSSEStream` of internal/runner/jsonrpc_runner.go, on the lines of a stream.
pub mod Printed
pub mod Streamed
pub mod Text
use spec_torture.Base.{String, Bool, true, false, Option, none, some, List, [], ◌∷◌, if◌then◌else◌}
use spec_torture.Base.Dict.{Dict}
use spec_torture.Base.Text.{concat}
use spec_torture.Base.Strings.{has_prefix, drop_as}
use spec_torture.Value.{Value}
use spec_torture.Runner.Host.{Host}

-- s == ""
abbrev pub blank : String → Bool
blank String.[] = true
blank (String.◌∷◌ c s) = false

module _ (h : Host) where
  -- an event is kept if its data is an object or null
  abbrev pub keep_event :
      Option (Option (Dict Value)) → List (Option (Dict Value)) → List (Option (Dict Value))
  keep_event none evs = evs
  keep_event (some m) evs = m ∷ evs

  -- the data that was gathered, if there is any, and the events after it
  unfoldable pub flush : String → List (Option (Dict Value)) → List (Option (Dict Value))
  flush String.[] evs = evs
  flush (String.◌∷◌ c data_) evs = keep_event (h.parse_object (String.◌∷◌ c data_)) evs

  -- what a line adds to the data
  unfoldable pub line_data : String → String → String
  unfolding has_prefix drop_as concat
  line_data data_ line =
      if has_prefix line "data: " then concat data_ (drop_as line "data: ") else data_

  -- the loop over the lines, with the data gathered so far; the data of the last event needs the end
  -- of the stream
  unfoldable pub scan_lines : String → List String → Bool → List (Option (Dict Value))
  unfolding flush line_data
  scan_lines data_ [] ended = if ended then flush data_ [] else []
  scan_lines data_ (line ∷ lines) ended =
      let next = scan_lines "" lines ended in
      let more = scan_lines (line_data data_ line) lines ended in
      if blank line then flush data_ next else more

  -- `parseSSEStream`
  unfoldable pub parse_sse : List String → Bool → List (Option (Dict Value))
  unfolding scan_lines
  parse_sse lines ended = scan_lines "" lines ended
