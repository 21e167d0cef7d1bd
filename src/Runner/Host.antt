-- ===== src/Runner/Host.antt =====
-- What the runners of internal/runner take from outside: the network, the clock and library code.
use spec_torture.Base.{ℕ, String, Bool, Option, List}
use spec_torture.Base.Int.{ℤ}
use spec_torture.Base.Dict.{Dict}
use spec_torture.Value.{Value}
use spec_torture.Runner.Evaluator.{Formats}

-- http.Request, as far as the transports set it; a header is set under its canonical key.
pub record HttpRequest : Type 0 where
  pub method : String
  pub url : String
  pub body : Option String
  pub headers : Dict String

-- http.Response; the body is `none` where reading it fails, after the bytes of `partial`.
pub record HttpReply : Type 0 where
  pub status : ℤ
  pub headers : List (String × List String)
  pub body : Option String
  pub partial : String

-- A numbered answer is the one to that many-th question.
pub record Host : Type 0 where
  pub formats : Formats
  -- int(val) of a float64
  pub truncate : ℕ → ℤ
  -- json.Number.Int64, with what it returns beside an error
  pub int64_of : String → ℤ
  -- strings.ToLower
  pub lower : String → String
  -- textproto.CanonicalMIMEHeaderKey
  pub canonical : String → String
  -- json.Unmarshal into a map[string]any: `none` is an error, `some none` the nil map of `null`
  pub parse_object : String → Option (Option (Dict Value))
  -- json.Unmarshal into a []any
  pub parse_array : String → Option (Option (List Value))
  -- json.Marshal
  pub marshal : Value → Option String
  -- whether http.NewRequestWithContext accepts a method and a URL
  pub is_request : String → String → Bool
  -- http.Client.Do
  pub exchange : ℕ → HttpRequest → Option HttpReply
  -- the lines that bufio.Scanner reads off the answer before a stream's ten seconds are over, and
  -- whether it reads to the end in that time
  pub stream : ℕ → List String × Bool
  -- time.ParseDuration
  pub parse_duration : String → Option ℤ
  -- whether a wait of that long ends before the context does
  pub wait : ℕ → ℤ → Bool
  -- time.Now()
  pub now : ℕ → ℕ
