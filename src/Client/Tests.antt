-- ===== src/Client/Tests.antt =====
-- A run of two client tests, and a path.
use spec_torture.Base.{◌≡◌, ◌==◌, refl, Option, none, some, String, List, [], ◌∷◌, if◌then◌else◌}
use spec_torture.Base.Strings.{join}
use spec_torture.Base.Dict.{Dict}
use spec_torture.Base.Text.{concat}
use spec_torture.Value.{Value}
use spec_torture.Mock.Server.{MockServer}
use spec_torture.Client.{ClientCase, split_path}
use spec_torture.Client.Driver.{extract_json, scan_braces}
use spec_torture.Client.Driver.Nested.{closing, closing_last, opening, letter, extract_json-Closes}
use spec_torture.Client.Paths.{split_path-join}

abbrev mock : MockServer
mock = record { requests = []; handlers = []; stream_handlers = [] }

abbrev cases : List ClientCase
cases =
    record { id = "a"; tags = "smoke" ∷ []; test = some (λ m. (none, m)) }
    ∷ record { id = "b"; tags = "slow" ∷ []; test = none }
    ∷ []

split_path-join_example : split_path (join "." ("params" ∷ "id" ∷ [])) ≡ "params" ∷ "id" ∷ []
split_path-join_example =
    split_path-join ("params" ∷ "id" ∷ [])
      ((refl, (refl, (refl, (refl, (refl, (refl, tt)))))), ((refl, (refl, tt)), tt))

abbrev parse_nested : String → Option (Option (Dict Value))
parse_nested s = if s == "{a{}}" then some (some []) else none

extracted : extract_json parse_nested "ok {a{}} {" ≡ some []
unfolding extract_json scan_braces concat
extracted = refl

unclosed : extract_json parse_nested "ok {a{}" ≡ none
unfolding extract_json scan_braces concat
unclosed = refl

extract_json-Closes_example : extract_json parse_nested "ok {a{}} {" ≡ some []
unfolding concat
extract_json-Closes_example =
    extract_json-Closes parse_nested "ok " "{" "a{}}" " {" (some []) (refl, (refl, (refl, tt))) refl
      (letter refl refl (opening refl (closing refl refl (closing_last refl refl)))) refl
