-- ===== src/Runner/JsonRpc/Stream/Text.antt =====
-- The text of a stream, as internal/mockserver/server.go writes it and the `bufio.Scanner` of
-- internal/runner/jsonrpc_runner.go takes it apart into lines.
use Prim.Native.Char.{code}
use Prim.Native.String.{len}
use spec_torture.Base.{
  ◌≡◌, refl, String, Bool, true, false, Option, List, [], ◌∷◌, ◌++◌, ◌==◌, All, ap, sym, ◌∙◌, eqb,
  leb, if◌then◌else◌,
}
use spec_torture.Base.Dict.{Dict}
use spec_torture.Base.Text.{concat, concat-nil, concat_assoc}
use spec_torture.Value.{Value}
use spec_torture.Runner.Host.{Host}
use spec_torture.Runner.JsonRpc.Stream.{parse_sse}
use spec_torture.Runner.JsonRpc.Stream.Printed.{printed, decoded, parse_sse-printed}

-- `fmt.Fprintf(w, "data: %s\n\n", e)` for each event
unfoldable pub printed_text : List String → String
unfolding concat
printed_text [] = ""
printed_text (e ∷ es) = concat "data: " (concat e (concat "\n\n" (printed_text es)))

-- a carriage return at the end of a line is dropped
abbrev pub drop_cr : String → String
drop_cr String.[] = ""
drop_cr (String.◌∷◌ c String.[]) = if eqb (code c) 13 then "" else String.◌∷◌ c ""
drop_cr (String.◌∷◌ c (String.◌∷◌ d s)) = String.◌∷◌ c (drop_cr (String.◌∷◌ d s))

-- a line with its end fits the scanner's buffer of 64 KB; one that does not ends the scan
abbrev pub fits : String → Bool
fits line = leb (len line) 65535

-- the lines of a text, with what was read of the first
unfoldable pub scan_text : String → String → List String
unfolding concat
scan_text seen String.[] = if seen == "" then [] else if fits seen then drop_cr seen ∷ [] else []
scan_text seen (String.◌∷◌ c s) =
    let more = scan_text (concat seen (String.◌∷◌ c "")) s in
    let next = scan_text "" s in
    if eqb (code c) 10 then (if fits seen then drop_cr seen ∷ next else []) else more

-- a text without a line feed or a carriage return
abbrev pub HasNoBreak : String → Type 0
HasNoBreak String.[] = Unit
HasNoBreak (String.◌∷◌ c s) = (eqb (code c) 10 ≡ false) × (eqb (code c) 13 ≡ false) × HasNoBreak s

-- an event whose line can be read
abbrev pub IsEvent : String → Type 0
IsEvent e = HasNoBreak e × (fits (concat "data: " e) ≡ true)

drop_cr-HasNoBreak : (s : String) → HasNoBreak s → drop_cr s ≡ s
drop_cr-HasNoBreak String.[] h = refl
drop_cr-HasNoBreak (String.◌∷◌ c String.[]) (a, b, h) = rw b refl
drop_cr-HasNoBreak (String.◌∷◌ c (String.◌∷◌ d s)) (a, b, h) =
    ap (λ t. String.◌∷◌ c t) (drop_cr-HasNoBreak (String.◌∷◌ d s) h)

scan_text-line :
    (seen line rest : String)
    → HasNoBreak line
    → fits (concat seen line) ≡ true
    → scan_text seen (concat line (concat "\n" rest))
      ≡ drop_cr (concat seen line) ∷ scan_text "" rest
unfolding scan_text concat
scan_text-line seen String.[] rest h f =
    let whole : fits seen ≡ true = ap fits (sym (concat-nil seen)) ∙ f in
    rw (whole, concat-nil seen) refl
scan_text-line seen (String.◌∷◌ c line) rest (a, b, h) f =
    let same : concat (concat seen (String.◌∷◌ c "")) line ≡ concat seen (String.◌∷◌ c line) =
      concat_assoc seen (String.◌∷◌ c "") line in
    rw a (
      scan_text-line (concat seen (String.◌∷◌ c "")) line rest h (ap fits same ∙ f)
      ∙ ap (λ x. drop_cr x ∷ scan_text "" rest) same)

data_line : (e : String) → HasNoBreak e → HasNoBreak (concat "data: " e)
unfolding concat
data_line e h =
    (refl, refl, (refl, refl, (refl, refl, (refl, refl, (refl, refl, (refl, refl, h))))))

printed_text-lines :
    (es : List String) (rest : String)
    → All IsEvent es
    → scan_text "" (concat (printed_text es) rest) ≡ printed es ++ scan_text "" rest
unfolding scan_text printed_text printed concat
printed_text-lines [] rest h = refl
printed_text-lines (e ∷ es) rest ((h, f), hs) =
    let line : HasNoBreak (concat "data: " e) = data_line e h in
    ap (λ s. scan_text "" (concat "data: " s))
      (concat_assoc e (concat "\n\n" (printed_text es)) rest)
    ∙ scan_text-line "" (concat "data: " e) (concat "\n" (concat (printed_text es) rest)) line f
    ∙ ap (λ x. x ∷ "" ∷ scan_text "" (concat (printed_text es) rest))
        (drop_cr-HasNoBreak (concat "data: " e) line)
    ∙ ap (λ ls. concat "data: " e ∷ "" ∷ ls) (printed_text-lines es rest hs)

module _ (h : Host) where
  -- `parseSSEStream`, on the text of the stream
  unfoldable pub parse_stream : String → Bool → List (Option (Dict Value))
  unfolding scan_text parse_sse
  parse_stream s ended = parse_sse h (scan_text "" s) ended

  -- Of the text that is written for events without line breaks, each on a line of at most 64 KB, the
  -- reader gets each event that is an object or null, in the order of writing, and then what it reads off
  -- the text that follows, whatever this is and whether or not the stream ends in time.
  pub parse_stream-printed_text :
      (es : List String) (rest : String) (ended : Bool)
      → All IsEvent es
      → parse_stream (concat (printed_text es) rest) ended ≡ decoded h es ++ parse_stream rest ended
  unfolding parse_stream
  parse_stream-printed_text es rest ended events =
      ap (λ ls. parse_sse h ls ended) (printed_text-lines es rest events)
      ∙ parse_sse-printed h es (scan_text "" rest) ended
