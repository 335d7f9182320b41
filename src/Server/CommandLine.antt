-- ===== src/Server/CommandLine.antt =====
-- server/main.cpp: the loop of `main` over the program's arguments.
pub mod Settings
use verteilte_systeme_bbps.Prelude.{
  ℕ, Bool, true, false, List, [], ◌∷◌, Text, codes, ℤ, pos, negsuc, ltb, text_eq, ◌==◌,
  if◌then◌else◌, Outcome, ok, throws, undefined,
}
use verteilte_systeme_bbps.Std.Decimal.{stoi}

pub record Options : Type 0 where
  pub port : ℤ
  pub topic_timeout : ℤ

abbrev pub default_options : Options
default_options = record { port = pos 8080; topic_timeout = pos 30 }

-- How the loop ends: the server is started, the help is printed, or `return 1`.
pub data Parsed : Type 0 where
  start : Options → Parsed
  help refused : Parsed

-- The words that the loop tells apart.
pub data Word : Type 0 where
  help_word port_word timeout_word debug_word other_word : Word

unfoldable pub word_of : Text → Word
word_of arg =
    if arg == codes "--help"
    then Word.help_word
    else if arg == codes "--port"
    then Word.port_word
    else if arg == codes "--topic-timeout"
    then Word.timeout_word
    else if arg == codes "--debug"
    then Word.debug_word
    else Word.other_word

-- `port < 0 || port > 65535`
abbrev pub out_of_range_port : ℤ → Bool
out_of_range_port (pos n) = ltb 65535 n
out_of_range_port (negsuc n) = true

-- A `try` block with `stoi`, and what follows it.
unfoldable pub with_number : Outcome ℤ → (ℤ → Outcome Parsed) → Outcome Parsed
with_number (ok n) next = next n
with_number (throws e) next = ok Parsed.refused
with_number undefined next = undefined

-- A round for the last argument: it has no value behind it, `argv[argc]` is a null pointer, and a
-- string is made of that.
unfoldable pub last_round : Word → Options → Outcome Parsed
last_round Word.help_word o = ok Parsed.help
last_round Word.port_word o = undefined
last_round Word.timeout_word o = undefined
last_round Word.debug_word o = ok (Parsed.start o)
last_round Word.other_word o = ok Parsed.refused

-- A round with a value behind the argument. `behind` is the loop behind the value, and `at_value` the
-- loop from the value on.
unfoldable pub value_round :
    Word → Text → (Options → Outcome Parsed) → (Options → Outcome Parsed) → Options → Outcome Parsed
unfolding with_number stoi
value_round Word.help_word value behind at_value o = ok Parsed.help
value_round Word.port_word value behind at_value o =
    with_number (stoi value) λ port.
      if out_of_range_port port then ok Parsed.refused else behind (record o { port = port })
value_round Word.timeout_word value behind at_value o =
    with_number (stoi value) λ timeout. behind (record o { topic_timeout = timeout })
value_round Word.debug_word value behind at_value o = at_value o
value_round Word.other_word value behind at_value o = ok Parsed.refused

unfoldable pub parse_from : List Text → Options → Outcome Parsed
unfolding word_of last_round value_round
parse_from [] o = ok (Parsed.start o)
parse_from (arg ∷ []) o = last_round (word_of arg) o
parse_from (arg ∷ value ∷ rest) o =
    value_round (word_of arg) value (parse_from rest) (parse_from (value ∷ rest)) o

unfoldable pub parse : List Text → Outcome Parsed
unfolding parse_from
parse args = parse_from args default_options
