-- ===== src/Client/Arguments.antt =====
-- client/main.cpp: the loop of `main` over the program's arguments.
pub mod Rounds
pub mod Soundness
pub mod Commands
use verteilte_systeme_bbps.Prelude.{
  ℕ, zero, suc, Bool, true, false, ◌&&◌, not, List, [], ◌∷◌, ◌++◌, length, Option, none, some, Text,
  codes, ℤ, pos, negsuc, int_eq, nat_eq, text_eq, ◌==◌, if◌then◌else◌, Outcome, ok, throws,
  undefined, ◌>>=◌,
}
use verteilte_systeme_bbps.Client.Address.{get_port_number, is_valid_ipv4_address}

-- The variables of `main`, but for the level of the log.
pub record Options : Type 0 where
  pub port : ℤ
  pub server_address : Text
  pub server_port : ℤ
  pub command : Text
  pub arguments : List Text
  pub has_subscribe_command : Bool

abbrev pub default_options : Options
default_options = record {
  port = pos 0;
  server_address = codes "127.0.0.1";
  server_port = pos 8080;
  command = [];
  arguments = [];
  has_subscribe_command = false;
}

-- How the loop ends: with the options, with the help, or with `return 1`.
pub data Parsed : Type 0 where
  start : Options → Parsed
  help refused : Parsed

-- What a round comes to: the arguments that are left and the options, or the end.
pub data Round : Type 0 where
  go : List Text → Options → Round
  stop : Parsed → Round

-- `argv[i + 1][0] != '-' && argv[i + 1][1] != '-'`. Of the empty argument the byte behind its end is
-- read.
unfoldable pub is_topic_argument : Text → Outcome Bool
is_topic_argument [] = undefined
is_topic_argument (c ∷ []) = ok (not (c == b'-'))
is_topic_argument (c ∷ d ∷ s) = ok (not (c == b'-') && not (d == b'-'))

-- The `while` loops: the topics, and the arguments that are left behind them.
unfoldable pub take_topics : List Text → Outcome (List Text × List Text)
unfolding is_topic_argument
take_topics [] = ok ([], [])
take_topics (a ∷ rest) = is_topic_argument a >>= λ is_topic. elim is_topic [
  | true ↦ take_topics rest >>= λ (topics, left). ok (a ∷ topics, left)
  | false ↦ ok ([], a ∷ rest)
]

abbrev pub has_next : List Text → Bool
has_next [] = false
has_next (a ∷ rest) = true

abbrev pub has_two : List Text → Bool
has_two [] = false
has_two (a ∷ rest) = has_next rest

-- The first command defines the command of the client.
abbrev pub with_command : Text → Options → Options
with_command arg o = record o { command = if o.command == [] then arg else o.command }

unfoldable pub topics_round : Bool → List Text → Options → Outcome Round
unfolding take_topics
topics_round subscribing rest o = take_topics rest >>= λ (topics, left). ok (
    Round.go left (record o {
      arguments = o.arguments ++ topics;
      has_subscribe_command =
          if subscribing && has_next topics then true else o.has_subscribe_command;
    }))

unfoldable pub publish_round : List Text → Options → Round
publish_round (topic_name ∷ topic_data ∷ left) o =
    Round.go left (record o { arguments = o.arguments ++ topic_name ∷ topic_data ∷ [] })
publish_round (topic_name ∷ []) o = Round.stop Parsed.refused
publish_round [] o = Round.stop Parsed.refused

-- The branches behind the last `else`.
unfoldable pub command_round : Text → List Text → Options → Outcome Round
unfolding topics_round publish_round
command_round arg rest o =
    let o' = with_command arg o in
    if arg == codes "--subscribe" && arg == o'.command && has_next rest
    then topics_round true rest o'
    else if arg == codes "--publish" && not (has_next o'.arguments) && has_two rest
    then ok (publish_round rest o')
    else if arg == codes "--list-topics" && arg == o'.command
    then ok (Round.go rest o')
    else if arg == codes "--get-topic-status" && arg == o'.command && has_next rest
    then topics_round false rest o'
    else ok (Round.stop Parsed.refused)

-- The branches that look at the argument alone.
unfoldable pub plain_round : Text → List Text → Options → Outcome Round
unfolding command_round
plain_round arg rest o =
    if arg == codes "--help"
    then ok (Round.stop Parsed.help)
    else if arg == codes "--debug"
    then ok (Round.go rest o)
    else command_round arg rest o

unfoldable pub port_round : Text → List Text → Options → Outcome Round
unfolding get_port_number
port_round port_str rest o = get_port_number port_str >>= λ port. ok (
    if port == negsuc 0
    then Round.stop Parsed.refused
    else Round.go rest (record o { port = port }))

unfoldable pub address_round : Text → List Text → Options → Outcome Round
unfolding is_valid_ipv4_address
address_round address rest o = is_valid_ipv4_address address >>= λ valid. ok (
    if valid
    then Round.go rest (record o { server_address = address })
    else Round.stop Parsed.refused)

unfoldable pub server_port_round : Text → List Text → Options → Outcome Round
unfolding get_port_number
server_port_round port_str rest o = get_port_number port_str >>= λ port. ok (
    if port == negsuc 0
    then Round.stop Parsed.refused
    else Round.go rest (record o { server_port = port }))

-- One round of the loop, for an argument and those behind it.
unfoldable pub round : Text → List Text → Options → Outcome Round
unfolding plain_round port_round address_round server_port_round
round arg [] o = plain_round arg [] o
round arg (value ∷ rest) o =
    if arg == codes "--port"
    then port_round value rest o
    else if arg == codes "--server-address"
    then address_round value rest o
    else if arg == codes "--server-port"
    then server_port_round value rest o
    else plain_round arg (value ∷ rest) o

-- The loop, with fuel; `none` where it is used up.
unfoldable pub parse_from : ℕ → List Text → Options → Outcome (Option Parsed)
unfolding round
parse_from fuel [] o = ok (some (Parsed.start o))
parse_from zero (arg ∷ rest) o = ok none
parse_from (suc fuel) (arg ∷ rest) o = round arg rest o >>= λ r. elim r [
  | go left o' ↦ parse_from fuel left o'
  | stop parsed ↦ ok (some parsed)
]

-- On `argv` without the program's name. Each round takes an argument.
unfoldable pub parse : List Text → Outcome (Option Parsed)
unfolding parse_from
parse args = parse_from (length args) args default_options
