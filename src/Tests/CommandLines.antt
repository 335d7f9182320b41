-- ===== src/Tests/CommandLines.antt =====
-- The arguments of both programs, at concrete inputs.
use verteilte_systeme_bbps.Prelude.{
  ◌≡◌, ◌≢◌, ◌↔◌, refl, true, inl, List, [], ◌∷◌, ◌++◌, none, some, All, Text, codes, pos, negsuc,
  length, nat_eq, text_eq, ok, undefined, arith,
}
use verteilte_systeme_bbps.Std.Decimal.{stoi, to_string}
use verteilte_systeme_bbps.Std.Getline.{split_tokens}
use verteilte_systeme_bbps.Client.Address.{get_port_number, is_valid_ipv4_address}
use verteilte_systeme_bbps.Client.Address.Ports.{get_port_number-to_string_ℕ}
use verteilte_systeme_bbps.Client.Address.Octets.{
  IsOctet, IsOpen, is_valid_ipv4_address_lem, is_valid_ipv4_address-dotted,
}
use verteilte_systeme_bbps.Client.Arguments
use verteilte_systeme_bbps.Client.Arguments.Rounds.{IsSound}
use verteilte_systeme_bbps.Client.Arguments.Soundness.{parse_ends, parse-IsSound}
use verteilte_systeme_bbps.Client.Arguments.Commands.{with_topics, parse-subscribe, parse-dash}
use verteilte_systeme_bbps.Server.CommandLine
use verteilte_systeme_bbps.Server.CommandLine.Settings.{
  IsPort, parse-IsPort, parse_missing, parse_settings,
}

port_read : get_port_number (codes "65536") ≡ ok (negsuc 0)
unfolding to_string
port_read = get_port_number-to_string_ℕ 65536

is_valid_ipv4_address_lem_example : (is_valid_ipv4_address (codes "10.0.0.300") ≡ ok true) ↔ (
    IsOpen (codes "10.0.0.300")
    × (length (split_tokens b'.' (codes "10.0.0.300")) ≡ 4)
    × All IsOctet (split_tokens b'.' (codes "10.0.0.300")))
is_valid_ipv4_address_lem_example = is_valid_ipv4_address_lem (codes "10.0.0.300")

address_read : is_valid_ipv4_address (codes "192.168.0.1") ≡ ok true
unfolding to_string
address_read =
    is_valid_ipv4_address-dotted 192 168 0 1
      (omega arith, (omega arith, (omega arith, (omega arith, tt))))

abbrev subscribe_arguments : List Text
subscribe_arguments = codes "--subscribe" ∷ codes "news" ∷ codes "sport" ∷ []

parse_has_fuel : Arguments.parse subscribe_arguments ≢ ok none
parse_has_fuel = parse_ends subscribe_arguments

topics_read :
    Arguments.parse subscribe_arguments
    ≡ ok (
        some (
          Arguments.Parsed.start
            (with_topics true (codes "--subscribe") (codes "news" ∷ codes "sport" ∷ []))))
unfolding Arguments.is_topic_argument nat_eq
topics_read = parse-subscribe (codes "news") (codes "sport" ∷ []) (refl, (refl, tt))

parse-IsSound_example :
    IsSound (with_topics true (codes "--subscribe") (codes "news" ∷ codes "sport" ∷ []))
unfolding Arguments.is_topic_argument nat_eq
parse-IsSound_example =
    parse-IsSound subscribe_arguments _
      (parse-subscribe (codes "news") (codes "sport" ∷ []) (refl, (refl, tt)))

parse-dash_example :
    Arguments.parse (codes "--subscribe" ∷ codes "e-mail" ∷ []) ≡ ok (some Arguments.Parsed.refused)
parse-dash_example = parse-dash b'e' (codes "mail") [] (λ e. omega arith)

abbrev settings : List Text
settings = codes "--port" ∷ codes "9000" ∷ codes "--topic-timeout" ∷ codes "60" ∷ []

settings_read :
    CommandLine.parse settings
    ≡ ok (CommandLine.Parsed.start (record { port = pos 9000; topic_timeout = pos 60 }))
unfolding to_string
settings_read = parse_settings 9000 (pos 60) 60 (omega arith) (inl refl) (omega arith)

settings-start :
    CommandLine.parse settings
    ≡ ok (CommandLine.Parsed.start (record { port = pos 9000; topic_timeout = pos 60 }))
unfolding CommandLine.parse CommandLine.parse_from CommandLine.word_of stoi text_eq nat_eq
settings-start = refl

settings-IsPort : IsPort (pos 9000)
settings-IsPort = parse-IsPort settings _ settings-start

parse_missing_example :
    (CommandLine.parse (settings ++ codes "--port" ∷ []) ≡ undefined)
    × (CommandLine.parse (settings ++ codes "--topic-timeout" ∷ []) ≡ undefined)
parse_missing_example = parse_missing settings _ settings-start
