-- ===== src/Protocol/Command.antt =====
-- command.h and command.cpp: what the client asks.
pub mod Documents
pub mod RoundTrip
pub mod UnknownKeys
pub mod Defined
pub mod Reading
use verteilte_systeme_bbps.Prelude.{
  ℕ, ◌≡◌, Bool, true, false, ◌&&◌, not, List, [], ◌∷◌, map, Option, none, some, Text, codes,
  get_elem?, set, ◌==◌, text_eq, contains, if◌then◌else◌, Outcome, ok, throws, undefined,
  runtime_error, ◌>>=◌, ℤ,
}
use verteilte_systeme_bbps.Protocol.Identifiers.{
  CommandIdentifiers, CommunicationParameters, parameter_eq, command_of_int, int_of_command,
  communication_parameter_to_string, string_to_communication_parameter,
}
use verteilte_systeme_bbps.Protocol.Response.{index_of}
use verteilte_systeme_bbps.Protocol.Json.{Json}

pub record Command : Type 0 where
  pub command_identifier : CommandIdentifiers
  pub available_command_arguments : List CommunicationParameters
  pub command_arguments : List Text

-- `commandDictionary[commandIdentifier]`: an identifier that is not there gets the empty vector.
unfoldable pub command_dictionary : CommandIdentifiers → List CommunicationParameters
command_dictionary CommandIdentifiers.subscribe =
    CommunicationParameters.topic_name ∷ CommunicationParameters.client_port ∷ []
command_dictionary CommandIdentifiers.unsubscribe =
    CommunicationParameters.topic_name ∷ CommunicationParameters.client_port ∷ []
command_dictionary CommandIdentifiers.publish =
    CommunicationParameters.topic_name ∷ CommunicationParameters.message ∷ []
command_dictionary CommandIdentifiers.list_topics = []
command_dictionary CommandIdentifiers.get_topic_status = CommunicationParameters.topic_name ∷ []
command_dictionary (CommandIdentifiers.unnamed n) = []

-- `Command(commandIdentifier)`
unfoldable pub new_command : CommandIdentifiers → Command
unfolding command_dictionary
new_command command = record {
  command_identifier = command;
  available_command_arguments = command_dictionary command;
  command_arguments = map (λ _. []) (command_dictionary command);
}

unfoldable pub set_command_argument : CommunicationParameters → Text → Command → Bool × Command
unfolding index_of
set_command_argument name argument c =
    if contains c.available_command_arguments name
    then (
      true,
      record c {
        command_arguments =
            set c.command_arguments (index_of name c.available_command_arguments) argument;
      },
    )
    else (false, c)

unfoldable pub get_command_argument : CommunicationParameters → Command → Outcome Text
unfolding index_of
get_command_argument name c =
    if contains c.available_command_arguments name
    then elim (get_elem? c.command_arguments (index_of name c.available_command_arguments)) [
      | none ↦ undefined
      | some t ↦ ok t
    ]
    else throws (runtime_error (codes "Command argument does not exist"))

-- The loop of `isValid`.
unfoldable pub all_set : List Text → Bool
all_set [] = true
all_set (t ∷ ts) = if t == [] then false else all_set ts

unfoldable pub is_valid : Command → Bool
unfolding all_set
is_valid c = all_set c.command_arguments

module _ (J : Json) where
  open J use {
    Value, null, of_text, of_int, assign, is_member, member, member_names, as_string, as_int, parse,
    write,
  }

  -- The loop of `serialize`, over the arguments that are left.
  unfoldable pub argument_object : List CommunicationParameters → List Text → Value → Value
  argument_object (name ∷ names) (t ∷ ts) v =
      argument_object names ts (assign v (communication_parameter_to_string name) (of_text t))
  argument_object names ts v = v

  unfoldable pub serialize : Command → Outcome Text
  unfolding is_valid argument_object
  serialize c =
      if is_valid c
      then (let root =
            assign null (codes "command") (of_int (int_of_command c.command_identifier)) in
          let arguments = argument_object c.available_command_arguments c.command_arguments null in
          ok (write (assign root (codes "arguments") arguments)))
      else throws (runtime_error (codes "Not all arguments are set"))

  -- The loop of `deserialize`, over the keys that are left.
  unfoldable pub set_arguments : Value → List Text → Command → Outcome Command
  unfolding set_command_argument string_to_communication_parameter
  set_arguments arguments [] c = ok c
  set_arguments arguments (key ∷ keys) c = do
    t ← member arguments key >>= as_string
    let (done, c') = set_command_argument (string_to_communication_parameter key) t c
    if done
        then set_arguments arguments keys c'
        else throws (runtime_error (codes "Failed to set command argument"))

  -- From the parsed value on.
  unfoldable pub command_of_value : Value → Outcome Command
  unfolding set_arguments is_valid command_of_int new_command
  command_of_value root = do
    has_command ← is_member root (codes "command")
    complete ← if has_command then is_member root (codes "arguments") else ok false
    if complete
        then (do
          identifier ← member root (codes "command")
          n ← as_int identifier
          arguments ← member root (codes "arguments")
          keys ← member_names arguments
          c ← set_arguments arguments keys (new_command (command_of_int n))
          if is_valid c
              then ok c
              else throws
                  (runtime_error (codes "Command is not valid, there are missing arguments.")))
        else throws (runtime_error (codes "Command does not have all required values"))

  unfoldable pub deserialize : Text → Outcome Command
  unfolding command_of_value
  deserialize s = parse s >>= λ parsed. elim parsed [
    | none ↦ throws (runtime_error (codes "Failed to parse JSON command"))
    | some root ↦ command_of_value root
  ]
