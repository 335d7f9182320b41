-- ===== src/Protocol/Identifiers.antt =====
-- commandIdentifiers.h, statuscode.h and communicationParameters.h. The code casts integers that it
-- has received to the enumerations; a value with no name is kept as `unnamed`.
use verteilte_systeme_bbps.Prelude.{
  ℤ, pos, negsuc, Text, codes, Eq, nat_eq, text_eq, ◌==◌, if◌then◌else◌,
}

pub data CommandIdentifiers : Type 0 where
  subscribe unsubscribe publish list_topics get_topic_status : CommandIdentifiers
  unnamed : ℤ → CommandIdentifiers

pub data Statuscode : Type 0 where
  success failed invalid_parameter internal_error : Statuscode
  unnamed : ℤ → Statuscode

pub data CommunicationParameters : Type 0 where
  topic_name client_port message topics message_timestamp subscribers : CommunicationParameters

CommunicationParameters-discrete : Discrete CommunicationParameters
CommunicationParameters-discrete = hlevel

instance unfoldable pub parameter_eq : Eq CommunicationParameters
unfolding CommunicationParameters-discrete
parameter_eq = record { dec = CommunicationParameters-discrete }

-- `static_cast<CommandIdentifiers>(int)`
unfoldable pub command_of_int : ℤ → CommandIdentifiers
command_of_int (pos n) =
    if n == 0
    then CommandIdentifiers.subscribe
    else if n == 1
    then CommandIdentifiers.unsubscribe
    else if n == 2
    then CommandIdentifiers.publish
    else if n == 3
    then CommandIdentifiers.list_topics
    else if n == 4
    then CommandIdentifiers.get_topic_status
    else CommandIdentifiers.unnamed (pos n)
command_of_int (negsuc n) = CommandIdentifiers.unnamed (negsuc n)

-- `static_cast<int>(commandIdentifier)`
unfoldable pub int_of_command : CommandIdentifiers → ℤ
int_of_command CommandIdentifiers.subscribe = pos 0
int_of_command CommandIdentifiers.unsubscribe = pos 1
int_of_command CommandIdentifiers.publish = pos 2
int_of_command CommandIdentifiers.list_topics = pos 3
int_of_command CommandIdentifiers.get_topic_status = pos 4
int_of_command (CommandIdentifiers.unnamed n) = n

unfoldable pub statuscode_of_int : ℤ → Statuscode
statuscode_of_int (pos n) =
    if n == 0
    then Statuscode.success
    else if n == 1
    then Statuscode.failed
    else if n == 2
    then Statuscode.invalid_parameter
    else if n == 3
    then Statuscode.internal_error
    else Statuscode.unnamed (pos n)
statuscode_of_int (negsuc n) = Statuscode.unnamed (negsuc n)

unfoldable pub int_of_statuscode : Statuscode → ℤ
int_of_statuscode Statuscode.success = pos 0
int_of_statuscode Statuscode.failed = pos 1
int_of_statuscode Statuscode.invalid_parameter = pos 2
int_of_statuscode Statuscode.internal_error = pos 3
int_of_statuscode (Statuscode.unnamed n) = n

unfoldable pub communication_parameter_to_string : CommunicationParameters → Text
communication_parameter_to_string CommunicationParameters.topic_name = codes "topicName"
communication_parameter_to_string CommunicationParameters.client_port = codes "clientPort"
communication_parameter_to_string CommunicationParameters.message = codes "message"
communication_parameter_to_string CommunicationParameters.topics = codes "topics"
communication_parameter_to_string CommunicationParameters.message_timestamp =
    codes "messageTimestamp"
communication_parameter_to_string CommunicationParameters.subscribers = codes "subscribers"

-- `operator[]` of the map: a name that is not there gets the enumeration's value 0, `topicName`.
unfoldable pub string_to_communication_parameter : Text → CommunicationParameters
string_to_communication_parameter s =
    if s == codes "clientPort"
    then CommunicationParameters.client_port
    else if s == codes "message"
    then CommunicationParameters.message
    else if s == codes "topics"
    then CommunicationParameters.topics
    else if s == codes "messageTimestamp"
    then CommunicationParameters.message_timestamp
    else if s == codes "subscribers"
    then CommunicationParameters.subscribers
    else CommunicationParameters.topic_name
