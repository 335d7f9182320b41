-- ===== src/Client/Log.antt =====
-- `Client::logResponse`: the text that the client writes for a response.
pub mod Listing
use verteilte_systeme_bbps.Prelude.{
  Option, length, ltb, Bool, true, false, List, [], ◌∷◌, ◌++◌, none, some, Text, codes, ℤ, text_eq,
  ◌==◌, if◌then◌else◌, Outcome, ok, undefined, ◌>>=◌,
}
use verteilte_systeme_bbps.Std.Decimal.{to_string, stoll}
use verteilte_systeme_bbps.Protocol.Identifiers.{
  CommunicationParameters, Statuscode, communication_parameter_to_string, int_of_statuscode,
}
use verteilte_systeme_bbps.Protocol.Response.{Response, get_response_argument}
use verteilte_systeme_bbps.Protocol.ArrayStrings.{array_string_to_vector_string}

-- A line of the log, at its level.
pub data Logged : Type 0 where
  info error : Text → Logged

unfoldable pub status_text : Statuscode → Text
unfolding int_of_statuscode to_string
status_text Statuscode.success = codes "Success"
status_text Statuscode.failed = codes "Failed"
status_text Statuscode.invalid_parameter = codes "Invalid Parameter"
status_text Statuscode.internal_error = codes "Internal Error"
status_text (Statuscode.unnamed n) = codes "Unknown status code: " ++ to_string n

unfoldable pub is_success : Statuscode → Bool
is_success Statuscode.success = true
is_success Statuscode.failed = false
is_success Statuscode.invalid_parameter = false
is_success Statuscode.internal_error = false
is_success (Statuscode.unnamed n) = false

-- `v.back()` of a vector that has elements
unfoldable pub back : Text → List Text → Text
back t [] = t
back t (u ∷ us) = back u us

-- The loops over the topics and over the subscribers: a comma follows each element that differs from
-- the last one.
unfoldable pub listed : Text → List Text → Text
listed last [] = []
listed last (t ∷ ts) = t ++ ((if t == last then [] else codes ", ") ++ listed last ts)

unfoldable pub listing : List Text → Text
unfolding back listed
listing [] = []
listing (t ∷ ts) = listed (back t ts) (t ∷ ts)

-- `strftime` into `char formattedTimestamp[21]`, of the whole text that it makes of the result of
-- `localtime`; `none` where `localtime` gives the null pointer. A text that does not fit with the
-- zero behind it leaves the array indeterminate.
unfoldable pub formatted_timestamp : Option Text → Outcome Text
formatted_timestamp none = undefined
formatted_timestamp (some t) = elim (ltb (length t) 21) [ true ↦ ok t | false ↦ undefined ]

-- `format_time` is the whole text of `strftime` on `localtime`, if that is not null.
module _ (format_time : ℤ → Option Text) where
  -- The `switch` of the loop: what is added for a parameter with that value.
  unfoldable pub parameter_text : CommunicationParameters → Text → Outcome Text
  unfolding array_string_to_vector_string listing stoll formatted_timestamp
      communication_parameter_to_string
  parameter_text CommunicationParameters.topics value = do
    topics ← array_string_to_vector_string value
    ok (codes "\nTopics: " ++ listing topics)
  parameter_text CommunicationParameters.message_timestamp value = do
    timestamp ← stoll value
    text ← formatted_timestamp (format_time timestamp)
    ok (codes "\nMessage-Timestamp: " ++ text)
  parameter_text CommunicationParameters.subscribers value = do
    subscribers ← array_string_to_vector_string value
    ok (codes "\nSubscribers: " ++ listing subscribers)
  parameter_text parameter value =
      ok (codes "\n" ++ (communication_parameter_to_string parameter ++ (codes ": " ++ value)))

  -- The loop over the parameters that are left.
  unfoldable pub parameters_text : List CommunicationParameters → Response → Outcome Text
  unfolding parameter_text get_response_argument
  parameters_text [] response = ok []
  parameters_text (parameter ∷ parameters) response = do
    value ← get_response_argument parameter response
    first ← parameter_text parameter value
    rest ← parameters_text parameters response
    ok (first ++ rest)

  unfoldable pub log_response : Text → Text → Response → Outcome Logged
  unfolding parameters_text status_text is_success
  log_response sender_ip sender_port response = elim response.status_code [
    | none ↦ undefined
    | some code ↦
        let head =
          codes "Received response from: "
          ++ (sender_ip ++ (codes ":" ++ (sender_port ++ codes "\n"))) in
        let log_string = head ++ (codes "Status: " ++ status_text code) in
        elim (is_success code) [
          | false ↦ ok (Logged.error log_string)
          | true ↦ parameters_text response.available_response_arguments response >>= λ parameters.
              ok (Logged.info (log_string ++ parameters))
        ]
  ]
