-- ===== src/Protocol/Response/Codec.antt =====
-- `Response::serialize` and `Response::deserialize`.
pub mod Answers
pub mod RoundTrip
use verteilte_systeme_bbps.Prelude.{
  List, [], ◌∷◌, none, some, Text, codes, Outcome, ok, throws, undefined, runtime_error, ◌>>=◌,
}
use verteilte_systeme_bbps.Protocol.Identifiers.{
  CommandIdentifiers, CommunicationParameters, int_of_statuscode, statuscode_of_int,
  communication_parameter_to_string,
}
use verteilte_systeme_bbps.Protocol.Json.{Json}
use verteilte_systeme_bbps.Protocol.Message.{catch_invalid_argument}
use verteilte_systeme_bbps.Protocol.Response.{
  Response, new_response, set_response_argument, set_status_code,
}

module _ (J : Json) where
  open J use {Value, null, of_text, of_int, assign, member, as_string, as_int, parse, write}

  -- The loop of `serialize`, over the arguments that are left.
  unfoldable pub response_members : List CommunicationParameters → List Text → Value → Value
  response_members (name ∷ names) (t ∷ ts) v =
      response_members names ts (assign v (communication_parameter_to_string name) (of_text t))
  response_members names ts v = v

  -- A status code that was never set is an indeterminate value.
  unfoldable pub serialize : Response → Outcome Text
  unfolding response_members
  serialize r = elim r.status_code [
    | none ↦ undefined
    | some code ↦
        let root = assign null (codes "statusCode") (of_int (int_of_statuscode code)) in
        ok (write (response_members r.available_response_arguments r.response_arguments root))
  ]

  -- The loop of `deserialize`, over the arguments that are left.
  unfoldable pub read_arguments : Value → List CommunicationParameters → Response → Outcome Response
  unfolding set_response_argument
  read_arguments root [] r = ok r
  read_arguments root (name ∷ names) r = do
    t ← member root (communication_parameter_to_string name) >>= as_string
    read_arguments root names (set_response_argument name t r).1

  -- The block under `try`.
  unfoldable pub response_of_value : CommandIdentifiers → Value → Outcome Response
  unfolding read_arguments statuscode_of_int set_status_code new_response
  response_of_value command root = do
    code ← member root (codes "statusCode") >>= as_int
    let r = set_status_code (statuscode_of_int code) (new_response command)
    read_arguments root r.available_response_arguments r

  unfoldable pub deserialize : CommandIdentifiers → Text → Outcome Response
  unfolding response_of_value
  deserialize command s = parse s >>= λ parsed. elim parsed [
    | none ↦ throws (runtime_error (codes "Failed to parse JSON"))
    | some root ↦
        catch_invalid_argument (runtime_error (codes "Invalid or missing arguments."))
          (response_of_value command root)
  ]
