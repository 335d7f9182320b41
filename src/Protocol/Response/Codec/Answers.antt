-- ===== src/Protocol/Response/Codec/Answers.antt =====
-- The responses that the server makes.
use verteilte_systeme_bbps.Prelude.{
  ℕ, ◌<◌, ◌^◌, ◌≡◌, refl, List, [], ◌∷◌, some, Text, text_eq, nat_eq, pos, arith,
}
use verteilte_systeme_bbps.Protocol.Identifiers.{
  CommandIdentifiers, Statuscode, parameter_eq, statuscode_of_int, int_of_statuscode,
}
use verteilte_systeme_bbps.Protocol.Response.{Response, response_dictionary}

-- A response to the command with that status and those texts for its arguments.
abbrev pub answered : CommandIdentifiers → Statuscode → List Text → Response
answered id code texts = record {
  status_code = some code;
  available_response_arguments = response_dictionary id;
  response_arguments = texts;
}

-- A command, and texts for the arguments of its response.
pub data IsAnswer : CommandIdentifiers → List Text → Type 0 where
  subscribe_answer : IsAnswer CommandIdentifiers.subscribe []
  unsubscribe_answer : IsAnswer CommandIdentifiers.unsubscribe []
  publish_answer : IsAnswer CommandIdentifiers.publish []
  list_topics_answer : (a : Text) → IsAnswer CommandIdentifiers.list_topics (a ∷ [])
  get_topic_status_answer : (a b : Text) → IsAnswer CommandIdentifiers.get_topic_status (a ∷ b ∷ [])

-- The status codes that have a name, with their numbers.
pub data IsNamed : Statuscode → ℕ → Type 0 where
  success_named : IsNamed Statuscode.success 0
  failed_named : IsNamed Statuscode.failed 1
  invalid_parameter_named : IsNamed Statuscode.invalid_parameter 2
  internal_error_named : IsNamed Statuscode.internal_error 3

pub named-int : {code : Statuscode} {k : ℕ} → IsNamed code k → int_of_statuscode code ≡ pos k
unfolding int_of_statuscode
named-int success_named = refl
named-int failed_named = refl
named-int invalid_parameter_named = refl
named-int internal_error_named = refl

pub int-named : {code : Statuscode} {k : ℕ} → IsNamed code k → statuscode_of_int (pos k) ≡ code
unfolding statuscode_of_int nat_eq
int-named success_named = refl
int-named failed_named = refl
int-named invalid_parameter_named = refl
int-named internal_error_named = refl

pub named-lt : {code : Statuscode} {k : ℕ} → IsNamed code k → k < 2 ^ 31
named-lt success_named = omega arith
named-lt failed_named = omega arith
named-lt invalid_parameter_named = omega arith
named-lt internal_error_named = omega arith
