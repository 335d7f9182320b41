-- ===== src/Protocol/Response.antt =====
-- response.h and response.cpp: what the server answers. JSON is in Protocol/Codec.
pub mod Codec
use verteilte_systeme_bbps.Prelude.{
  ℕ, suc, ◌+◌, ◌-◌, ◌%◌, ◌^◌, ◌≡◌, refl, Bool, true, false, List, [], ◌∷◌, ◌++◌, map, Option, none,
  some, Text, codes, length, get_elem?, set, Eq, ◌==◌, contains, if◌then◌else◌, Outcome, ok, throws,
  undefined, runtime_error,
}
use verteilte_systeme_bbps.Std.Decimal.{to_string_ℕ}
use verteilte_systeme_bbps.Protocol.Identifiers.{
  CommandIdentifiers, CommunicationParameters, parameter_eq, Statuscode,
}

-- A status code that no call has set is `none`: the constructors leave it uninitialised.
pub record Response : Type 0 where
  pub status_code : Option Statuscode
  pub available_response_arguments : List CommunicationParameters
  pub response_arguments : List Text

-- `responseDictionary[commandIdentifier]`: an identifier that is not there gets the empty vector.
unfoldable pub response_dictionary : CommandIdentifiers → List CommunicationParameters
response_dictionary CommandIdentifiers.list_topics = CommunicationParameters.topics ∷ []
response_dictionary CommandIdentifiers.get_topic_status =
    CommunicationParameters.message_timestamp ∷ CommunicationParameters.subscribers ∷ []
response_dictionary _ = []

-- `Response()`
unfoldable pub empty_response : Response
empty_response = record {
  status_code = none;
  available_response_arguments = [];
  response_arguments = [];
}

-- `Response(commandIdentifier)`
unfoldable pub new_response : CommandIdentifiers → Response
unfolding response_dictionary
new_response command = record {
  status_code = none;
  available_response_arguments = response_dictionary command;
  response_arguments = map (λ _. []) (response_dictionary command);
}

-- `distance(begin, find(begin, end, argumentName))`
unfoldable pub index_of : CommunicationParameters → List CommunicationParameters → ℕ
index_of name [] = 0
index_of name (x ∷ xs) = if x == name then 0 else suc (index_of name xs)

unfoldable pub set_response_argument : CommunicationParameters → Text → Response → Bool × Response
unfolding index_of
set_response_argument name argument r =
    if contains r.available_response_arguments name
    then (
      true,
      record r {
        response_arguments =
            set r.response_arguments (index_of name r.available_response_arguments) argument;
      },
    )
    else (false, r)

-- The loop of the overload for `vector<string>`, from the first `[` on.
unfoldable pub join_elements : List Text → Text
join_elements [] = []
join_elements (x ∷ []) = x
join_elements (x ∷ y ∷ rest) = x ++ b',' ∷ join_elements (y ∷ rest)

unfoldable pub vector_to_array_string : List Text → Text
unfolding join_elements
vector_to_array_string xs = b'[' ∷ (join_elements xs ++ b']' ∷ [])

unfoldable pub set_response_argument_vector :
    CommunicationParameters → List Text → Response → Bool × Response
unfolding vector_to_array_string set_response_argument
set_response_argument_vector name xs r = set_response_argument name (vector_to_array_string xs) r

unfoldable pub set_response_argument_uint64 :
    CommunicationParameters → ℕ → Response → Bool × Response
unfolding set_response_argument
set_response_argument_uint64 name n r = set_response_argument name (to_string_ℕ n) r

unfoldable pub get_response_argument : CommunicationParameters → Response → Outcome Text
unfolding index_of
get_response_argument name r =
    if contains r.available_response_arguments name
    then elim (get_elem? r.response_arguments (index_of name r.available_response_arguments)) [
      | none ↦ undefined
      | some t ↦ ok t
    ]
    else throws (runtime_error (codes "Response argument does not exist"))

unfoldable pub set_status_code : Statuscode → Response → Response
set_status_code s r = record r { status_code = some s }
