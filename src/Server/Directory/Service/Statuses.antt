-- ===== src/Server/Directory/Service/Statuses.antt =====
-- Every answer to a command that has a name has a status code, and can be written.
use verteilte_systeme_bbps.Prelude.{
  ℕ, ◌≡◌, ◌≢◌, refl, subst, bind-ok, ok-injective, undefined-ne-ok, Option-cases, Option, none, inl,
  inr, some, Text, ℤ, Outcome, ok, throws, undefined, ◌>>=◌,
}
use verteilte_systeme_bbps.Std.Decimal.{stoi}
use verteilte_systeme_bbps.Protocol.Identifiers.{
  CommandIdentifiers, CommunicationParameters, Statuscode, parameter_eq,
}
use verteilte_systeme_bbps.Protocol.Json.{Json}
use verteilte_systeme_bbps.Protocol.Command.{Command, get_command_argument}
use verteilte_systeme_bbps.Protocol.Command
use verteilte_systeme_bbps.Protocol.Response.{
  Response, empty_response, new_response, set_status_code, set_response_argument,
  set_response_argument_uint64, set_response_argument_vector, response_dictionary, index_of,
}
use verteilte_systeme_bbps.Protocol.Response.Codec
use verteilte_systeme_bbps.Server.Requests.{topic_status_response}
use verteilte_systeme_bbps.Server.Invariant.Subscribing.{respond}
use verteilte_systeme_bbps.Server.Directory.{Directory, find_view}
use verteilte_systeme_bbps.Server.Directory.Service.{
  list_spec, status_spec, request_spec, answer_spec,
}

abbrev pub HasStatus : Response → Type 0
HasStatus r = (code : Statuscode) × (r.status_code ≡ some code)

set_or_undefined :
    (o : Option Statuscode) (code : Statuscode) (f : Statuscode → Text)
    → o ≡ some code
    → (text : Text) × (elim o as (λ _. Outcome Text) [ none ↦ undefined | some c ↦ ok (f c) ]
        ≡ ok text)
set_or_undefined none code f e = cc
set_or_undefined (some c) code f e = (f c, refl)

pub serialize-HasStatus :
    (J : Json) (r : Response) (code : Statuscode)
    → r.status_code ≡ some code
    → (text : Text) × (Codec.serialize J r ≡ ok text)
unfolding Codec.serialize
serialize-HasStatus J r code e = set_or_undefined r.status_code code _ e

respond-HasStatus : (id : CommandIdentifiers) (status : Statuscode) → HasStatus (respond id status)
unfolding set_status_code
respond-HasStatus id status = (status, refl)

status_spec-HasStatus : (name : Text) (d : Directory) → HasStatus (status_spec name d)
unfolding status_spec topic_status_response set_response_argument_uint64
    set_response_argument_vector set_response_argument set_status_code new_response
    response_dictionary index_of parameter_eq
status_spec-HasStatus name d = elim (Option-cases (find_view name d)) [
  | inl e ↦ rw (e, status_spec) (Statuscode.invalid_parameter, refl)
  | inr (t, e) ↦ rw (e, status_spec) (Statuscode.success, refl)
]

-- What a returned answer is.
same-HasStatus :
    (r r' : Response) (d d' : Directory)
    → ◌≡◌ {A = Outcome (Response × Directory)} (ok (r, d)) (ok (r', d'))
    → HasStatus r
    → HasStatus r'
same-HasStatus r r' d d' e h =
    let p : Response × Directory = (r, d) in
    let p' : Response × Directory = (r', d') in
    subst (λ (q : Response × Directory). HasStatus q.0) (ok-injective p p' e) h

request_spec-HasStatus :
    (now : ℕ) (ip : Text) (c : Command) (id : CommandIdentifiers) (d d' : Directory) (r : Response)
    → ((n : ℤ) → id ≢ CommandIdentifiers.unnamed n)
    → request_spec now ip c id d ≡ ok (r, d')
    → HasStatus r
unfolding request_spec list_spec
request_spec-HasStatus now ip c CommandIdentifiers.subscribe d d' r named h =
    let (port, _, f) =
      bind-ok (get_command_argument CommunicationParameters.client_port c >>= stoi) _ (r, d') h in
    let (name, _, g) =
      bind-ok (get_command_argument CommunicationParameters.topic_name c) _ (r, d') f in
    same-HasStatus _ r _ d' g (respond-HasStatus CommandIdentifiers.subscribe _)
request_spec-HasStatus now ip c CommandIdentifiers.unsubscribe d d' r named h =
    let (port, _, f) =
      bind-ok (get_command_argument CommunicationParameters.client_port c >>= stoi) _ (r, d') h in
    let (name, _, g) =
      bind-ok (get_command_argument CommunicationParameters.topic_name c) _ (r, d') f in
    same-HasStatus _ r _ d' g (respond-HasStatus CommandIdentifiers.unsubscribe _)
request_spec-HasStatus now ip c CommandIdentifiers.publish d d' r named h =
    let (name, _, f) =
      bind-ok (get_command_argument CommunicationParameters.topic_name c) _ (r, d') h in
    let (message, _, g) =
      bind-ok (get_command_argument CommunicationParameters.message c) _ (r, d') f in
    same-HasStatus _ r _ d' g (respond-HasStatus CommandIdentifiers.publish _)
request_spec-HasStatus now ip c CommandIdentifiers.list_topics d d' r named h =
    same-HasStatus _ r _ d' h (Statuscode.success, refl)
request_spec-HasStatus now ip c CommandIdentifiers.get_topic_status d d' r named h =
    let (name, _, g) =
      bind-ok (get_command_argument CommunicationParameters.topic_name c) _ (r, d') h in
    same-HasStatus _ r _ d' g (status_spec-HasStatus name d)
request_spec-HasStatus now ip c (CommandIdentifiers.unnamed n) d d' r named h =
    absurd (named n refl)

caught-HasStatus :
    (o : Outcome (Response × Directory)) (d d' : Directory) (r : Response)
    → ((r' : Response) → (e' : Directory) → o ≡ ok (r', e') → HasStatus r')
    → elim o [
      | ok p ↦ ok p
      | throws e ↦ ok (set_status_code Statuscode.internal_error empty_response, d)
      | undefined ↦ undefined
    ]
      ≡ ok (r, d')
    → HasStatus r
unfolding set_status_code
caught-HasStatus (ok (r', e')) d d' r h e = same-HasStatus r' r e' d' e (h r' e' refl)
caught-HasStatus (throws x) d d' r h e = same-HasStatus _ r d d' e (Statuscode.internal_error, refl)
caught-HasStatus undefined d d' r h e = absurd (undefined-ne-ok (r, d') e)

pub answer_spec-HasStatus :
    (J : Json) (now : ℕ) (ip bytes : Text) (d d' : Directory) (r : Response)
    → ((c : Command)
        → Command.deserialize J bytes ≡ ok c
        → (n : ℤ) → c.command_identifier ≢ CommandIdentifiers.unnamed n)
    → answer_spec J now ip bytes d ≡ ok (r, d')
    → HasStatus r
unfolding answer_spec
answer_spec-HasStatus J now ip bytes d d' r named h =
    caught-HasStatus
      (Command.deserialize J bytes >>= λ c. request_spec now ip c c.command_identifier d) d d' r
      (λ r' e' f.
        let (c, read, g) = bind-ok (Command.deserialize J bytes) _ (r', e') f in
        request_spec-HasStatus now ip c c.command_identifier d e' r' (named c read) g)
      h
