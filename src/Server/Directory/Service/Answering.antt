-- ===== src/Server/Directory/Service/Answering.antt =====
-- Every request is answered as the directory's service answers it.
use verteilte_systeme_bbps.Prelude.{
  ℕ, ◌≡◌, refl, ◌≢◌, ◌⊎◌, ap, Option-cases, inl, inr, List, [], ◌∷◌, none, some, Text, ℤ, text_eq,
  nat_eq, Outcome, ok, throws, undefined, ◌>>=◌,
}
use verteilte_systeme_bbps.Std.Decimal.{stoi}
use verteilte_systeme_bbps.Protocol.Identifiers.{
  CommandIdentifiers, CommunicationParameters, Statuscode, parameter_eq,
}
use verteilte_systeme_bbps.Protocol.Json.{Json}
use verteilte_systeme_bbps.Protocol.Command.{Command, get_command_argument}
use verteilte_systeme_bbps.Protocol.Command
use verteilte_systeme_bbps.Protocol.Response.{Response, empty_response, set_status_code}
use verteilte_systeme_bbps.Server.Memory.{Ptr}
use verteilte_systeme_bbps.Server.State.{connection_eq, Server}
use verteilte_systeme_bbps.Server.Requests.{
  find_topic, find_connection, unsubscribe_pointers, handle_unsubscribe_request, handle_list_topics,
  handle_get_topic_status,
}
use verteilte_systeme_bbps.Server.Invariant.{Returns, Invariant}
use verteilte_systeme_bbps.Server.Invariant.Subscribing.{respond}
use verteilte_systeme_bbps.Server.Invariant.Leaving.{topics_left}
use verteilte_systeme_bbps.Server.Invariant.Unsubscribing.{
  unsubscribe_pointers_null, unsubscribe_pointers-none_left,
}
use verteilte_systeme_bbps.Server.Invariant.Requests.{find_topic-Found}
use verteilte_systeme_bbps.Server.Directory.{Directory, view, unsubscribe_first_spec}
use verteilte_systeme_bbps.Server.Directory.Views.{find_view-none, names_seen}
use verteilte_systeme_bbps.Server.Directory.Subscribing.{handle_subscribe_request_refines}
use verteilte_systeme_bbps.Server.Directory.Unsubscribing.{
  handle_unsubscribe_request_lem, unsubscribe_first_spec-left,
}
use verteilte_systeme_bbps.Server.Directory.Publishing.{
  handle_publish_request_refines, handle_get_topic_status-view,
}
use verteilte_systeme_bbps.Server.Directory.Service.{
  list_spec, status_spec, request_spec, answer_spec,
}
use verteilte_systeme_bbps.Server.Dispatch.{switch_command, catch_all, answer}

-- The directory's service returns the same answer and the directory of what the server is, or
-- throws the same. Where the server's behaviour is undefined, nothing is asked.
abbrev pub Refines : Outcome (Response × Server) → Outcome (Response × Directory) → Type 0
Refines (ok (r, s)) o = o ≡ ok (r, view s)
Refines (throws e) o = o ≡ throws e
Refines undefined o = Unit

Refines-bind {ℓ} :
    {A : Type ℓ} (m : Outcome A) (f : A → Outcome (Response × Server))
    (g : A → Outcome (Response × Directory))
    → ((a : A) → Refines (f a) (g a))
    → Refines (m >>= f) (m >>= g)
Refines-bind (ok a) f g h = h a
Refines-bind (throws e) f g h = refl
Refines-bind undefined f g h = tt

-- A handler that is known to return.
Refines-Returns :
    (id : CommandIdentifiers) (o : Outcome (Response × Server)) (status : Statuscode)
    (d : Directory)
    → Returns (λ r s. (r ≡ respond id status) × (view s ≡ d)) o
    → Refines o (ok (respond id status, d))
Refines-Returns id (ok (r, s)) status d (same, seen) = cc
Refines-Returns id (throws e) status d h = absurd h
Refines-Returns id undefined status d h = absurd h

nil-cases {ℓ} : {A : Type ℓ} (xs : List A) → (xs ≡ []) ⊎ (xs ≢ [])
nil-cases [] = inl refl
nil-cases (x ∷ xs) = inr (λ e. cc)

module _ (s : Server) (v : Invariant s) where
  null-Refines :
      (name : Text) (p : Ptr)
      → find_topic name s.topics ≡ some p
      → let (status, d) = unsubscribe_first_spec name (view s) in
        Refines
          (unsubscribe_pointers p none s)
          (ok (respond CommandIdentifiers.unsubscribe status, d))
  null-Refines name p e =
      let f = find_topic-Found s name p v e in
      elim (nil-cases (topics_left p f.topic f.rest s.topics)) [
        | inl gone ↦
            rw (unsubscribe_pointers-none_left s v p f.first f.rest f.topic f.there f.listed gone) (
              ap (λ a. ok (respond CommandIdentifiers.unsubscribe a.0, a.1))
                (unsubscribe_first_spec-left s v name p e))
        | inr left ↦
            rw (unsubscribe_pointers_null s v p f.first f.rest f.topic f.there f.listed left) tt
      ]

  unsubscribe-Refines :
      (address : Text) (port : ℤ) (name : Text)
      → let (status, d) = unsubscribe_first_spec name (view s) in
        Refines
          (handle_unsubscribe_request address port name s)
          (ok (respond CommandIdentifiers.unsubscribe status, d))
  unfolding handle_unsubscribe_request unsubscribe_first_spec
  unsubscribe-Refines address port name =
      elim (Option-cases (find_connection address port s.client_connections)) [
        | inr (q, known) ↦
            Refines-Returns CommandIdentifiers.unsubscribe
              (handle_unsubscribe_request address port name s) _ _
              (handle_unsubscribe_request_lem s v name address port q known)
        | inl unknown ↦ elim (Option-cases (find_topic name s.topics)) [
          | inl e ↦
              rw (find_view-none s.client_connections name s.topics e, unsubscribe_first_spec)
                (rw (e, handle_unsubscribe_request) refl)
          | inr (p, e) ↦ rw (e, handle_unsubscribe_request) (rw unknown (null-Refines name p e))
        ]
      ]

  list-Refines : Refines (handle_list_topics s) (ok (list_spec (view s), view s))
  unfolding handle_list_topics list_spec parameter_eq
  list-Refines = rw (names_seen s.client_connections s.topics) refl

  status-Refines :
      (name : Text)
      → Refines (handle_get_topic_status name s) (ok (status_spec name (view s), view s))
  unfolding status_spec
  status-Refines name = rw (handle_get_topic_status-view s v name) refl

  switch_command-Refines :
      (now later : ℕ) (ip : Text) (c : Command) (id : CommandIdentifiers)
      → Refines (switch_command now later ip c id s) (request_spec now ip c id (view s))
  unfolding switch_command request_spec
  switch_command-Refines now later ip c CommandIdentifiers.subscribe =
      Refines-bind (get_command_argument CommunicationParameters.client_port c >>= stoi) _ _ λ port.
        Refines-bind (get_command_argument CommunicationParameters.topic_name c) _ _ λ name.
          Refines-Returns CommandIdentifiers.subscribe _ _ _
            (handle_subscribe_request_refines now later ip port name s v)
  switch_command-Refines now later ip c CommandIdentifiers.unsubscribe =
      Refines-bind (get_command_argument CommunicationParameters.client_port c >>= stoi) _ _ λ port.
        Refines-bind (get_command_argument CommunicationParameters.topic_name c) _ _
          λ name. unsubscribe-Refines ip port name
  switch_command-Refines now later ip c CommandIdentifiers.publish =
      Refines-bind (get_command_argument CommunicationParameters.topic_name c) _ _ λ name.
        Refines-bind (get_command_argument CommunicationParameters.message c) _ _ λ message.
          Refines-Returns CommandIdentifiers.publish _ _ _
            (handle_publish_request_refines s v name now later message)
  switch_command-Refines now later ip c CommandIdentifiers.list_topics = list-Refines
  switch_command-Refines now later ip c CommandIdentifiers.get_topic_status =
      Refines-bind (get_command_argument CommunicationParameters.topic_name c) _ _
        λ name. status-Refines name
  switch_command-Refines now later ip c (CommandIdentifiers.unnamed n) = refl

  -- If the server's objects are in order, whatever bytes arrive, and an answer is returned, then
  -- the directory's service, which knows the directory alone, gives the same answer and the
  -- directory as it is afterwards.
  pub answer-answer_spec :
      (J : Json) (now later : ℕ) (ip received : Text) (r : Response) (s' : Server)
      → answer J now later ip received s ≡ ok (r, s')
      → answer_spec J now ip received (view s) ≡ ok (r, view s')
  unfolding answer answer_spec
  answer-answer_spec J now later ip received r s' e =
      catch_all-Refines
        (Command.deserialize J received >>= λ c.
          switch_command now later ip c c.command_identifier s)
        _
        (Refines-bind (Command.deserialize J received) _ _
          λ c. switch_command-Refines now later ip c c.command_identifier)
        e
    where
      catch_all-Refines :
          (o : Outcome (Response × Server)) (o' : Outcome (Response × Directory))
          → Refines o o'
          → catch_all s o ≡ ok (r, s')
          → elim o' [
            | ok a ↦ ok a
            | throws x ↦ ok (set_status_code Statuscode.internal_error empty_response, view s)
            | undefined ↦ undefined
          ]
            ≡ ok (r, view s')
      catch_all-Refines (ok (q, t)) o' h k = rw h cc
      catch_all-Refines (throws x) o' h k = rw h cc
      catch_all-Refines undefined o' h k = cc
