-- ===== src/Server/Dispatch/Defined.antt =====
-- Whatever bytes arrive, what the handler does is defined.
use verteilte_systeme_bbps.Prelude.{
  ℕ, ◌≡◌, refl, [], some, Text, ℤ, Outcome, ok, throws, undefined, ◌>>=◌, Gives, Gives-bind,
  IsDefined,
}
use verteilte_systeme_bbps.Std.Decimal.{stoi}
use verteilte_systeme_bbps.Std.Decimal.Defined.{stoi-IsDefined}
use verteilte_systeme_bbps.Protocol.Identifiers.{
  CommandIdentifiers, CommunicationParameters, parameter_eq,
}
use verteilte_systeme_bbps.Protocol.Json.{Json}
use verteilte_systeme_bbps.Protocol.Command.{Command, get_command_argument, deserialize}
use verteilte_systeme_bbps.Protocol.Response.{Response}
use verteilte_systeme_bbps.Server.Memory.{Ptr}
use verteilte_systeme_bbps.Server.State.{Server}
use verteilte_systeme_bbps.Server.Requests.{
  find_connection, handle_list_topics, handle_get_topic_status, handle_publish_request,
  handle_subscribe_request, handle_unsubscribe_request,
}
use verteilte_systeme_bbps.Server.Invariant.{Returns, Invariant}
use verteilte_systeme_bbps.Server.Invariant.Subscribing.{handle_subscribe_request-Invariant}
use verteilte_systeme_bbps.Server.Invariant.Requests.{
  handle_unsubscribe_request-Invariant, handle_publish_request-Invariant,
  handle_list_topics-Invariant, handle_get_topic_status-Invariant,
}
use verteilte_systeme_bbps.Server.Dispatch.{switch_command, catch_all, answer}
use verteilte_systeme_bbps.Protocol.Command.Defined.{
  IsTotal, IsShaped, get_command_argument-IsDefined, deserialize-IsShaped,
}

Gives-Returns :
    (P : Response → Server → Type 0) (o : Outcome (Response × Server))
    → Returns P o
    → Gives (λ q. P q.0 q.1) o
Gives-Returns P (ok (r, s)) h = h
Gives-Returns P (throws e) h = absurd h
Gives-Returns P undefined h = absurd h

-- What is returned, it is equal to.
Gives-and :
    {A : Type 0} (P : A → Type 0) (m : Outcome A) → Gives P m → Gives (λ a. P a × (m ≡ ok a)) m
Gives-and P (ok a) h = (h, refl)
Gives-and P (throws e) h = tt
Gives-and P undefined h = h

-- An answer with the invariant.
abbrev IsInvariant : Response × Server → Type 0
IsInvariant q = Invariant q.1

module _ (now later : ℕ) (ip : Text) (s : Server) (v : Invariant s) where
  -- The client that asks to unsubscribe has a connection.
  abbrev pub Known : Command → Type 0
  Known c =
      (port : ℤ)
      → c.command_identifier ≡ CommandIdentifiers.unsubscribe
      → (get_command_argument CommunicationParameters.client_port c >>= stoi) ≡ ok port
      → (p : Ptr) × (find_connection ip port s.client_connections ≡ some p)

  port_of-IsDefined :
      (c : Command)
      → IsShaped c
      → IsDefined (get_command_argument CommunicationParameters.client_port c >>= stoi)
  port_of-IsDefined c h =
      Gives-bind (λ _. Unit) (λ _. Unit)
        (get_command_argument CommunicationParameters.client_port c) stoi
        (get_command_argument-IsDefined CommunicationParameters.client_port c h)
        (λ t _. stoi-IsDefined t)

  switch_command-Gives :
      (c : Command) (id : CommandIdentifiers)
      → IsShaped c
      → c.command_identifier ≡ id
      → Known c
      → Gives IsInvariant (switch_command now later ip c id s)
  unfolding switch_command
  switch_command-Gives c CommandIdentifiers.subscribe h same known =
      Gives-bind (λ _. Unit) IsInvariant
        (get_command_argument CommunicationParameters.client_port c >>= stoi) _
        (port_of-IsDefined c h)
        λ port _.
          Gives-bind (λ _. Unit) IsInvariant
            (get_command_argument CommunicationParameters.topic_name c) _
            (get_command_argument-IsDefined CommunicationParameters.topic_name c h)
            λ name _.
              Gives-Returns _ (handle_subscribe_request now later ip port name s)
                (handle_subscribe_request-Invariant now later ip port name s v)
  switch_command-Gives c CommandIdentifiers.unsubscribe h same known =
      let port_sent = get_command_argument CommunicationParameters.client_port c >>= stoi in
      Gives-bind (λ port. Unit × (port_sent ≡ ok port)) IsInvariant port_sent _
        (Gives-and (λ _. Unit) port_sent (port_of-IsDefined c h))
        λ port (_, e).
          Gives-bind (λ _. Unit) IsInvariant
            (get_command_argument CommunicationParameters.topic_name c) _
            (get_command_argument-IsDefined CommunicationParameters.topic_name c h)
            λ name _.
              let (p, found) = known port same e in
              Gives-Returns _ (handle_unsubscribe_request ip port name s)
                (handle_unsubscribe_request-Invariant s v name ip port p found)
  switch_command-Gives c CommandIdentifiers.publish h same known =
      Gives-bind (λ _. Unit) IsInvariant (get_command_argument CommunicationParameters.topic_name c)
        _ (get_command_argument-IsDefined CommunicationParameters.topic_name c h)
        λ name _.
          Gives-bind (λ _. Unit) IsInvariant
            (get_command_argument CommunicationParameters.message c) _
            (get_command_argument-IsDefined CommunicationParameters.message c h)
            λ message _.
              Gives-Returns _ (handle_publish_request now later name message s)
                (handle_publish_request-Invariant s v name now later message)
  switch_command-Gives c CommandIdentifiers.list_topics h same known =
      Gives-Returns (λ r s'. Invariant s') (handle_list_topics s)
        (handle_list_topics-Invariant s v [])
  switch_command-Gives c CommandIdentifiers.get_topic_status h same known =
      Gives-bind (λ _. Unit) IsInvariant (get_command_argument CommunicationParameters.topic_name c)
        _ (get_command_argument-IsDefined CommunicationParameters.topic_name c h)
        λ name _.
          Gives-Returns _ (handle_get_topic_status name s)
            (handle_get_topic_status-Invariant s name v)
  switch_command-Gives c (CommandIdentifiers.unnamed n) h same known = v

  catch_all-Gives :
      (o : Outcome (Response × Server))
      → Gives IsInvariant o
      → (r : Response) × (s' : Server) × (catch_all s o ≡ ok (r, s')) × Invariant s'
  catch_all-Gives (ok (r, s')) h = (r, s', refl, h)
  catch_all-Gives (throws e) h = (_, s, refl, v)
  catch_all-Gives undefined h = absurd h

  -- Whatever bytes arrive, if the calls of the JSON library return or throw, the server's objects
  -- are in order, and the bytes are no unsubscribe request of a client without a connection: the
  -- handler's block comes to an answer without a fault, and the objects are in order again.
  pub answer-Known :
      (J : Json) (received : Text)
      → IsTotal J
      → ((c : Command) → deserialize J received ≡ ok c → Known c)
      → (r : Response) × (s' : Server) × (answer J now later ip received s ≡ ok (r, s'))
        × Invariant s'
  unfolding answer
  answer-Known J received total known =
      catch_all-Gives
        (deserialize J received >>= λ c. switch_command now later ip c c.command_identifier s)
        (Gives-bind (λ c. IsShaped c × (deserialize J received ≡ ok c)) IsInvariant
          (deserialize J received) _
          (Gives-and IsShaped (deserialize J received) (deserialize-IsShaped J total received))
          (λ c (h, e). switch_command-Gives c c.command_identifier h refl (known c e)))
