-- ===== src/Server/Threads/Safety.antt =====
-- What holds in every state that the server can come to.
use verteilte_systeme_bbps.Prelude.{
  ℕ, ◌≤◌, ◌≡◌, ◌≢◌, refl, subst, sym, Option-cases, ap, ◌∙◌, ◌⊎◌, inl, inr, List, [], ◌∷◌, none,
  some, Text, ℤ, length, Outcome, ok, throws, undefined, ◌>>=◌, arith,
}
use verteilte_systeme_bbps.Std.Decimal.{stoi}
use verteilte_systeme_bbps.Protocol.Identifiers.{CommandIdentifiers, CommunicationParameters}
use verteilte_systeme_bbps.Protocol.Json.{Json}
use verteilte_systeme_bbps.Protocol.Command.{Command, get_command_argument}
use verteilte_systeme_bbps.Protocol.Command
use verteilte_systeme_bbps.Protocol.Response.{Response}
use verteilte_systeme_bbps.Server.Memory.{Ptr}
use verteilte_systeme_bbps.Server.State.{Server}
use verteilte_systeme_bbps.Server.Requests.{
  find_topic, find_connection, unsubscribe_pointers, handle_unsubscribe_request, handle_list_topics,
}
use verteilte_systeme_bbps.Server.Invariant.{Returns, Invariant}
use verteilte_systeme_bbps.Server.Invariant.Subscribing.{handle_subscribe_request-Invariant}
use verteilte_systeme_bbps.Server.Invariant.Leaving.{topics_left, left-WellFormed, left-Populated}
use verteilte_systeme_bbps.Server.Invariant.Unsubscribing.{
  unsubscribe_pointers_null, unsubscribe_pointers-none_left,
}
use verteilte_systeme_bbps.Server.Invariant.Requests.{
  find_topic-Found, handle_unsubscribe_request-Invariant, handle_publish_request-Invariant,
  handle_list_topics-Invariant, handle_get_topic_status-Invariant,
}
use verteilte_systeme_bbps.Server.Sending.{Network}
use verteilte_systeme_bbps.Server.Heartbeat.Keeps.{Costs, check_topic_timeouts-Invariant}
use verteilte_systeme_bbps.Server.Dispatch.{switch_command, catch_all, answer}
use verteilte_systeme_bbps.Server.Threads.{System, new_server, Step, Reach}

-- If the call returns, the invariant holds.
abbrev Keeps : Outcome (Response × Server) → Type 0
Keeps (ok (r, s)) = Invariant s
Keeps (throws e) = Unit
Keeps undefined = Unit

Keeps-Returns : (o : Outcome (Response × Server)) → Returns (λ r s. Invariant s) o → Keeps o
Keeps-Returns (ok (r, s)) h = h
Keeps-Returns (throws e) h = tt
Keeps-Returns undefined h = tt

Keeps-bind {ℓ} :
    {A : Type ℓ} (m : Outcome A) (f : A → Outcome (Response × Server))
    → ((a : A) → Keeps (f a))
    → Keeps (m >>= f)
Keeps-bind (ok a) f h = h a
Keeps-bind (throws e) f h = tt
Keeps-bind undefined f h = tt

nil-cases {ℓ} : {A : Type ℓ} (xs : List A) → (xs ≡ []) ⊎ (xs ≢ [])
nil-cases [] = inl refl
nil-cases (x ∷ xs) = inr (λ e. cc)

module _ (s : Server) (v : Invariant s) where
  null-Keeps :
      (name : Text) (p : Ptr)
      → find_topic name s.topics ≡ some p
      → Keeps (unsubscribe_pointers p none s)
  null-Keeps name p e =
      let f = find_topic-Found s name p v e in
      elim (nil-cases (topics_left p f.topic f.rest s.topics)) [
        | inl gone ↦
            rw (unsubscribe_pointers-none_left s v p f.first f.rest f.topic f.there f.listed gone)
              (record {
                well_formed = left-WellFormed s v p f.first f.rest f.topic f.there f.listed;
                populated = left-Populated s v p f.first f.rest f.topic f.there f.listed;
              })
        | inr left ↦
            rw (unsubscribe_pointers_null s v p f.first f.rest f.topic f.there f.listed left) tt
      ]

  unsubscribe-Keeps :
      (address : Text) (port : ℤ) (name : Text)
      → Keeps (handle_unsubscribe_request address port name s)
  unfolding handle_unsubscribe_request
  unsubscribe-Keeps address port name =
      elim (Option-cases (find_connection address port s.client_connections)) [
        | inr (q, known) ↦
            Keeps-Returns (handle_unsubscribe_request address port name s)
              (handle_unsubscribe_request-Invariant s v name address port q known)
        | inl unknown ↦ elim (Option-cases (find_topic name s.topics)) [
          | inl e ↦ rw (e, handle_unsubscribe_request) v
          | inr (p, e) ↦ rw (e, handle_unsubscribe_request) (rw unknown (null-Keeps name p e))
        ]
      ]

  switch_command-Keeps :
      (now later : ℕ) (ip : Text) (c : Command) (id : CommandIdentifiers)
      → Keeps (switch_command now later ip c id s)
  unfolding switch_command
  switch_command-Keeps now later ip c CommandIdentifiers.subscribe =
      Keeps-bind (get_command_argument CommunicationParameters.client_port c >>= stoi) _ λ port.
        Keeps-bind (get_command_argument CommunicationParameters.topic_name c) _
          λ name. Keeps-Returns _ (handle_subscribe_request-Invariant now later ip port name s v)
  switch_command-Keeps now later ip c CommandIdentifiers.unsubscribe =
      Keeps-bind (get_command_argument CommunicationParameters.client_port c >>= stoi) _ λ port.
        Keeps-bind (get_command_argument CommunicationParameters.topic_name c) _
          λ name. unsubscribe-Keeps ip port name
  switch_command-Keeps now later ip c CommandIdentifiers.publish =
      Keeps-bind (get_command_argument CommunicationParameters.topic_name c) _ λ name.
        Keeps-bind (get_command_argument CommunicationParameters.message c) _
          λ message. Keeps-Returns _ (handle_publish_request-Invariant s v name now later message)
  switch_command-Keeps now later ip c CommandIdentifiers.list_topics =
      Keeps-Returns (handle_list_topics s) (handle_list_topics-Invariant s v [])
  switch_command-Keeps now later ip c CommandIdentifiers.get_topic_status =
      Keeps-bind (get_command_argument CommunicationParameters.topic_name c) _
        λ name. Keeps-Returns _ (handle_get_topic_status-Invariant s name v)
  switch_command-Keeps now later ip c (CommandIdentifiers.unnamed n) = v

  catch_all-Keeps : (o : Outcome (Response × Server)) → Keeps o → Keeps (catch_all s o)
  catch_all-Keeps (ok (r, s')) h = h
  catch_all-Keeps (throws e) h = v
  catch_all-Keeps undefined h = tt

  -- Whatever bytes arrive: a request that is answered leaves the invariant as it was.
  answer-Keeps :
      (J : Json) (now later : ℕ) (ip received : Text) → Keeps (answer J now later ip received s)
  unfolding answer
  answer-Keeps J now later ip received = catch_all-Keeps _ (
      Keeps-bind (Command.deserialize J received) _
        λ c. switch_command-Keeps now later ip c c.command_identifier)

  pub answer-Invariant :
      (J : Json) (now later : ℕ) (ip received : Text) (r : Response) (s' : Server)
      → answer J now later ip received s ≡ ok (r, s')
      → Invariant s'
  answer-Invariant J now later ip received r s' e =
      subst Keeps e (answer-Keeps J now later ip received)

pub new_server-Invariant : (topic_timeout : ℤ) → Invariant (new_server topic_timeout)
unfolding new_server
new_server-Invariant topic_timeout = record {
  well_formed = record {
    topics_below = tt;
    connections_below = tt;
    topics_distinct = tt;
    connections_distinct = tt;
    names_distinct = tt;
    endpoints_distinct = tt;
    sound = tt;
  };
  populated = tt;
}

-- What a round leaves the server and the network as.
abbrev server_of : System → Outcome (Server × Network) → Server
server_of a (ok (s, n)) = s
server_of a (throws e) = a.server
server_of a undefined = a.server

abbrev network_of : System → Outcome (Server × Network) → Network
network_of a (ok (s, n)) = n
network_of a (throws e) = a.network
network_of a undefined = a.network

-- Every datagram is paid for with a descriptor.
record IsPaid (limit : ℕ) (n : Network) : Type 0 where
  paid : length n.sent ≤ n.open_descriptors
  bounded : n.open_descriptors ≤ limit

Costs-IsPaid : (limit : ℕ) (n n' : Network) → Costs limit n n' → IsPaid limit n → IsPaid limit n'
Costs-IsPaid limit n n' costs paid = record {
  paid = omega (arith, costs.each, paid.paid);
  bounded = costs.bounded paid.bounded;
}

module _ {J : Json} {limit : ℕ} where
  pub Step-Invariant : {a b : System} → Step J limit a b → Invariant a.server → Invariant b.server
  Step-Invariant {a} (Step.request now later ip received e) v =
      answer-Invariant a.server v J now later ip received _ _ e
  Step-Invariant {a} (Step.round clock e) v =
      let (s', n', e', v', _, _) =
        check_topic_timeouts-Invariant J limit clock a.server a.network v in
      subst Invariant (ap (server_of a) (sym e' ∙ e)) v'

  Step-IsPaid :
      {a b : System}
      → Step J limit a b
      → Invariant a.server
      → IsPaid limit a.network
      → IsPaid limit b.network
  Step-IsPaid {a} (Step.request now later ip received e) v h = h
  Step-IsPaid {a} (Step.round clock e) v h =
      let (s', n', e', _, _, costs) =
        check_topic_timeouts-Invariant J limit clock a.server a.network v in
      subst (IsPaid limit) (ap (network_of a) (sym e' ∙ e))
        (Costs-IsPaid limit a.network n' costs h)

  -- In every state that the server comes to from its start, by requests that are answered and
  -- rounds of the heartbeat in any order, its objects are in order: no pointer of a topic
  -- dangles, no topic is listed twice, no client is a subscriber of a topic twice, and every
  -- topic has a subscriber.
  pub Reach-Invariant :
      {descriptors : ℕ} {topic_timeout : ℤ} {a : System}
      → Reach J limit descriptors topic_timeout a
      → Invariant a.server
  Reach-Invariant {topic_timeout = z} Reach.start = new_server-Invariant z
  Reach-Invariant (Reach.then_step r step) = Step-Invariant step (Reach-Invariant r)

  Reach-IsPaid :
      {descriptors : ℕ} {topic_timeout : ℤ} {a : System}
      → descriptors ≤ limit
      → Reach J limit descriptors topic_timeout a
      → IsPaid limit a.network
  Reach-IsPaid room Reach.start = record { paid = omega arith; bounded = room }
  Reach-IsPaid room (Reach.then_step r step) =
      Step-IsPaid step (Reach-Invariant r) (Reach-IsPaid room r)

  -- A server whose process may have `limit` descriptors, and has no more of them open when it
  -- starts, sends at most `limit` datagrams in its life, however many requests and rounds there
  -- are.
  pub Reach-sent :
      {descriptors : ℕ} {topic_timeout : ℤ} {a : System}
      → descriptors ≤ limit
      → Reach J limit descriptors topic_timeout a
      → length a.network.sent ≤ limit
  Reach-sent {a = a} room r = let h = Reach-IsPaid room r in omega (arith, h.paid, h.bounded)
