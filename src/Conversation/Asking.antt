-- ===== src/Conversation/Asking.antt =====
-- A client that is started to ask for the status of a topic, and the server that answers it.
use verteilte_systeme_bbps.Client.Messages.Published.{formatted_timestamp-fits}
use verteilte_systeme_bbps.Prelude.{
  Option, true, arith, ℕ, ◌<◌, ◌≤◌, ◌^◌, ◌≢◌, ◌≡◌, refl, ◌∙◌, ap, sym, subst, List, [], ◌∷◌, ◌++◌,
  append-nil, All, Distinct, map, length, some, Text, codes, ℤ, pos, text_eq, ok,
}
use verteilte_systeme_bbps.Std.Decimal.{to_string, to_string_ℕ}
use verteilte_systeme_bbps.Std.Decimal.RoundTrip.{stoll-to_string_ℕ, to_string_ℕ-ascii}
use verteilte_systeme_bbps.Protocol.Message.{uint64_of_time}
use verteilte_systeme_bbps.Client.Arguments.{is_topic_argument}
use verteilte_systeme_bbps.Client.Arguments.Commands.{parse-get_topic_status}
use verteilte_systeme_bbps.Protocol.Identifiers.{CommandIdentifiers, Statuscode, parameter_eq}
use verteilte_systeme_bbps.Protocol.Json.{Json, IsLawful}
use verteilte_systeme_bbps.Protocol.ArrayStrings.RoundTrip.{
  IsElement, array_string_to_vector_string-vector_to_array_string,
}
use verteilte_systeme_bbps.Protocol.Command.{
  new_command, set_command_argument, get_command_argument,
}
use verteilte_systeme_bbps.Protocol.Command
use verteilte_systeme_bbps.Protocol.Command.RoundTrip.{IsFilled, filled}
use verteilte_systeme_bbps.Protocol.Response.{
  new_response, get_response_argument, vector_to_array_string, response_dictionary, index_of,
  set_response_argument_vector, set_response_argument_uint64, set_response_argument,
  set_status_code,
}
use verteilte_systeme_bbps.Protocol.Response.Codec
use verteilte_systeme_bbps.Protocol.Response.Codec.Answers.{answered, IsAnswer, IsNamed}
use verteilte_systeme_bbps.Server.State.{ClientConnection, Server}
use verteilte_systeme_bbps.Server.Requests.{endpoint_string, topic_status_response}
use verteilte_systeme_bbps.Server.Invariant.{Returns, Invariant}
use verteilte_systeme_bbps.Server.Directory.{TopicView, view, find_view}
use verteilte_systeme_bbps.Server.Directory.Publishing.{handle_get_topic_status-view}
use verteilte_systeme_bbps.Server.Directory.Service.{status_spec}
use verteilte_systeme_bbps.Server.Dispatch.{buffer_size, switch_command, handle_approaching_client}
use verteilte_systeme_bbps.Client.{
  Exchange, Effect, send_message, get_topic_status, status_command, unsubscribe_all,
}
use verteilte_systeme_bbps.Client.Messages.{Reception, handle_messages}
use verteilte_systeme_bbps.Client.Log.{Logged, log_response, parameters_text, parameter_text}
use verteilte_systeme_bbps.Client.Log.Listing.{comma_list, listing-Distinct}
use verteilte_systeme_bbps.Client.Program.{
  Opening, new_client, for_topics, execute, delete_client, run_options, run_client, main,
}
use verteilte_systeme_bbps.Conversation.Exchanges.{
  line, send_message-answered, handle_approaching_client-answered,
}

-- How a subscriber is shown.
abbrev pub address_and_port : ClientConnection → Text
address_and_port c = c.address ++ (codes ":" ++ to_string c.port)

-- The arguments of the answer: the time and the subscribers.
abbrev status_texts : ℕ → List Text → List Text
status_texts time subscribers = to_string_ℕ time ∷ vector_to_array_string subscribers ∷ []

topic_status_response_lem :
    (n : ℕ) (subscribers : List Text)
    → topic_status_response (pos n) subscribers
      ≡ answered CommandIdentifiers.get_topic_status Statuscode.success
          (status_texts (uint64_of_time (pos n)) subscribers)
unfolding topic_status_response set_response_argument_uint64 set_response_argument_vector
    set_response_argument set_status_code new_response response_dictionary index_of parameter_eq
topic_status_response_lem n subscribers = refl

uint64_of_time-small : (n : ℕ) → n < 2 ^ 63 → uint64_of_time (pos n) ≡ n
unfolding uint64_of_time
uint64_of_time-small n small = omega arith

log_response-status :
    (format_time : ℤ → Option Text) (sender_ip sender_port : Text) (n : ℕ) (shown : Text)
    (ts : List Text)
    → format_time (pos n) ≡ some shown
    → length shown < 21
    → n < 2 ^ 63
    → All IsElement ts
    → Distinct ts
    → log_response format_time sender_ip sender_port
        (answered CommandIdentifiers.get_topic_status Statuscode.success (status_texts n ts))
      ≡ ok (
          Logged.info (
            line sender_ip sender_port Statuscode.success
            ++ (codes "\nMessage-Timestamp: "
                ++ shown
                ++ (codes "\nSubscribers: " ++ comma_list ts))))
unfolding log_response parameters_text parameter_text get_response_argument response_dictionary
    index_of parameter_eq
log_response-status format_time sender_ip sender_port n shown ts timed fits small elements
      distinct =
    rw (stoll-to_string_ℕ n small) (
      rw timed (
        rw (formatted_timestamp-fits shown fits) (
          rw (array_string_to_vector_string-vector_to_array_string ts elements)
            (rw (listing-Distinct ts distinct) (rw (append-nil (comma_list ts)) refl)))))

main-asks :
    (J : Json) (format_time : ℤ → Option Text) (exchanges : ℕ → Exchange) (port : ℕ) (name : Text)
    (effect : Effect) (receptions : List Reception) (messages : List Logged)
    → handle_messages J format_time receptions ≡ ok messages
    → is_topic_argument name ≡ ok true
    → send_message J format_time (exchanges 0) (status_command name) ≡ ok effect
    → main J format_time exchanges
        (Opening.bound port)
        receptions
        (codes "--get-topic-status" ∷ name ∷ [])
      ≡ ok (some (record { exit_code = 0; effects = effect ∷ []; messages = messages }))
unfolding main run_client new_client run_options execute for_topics delete_client unsubscribe_all
    get_topic_status text_eq
main-asks J format_time exchanges port name effect receptions messages received argument e =
    rw (parse-get_topic_status name [] (argument, tt), main) (rw received (rw e refl))

status_command-filled :
    (name : Text) → status_command name ≡ filled CommandIdentifiers.get_topic_status (name ∷ [])
unfolding status_command set_command_argument new_command Command.command_dictionary index_of
    parameter_eq
status_command-filled name = refl

module _ (J : Json) (L : IsLawful J) (format_time : ℤ → Option Text) (now later : ℕ) (ip : Text)
    (s : Server) (v : Invariant s) (name : Text) (named : name ≢ []) (plain_name : L.IsPlain name)
    (argument : is_topic_argument name ≡ ok true) where
  -- If the JSON library is lawful, the server's objects are in order, the topic's name is not
  -- empty, has no dash at its first or second place and is not beyond what JSON carries, the
  -- directory has the topic, with a time below 2 ^ 63 of which `strftime` makes a text shorter
  -- than the buffer of 21 bytes, and its subscribers' addresses and ports, as texts, are all
  -- different, have no comma, neither begin nor end with a space, and make a list that JSON
  -- carries, the client's socket is bound, its thread for messages runs on what it receives
  -- without an exception or undefined behaviour, the bytes of the request fit the server's buffer
  -- and those of the response the client's, and the first exchange is with that server: the
  -- server answers the request of the program that is started with `--get-topic-status` and the
  -- topic, and is as it was, and the program exits with code 0 after exactly that exchange and
  -- logs the time of the topic's message and all its subscribers, in their order, with a comma
  -- between each two.
  pub main-get_topic_status :
      (t : TopicView) (n : ℕ) (shown : Text) (port : ℕ) (sender_ip : Text) (sender_port : ℕ) (b : ℕ)
      (pending response : Text) (exchanges : ℕ → Exchange) (receptions : List Reception)
      (messages : List Logged)
      → handle_messages J format_time receptions ≡ ok messages
      → find_view name (view s) ≡ some t
      → t.message_timestamp ≡ pos n
      → n < 2 ^ 63
      → format_time (pos n) ≡ some shown
      → length shown < 21
      → All IsElement (map address_and_port t.subscribers)
      → Distinct (map address_and_port t.subscribers)
      → L.IsPlain (vector_to_array_string (map address_and_port t.subscribers))
      → length (b ∷ pending) ≤ buffer_size
      → length response < 2048
      → Command.serialize J (status_command name) ≡ ok (b ∷ pending)
      → Codec.serialize J (status_spec name (view s)) ≡ ok response
      → exchanges 0 ≡ Exchange.received response sender_ip sender_port
      → (handle_approaching_client J now later ip (b ∷ pending) s ≡ ok (some response, s))
        × (main J format_time exchanges
              (Opening.bound port)
              receptions
              (codes "--get-topic-status" ∷ name ∷ [])
            ≡ ok (
                some (record {
                  exit_code = 0;
                  effects =
                      record {
                        sent = some (b ∷ pending);
                        logged = some (
                            Logged.info (
                              line sender_ip (to_string_ℕ sender_port) Statuscode.success
                              ++ (codes "\nMessage-Timestamp: "
                                  ++ shown
                                  ++ (codes "\nSubscribers: "
                                      ++ comma_list (map address_and_port t.subscribers)))));
                      }
                      ∷ [];
                  messages = messages;
                })))
  unfolding endpoint_string switch_command status_spec Command.command_dictionary
      get_command_argument parameter_eq
  main-get_topic_status t n shown port sender_ip sender_port b pending response exchanges receptions
        messages received found dated small timed fits elements distinct plain request_fits
        response_fits written answer exchanged =
      let id = CommandIdentifiers.get_topic_status in
      let texts = status_texts n (map address_and_port t.subscribers) in
      let is : status_spec name (view s) ≡ answered id Statuscode.success texts =
        rw (found, status_spec)
          (rw dated (
            topic_status_response_lem n (map address_and_port t.subscribers)
            ∙ ap
                (λ m.
                  answered id Statuscode.success
                    (status_texts m (map address_and_port t.subscribers)))
                (uint64_of_time-small n small))) in
      let written' = ap (Command.serialize J) (sym (status_command-filled name)) ∙ written in
      let answer' = ap (Codec.serialize J) (sym is) ∙ answer in
      let (s', e, same) =
        handle_approaching_client-answered J L now later ip s id (name ∷ []) b pending
          Statuscode.success texts response (λ s'. s' ≡ s) written'
          (IsFilled.get_topic_status_filled name) ((named, plain_name), tt) request_fits answer'
          (subst (Returns (λ r s'. (r ≡ answered id Statuscode.success texts) × (s' ≡ s)))
            (sym (handle_get_topic_status-view s v name)) (is, refl)) in
      (
        rw same at e,
        main-asks J format_time exchanges port name _ receptions messages received argument (
            rw exchanged (
              ap (send_message J format_time (Exchange.received response sender_ip sender_port))
                (status_command-filled name)
              ∙ send_message-answered J L format_time id (name ∷ []) (b ∷ pending)
                  Statuscode.success 0 texts response sender_ip sender_port _ written'
                  (IsAnswer.get_topic_status_answer _ _)
                  (L.ascii-IsPlain (to_string_ℕ n) (to_string_ℕ-ascii n), (plain, tt))
                  IsNamed.success_named answer'
                  (log_response-status format_time sender_ip (to_string_ℕ sender_port) n shown _
                    timed fits small elements distinct)
                  response_fits)),
      )
