-- ===== src/Conversation/Listing.antt =====
-- A client that is started to list the topics, and the server that answers it.
use verteilte_systeme_bbps.Prelude.{
  Option, ℕ, ◌<◌, ◌≤◌, ◌≡◌, refl, ap, sym, subst, List, [], ◌∷◌, ◌++◌, append-nil, All, Distinct,
  map, length, some, Text, codes, ℤ, text_eq, ok,
}
use verteilte_systeme_bbps.Std.Decimal.{to_string_ℕ}
use verteilte_systeme_bbps.Protocol.Identifiers.{CommandIdentifiers, Statuscode, parameter_eq}
use verteilte_systeme_bbps.Protocol.Json.{Json, IsLawful}
use verteilte_systeme_bbps.Protocol.ArrayStrings.RoundTrip.{
  IsElement, array_string_to_vector_string-vector_to_array_string,
}
use verteilte_systeme_bbps.Protocol.Command.{new_command}
use verteilte_systeme_bbps.Protocol.Command
use verteilte_systeme_bbps.Protocol.Command.RoundTrip.{IsFilled}
use verteilte_systeme_bbps.Protocol.Response.{
  get_response_argument, vector_to_array_string, response_dictionary, index_of,
}
use verteilte_systeme_bbps.Protocol.Response.Codec
use verteilte_systeme_bbps.Protocol.Response.Codec.Answers.{answered, IsAnswer, IsNamed}
use verteilte_systeme_bbps.Server.State.{Server}
use verteilte_systeme_bbps.Server.Requests.{handle_list_topics}
use verteilte_systeme_bbps.Server.Invariant.{Returns, Invariant}
use verteilte_systeme_bbps.Server.Directory.{Directory, view}
use verteilte_systeme_bbps.Server.Directory.Views.{names_seen}
use verteilte_systeme_bbps.Server.Directory.Service.{list_spec}
use verteilte_systeme_bbps.Server.Dispatch.{buffer_size, switch_command, handle_approaching_client}
use verteilte_systeme_bbps.Client.{Exchange, Effect, send_message, list_topics, unsubscribe_all}
use verteilte_systeme_bbps.Client.Messages.{Reception, handle_messages}
use verteilte_systeme_bbps.Client.Log.{Logged, log_response, parameters_text, parameter_text}
use verteilte_systeme_bbps.Client.Log.Listing.{comma_list, listing-Distinct}
use verteilte_systeme_bbps.Client.Arguments.{parse, parse_from, round, plain_round, command_round}
use verteilte_systeme_bbps.Client.Program.{
  Opening, new_client, execute, delete_client, run_options, run_client, main,
}
use verteilte_systeme_bbps.Conversation.Exchanges.{
  line, send_message-answered, handle_approaching_client-answered,
}

-- The names of the topics, in their order.
abbrev pub names : Directory → List Text
names = map (λ t. t.name)

handle_list_topics-list_spec : (s : Server) → handle_list_topics s ≡ ok (list_spec (view s), s)
unfolding handle_list_topics list_spec parameter_eq
handle_list_topics-list_spec s = rw (names_seen s.client_connections s.topics) refl

log_response-list :
    (format_time : ℤ → Option Text) (sender_ip sender_port : Text) (ts : List Text)
    → All IsElement ts
    → Distinct ts
    → log_response format_time sender_ip sender_port (
        answered CommandIdentifiers.list_topics Statuscode.success (vector_to_array_string ts ∷ []))
      ≡ ok (
          Logged.info (
            line sender_ip sender_port Statuscode.success ++ (codes "\nTopics: " ++ comma_list ts)))
unfolding log_response parameters_text parameter_text get_response_argument response_dictionary
    index_of parameter_eq
log_response-list format_time sender_ip sender_port ts elements distinct =
    rw (array_string_to_vector_string-vector_to_array_string ts elements) (
      rw (listing-Distinct ts distinct) (
        ap (λ t. ok (Logged.info (line sender_ip sender_port Statuscode.success ++ t)))
          (append-nil (codes "\nTopics: " ++ comma_list ts))))

-- The program's run, from what its exchange comes to.
main-one :
    (J : Json) (format_time : ℤ → Option Text) (exchanges : ℕ → Exchange) (port : ℕ)
    (effect : Effect) (receptions : List Reception) (messages : List Logged)
    → handle_messages J format_time receptions ≡ ok messages
    → send_message J format_time (exchanges 0) (new_command CommandIdentifiers.list_topics)
      ≡ ok effect
    → main J format_time exchanges (Opening.bound port) receptions (codes "--list-topics" ∷ [])
      ≡ ok (some (record { exit_code = 0; effects = effect ∷ []; messages = messages }))
unfolding main run_client new_client run_options execute delete_client unsubscribe_all list_topics
    text_eq parse parse_from round plain_round command_round
main-one J format_time exchanges port effect receptions messages received e =
    rw received (rw e refl)

module _ (J : Json) (L : IsLawful J) (format_time : ℤ → Option Text) (now later : ℕ) (ip : Text)
    (s : Server) (v : Invariant s) (elements : All IsElement (names (view s)))
    (plain : L.IsPlain (vector_to_array_string (names (view s)))) where
  -- If the JSON library is lawful, the server's objects are in order, no topic's name is empty,
  -- has a comma or begins or ends with a space, JSON carries the text that the server writes for
  -- the names, the client's socket is bound, its thread for messages runs on what it receives
  -- without an exception or undefined behaviour, the bytes of the request fit the server's buffer
  -- and those of the response the client's, and the first exchange is with that server: the
  -- server answers the request of the program that is started with `--list-topics` and is as it
  -- was, and the program exits with code 0 after exactly that exchange and logs the names of all
  -- topics of the directory, in their order, with a comma between each two.
  pub main-list_topics :
      (port : ℕ) (sender_ip : Text) (sender_port : ℕ) (b : ℕ) (pending response : Text)
      (exchanges : ℕ → Exchange) (receptions : List Reception) (messages : List Logged)
      → handle_messages J format_time receptions ≡ ok messages
      → length (b ∷ pending) ≤ buffer_size
      → length response < 2048
      → Command.serialize J (new_command CommandIdentifiers.list_topics) ≡ ok (b ∷ pending)
      → Codec.serialize J (list_spec (view s)) ≡ ok response
      → exchanges 0 ≡ Exchange.received response sender_ip sender_port
      → (handle_approaching_client J now later ip (b ∷ pending) s ≡ ok (some response, s))
        × (main J format_time exchanges (Opening.bound port) receptions (codes "--list-topics" ∷ [])
            ≡ ok (
                some (record {
                  exit_code = 0;
                  effects =
                      record {
                        sent = some (b ∷ pending);
                        logged = some (
                            Logged.info (
                              line sender_ip (to_string_ℕ sender_port) Statuscode.success
                              ++ (codes "\nTopics: " ++ comma_list (names (view s)))));
                      }
                      ∷ [];
                  messages = messages;
                })))
  unfolding switch_command new_command list_spec Command.command_dictionary
  main-list_topics port sender_ip sender_port b pending response exchanges receptions messages
        received request_fits response_fits written answer exchanged =
      let id = CommandIdentifiers.list_topics in
      let distinct : Distinct (names (view s)) =
        subst Distinct (sym (names_seen s.client_connections s.topics))
          v.well_formed.names_distinct in
      let (s', e, same) =
        handle_approaching_client-answered J L now later ip s id [] b pending Statuscode.success
          (vector_to_array_string (names (view s)) ∷ []) response (λ s'. s' ≡ s) written
          IsFilled.list_topics_filled tt request_fits answer
          (subst (Returns (λ r s'. (r ≡ list_spec (view s)) × (s' ≡ s)))
            (sym (handle_list_topics-list_spec s)) (refl, refl)) in
      (
        rw same at e,
        main-one J format_time exchanges port _ receptions messages received (
            rw exchanged (
              send_message-answered J L format_time id [] (b ∷ pending) Statuscode.success 0
                (vector_to_array_string (names (view s)) ∷ []) response sender_ip sender_port _
                written (IsAnswer.list_topics_answer _) (plain, tt) IsNamed.success_named answer
                (log_response-list format_time sender_ip (to_string_ℕ sender_port) (names (view s))
                  elements distinct)
                response_fits)),
      )
