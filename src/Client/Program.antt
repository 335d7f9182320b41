-- ===== src/Client/Program.antt =====
-- client/main.cpp: what `main` does once it has read its arguments. The constructor of the client is
-- left to `Opening`, what the system calls come to.
pub mod Subscribing
use verteilte_systeme_bbps.Prelude.{
  ℕ, zero, suc, List, [], ◌∷◌, ◌++◌, length, Option, none, some, Text, codes, ℤ, pos, text_eq, ◌==◌,
  if◌then◌else◌, Outcome, ok, throws, undefined, Exception, runtime_error, invalid_argument,
  out_of_range, json_error, ◌>>=◌,
}
use verteilte_systeme_bbps.Protocol.Json.{Json}
use verteilte_systeme_bbps.Client.{
  Client, Exchange, Effect, subscribe_topic, publish_topic, list_topics, get_topic_status,
  unsubscribe_all,
}
use verteilte_systeme_bbps.Client.Log.{Logged}
use verteilte_systeme_bbps.Client.Messages.{Reception, handle_messages}
use verteilte_systeme_bbps.Client.Arguments.{Options, Parsed, parse}

-- The socket for messages is not made, it is not bound, or it is bound to a port.
pub data Opening : Type 0 where
  no_socket not_bound : Opening
  bound : ℕ → Opening

-- `Client(port, serverAddress, serverPort)`, up to the start of its thread: the client's port is the
-- one that was bound.
unfoldable pub new_client : Opening → Outcome Client
new_client Opening.no_socket = throws (runtime_error (codes "Message socket creation failed"))
new_client Opening.not_bound = throws (runtime_error (codes "Message socket bind failed"))
new_client (Opening.bound port) = ok (record { port = pos port; subscribed_topics = [] })

-- How `main` returns, what was sent before, and what the thread for messages logged.
pub record Ended : Type 0 where
  pub exit_code : ℕ
  pub effects : List Effect
  pub messages : List Logged

-- `front()` and `back()` of a list, which the empty one does not have
unfoldable pub front : List Text → Outcome Text
front [] = undefined
front (t ∷ ts) = ok t

unfoldable pub last_argument : List Text → Outcome Text
last_argument [] = undefined
last_argument (t ∷ []) = ok t
last_argument (t ∷ u ∷ ts) = last_argument (u ∷ ts)

module _ (J : Json) (format_time : ℤ → Option Text) (exchanges : ℕ → Exchange) where
  -- The `for` loops over the arguments; `k` exchanges have been made.
  unfoldable pub for_topics :
      (Exchange → Text → Client → Outcome (Effect × Client))
      → ℕ
      → List Text
      → Client
      → Outcome (List Effect × Client)
  for_topics operation k [] client = ok ([], client)
  for_topics operation k (topic_name ∷ topic_names) client = do
    (effect, client') ← operation (exchanges k) topic_name client
    (effects, client'') ← for_topics operation (suc k) topic_names client'
    ok (effect ∷ effects, client'')

  -- The command; `none` where there is none.
  unfoldable pub execute : Options → Client → Outcome (Option (List Effect × Client))
  unfolding for_topics subscribe_topic publish_topic list_topics get_topic_status front
      last_argument
  execute o client =
      if o.command == codes "--subscribe"
      then (for_topics (λ exchange. subscribe_topic J format_time exchange) 0 o.arguments client
          >>= λ done. ok (some done))
      else if o.command == codes "--publish"
      then (do
        topic_name ← front o.arguments
        message ← last_argument o.arguments
        (effect, client') ← publish_topic J format_time (exchanges 0) topic_name message client
        ok (some (effect ∷ [], client')))
      else if o.command == codes "--list-topics"
      then (do
        (effect, client') ← list_topics J format_time (exchanges 0) client
        ok (some (effect ∷ [], client')))
      else if o.command == codes "--get-topic-status"
      then (for_topics (λ exchange. get_topic_status J format_time exchange) 0 o.arguments client
          >>= λ done. ok (some done))
      else ok none

  -- `delete client`, after so many exchanges; it waits for the thread, which logs these messages.
  unfoldable pub delete_client : List Effect → List Logged → Client → Outcome (Option Ended)
  unfolding unsubscribe_all
  delete_client effects messages client =
      unsubscribe_all J format_time exchanges (length effects) (length client.subscribed_topics)
        client
      >>= λ closed. elim closed [
        | none ↦ ok none
        | some (closing, _) ↦
            ok (some (record { exit_code = 0; effects = effects ++ closing; messages = messages }))
      ]

  -- The thread for messages runs from the end of the constructor to the destructor, or to the end of
  -- `main`; what it receives in that time is given. What it throws is caught nowhere and ends the
  -- program. `none` where fuel is used up.
  unfoldable pub run_options : Options → List Reception → Client → Outcome (Option Ended)
  unfolding execute delete_client handle_messages
  run_options o receptions client = handle_messages J format_time receptions >>= λ messages.
      execute o client >>= λ done. elim done [
        | none ↦ ok (some (record { exit_code = 1; effects = []; messages = messages }))
        | some (effects, client') ↦ delete_client effects messages client'
      ]

  -- `new Client` under `try`.
  unfoldable pub run_client : Options → List Reception → Outcome Client → Outcome (Option Ended)
  unfolding run_options
  run_client o receptions (ok client) = run_options o receptions client
  run_client o receptions (throws (runtime_error what)) =
      ok (some (record { exit_code = 1; effects = []; messages = [] }))
  run_client o receptions (throws invalid_argument) = throws invalid_argument
  run_client o receptions (throws out_of_range) = throws out_of_range
  run_client o receptions (throws json_error) = throws json_error
  run_client o receptions undefined = undefined

  unfoldable pub main : Opening → List Reception → List Text → Outcome (Option Ended)
  unfolding parse run_client new_client
  main opening receptions args = parse args >>= λ parsed. elim parsed [
    | none ↦ ok none
    | some p ↦ elim p [
      | Parsed.start o ↦ run_client o receptions (new_client opening)
      | Parsed.help ↦ ok (some (record { exit_code = 0; effects = []; messages = [] }))
      | Parsed.refused ↦ ok (some (record { exit_code = 1; effects = []; messages = [] }))
    ]
  ]
