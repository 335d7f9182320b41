-- ===== src/Client/Messages.antt =====
-- client.cpp: the thread that receives messages. What `recvfrom` delivers comes as a list, until the
-- thread is stopped.
pub mod Published
use verteilte_systeme_bbps.Prelude.{
  Option, List, [], ◌∷◌, ◌++◌, Text, codes, ℤ, Outcome, ok, throws, undefined, runtime_error,
  invalid_argument, out_of_range, json_error, ◌>>=◌,
}
use verteilte_systeme_bbps.Protocol.Json.{Json}
use verteilte_systeme_bbps.Protocol.Message.{Message}
use verteilte_systeme_bbps.Protocol.Message
use verteilte_systeme_bbps.Client.{c_string}
use verteilte_systeme_bbps.Client.Log.{formatted_timestamp, Logged}

-- No message within the timeout, or a datagram.
pub data Reception : Type 0 where
  nothing : Reception
  datagram : Text → Reception

-- `format_time` is the whole text of `strftime` on `localtime`, if that is not null.
unfoldable pub print_message : (ℤ → Option Text) → Message → Outcome Logged
unfolding formatted_timestamp
print_message format_time m = do
  text ← formatted_timestamp (format_time m.message_timestamp)
  ok (
      Logged.info (
        codes "Topic: "
        ++ (m.topic
            ++ (codes " | Message-Timestamp: " ++ (text ++ (codes " | Message: " ++ m.message))))))

-- `catch (const runtime_error &)`, which logs what it is told; the other classes end the program.
unfoldable pub catch_and_log : Outcome Logged → Outcome Logged
catch_and_log (ok l) = ok l
catch_and_log (throws (runtime_error what)) = ok (Logged.error what)
catch_and_log (throws invalid_argument) = throws invalid_argument
catch_and_log (throws out_of_range) = throws out_of_range
catch_and_log (throws json_error) = throws json_error
catch_and_log undefined = undefined

module _ (J : Json) (format_time : ℤ → Option Text) where
  -- The buffer is read as a C string; what goes beyond its size is cut off.
  unfoldable pub receive_message : Text → Outcome Logged
  unfolding c_string catch_and_log print_message Message.deserialize
  receive_message bytes = c_string 2048 bytes >>= λ client_message.
      catch_and_log (Message.deserialize J client_message >>= λ m. print_message format_time m)

  unfoldable pub handle_messages : List Reception → Outcome (List Logged)
  unfolding receive_message
  handle_messages [] = ok []
  handle_messages (Reception.nothing ∷ receptions) = handle_messages receptions
  handle_messages (Reception.datagram bytes ∷ receptions) = do
    logged ← receive_message bytes
    rest ← handle_messages receptions
    ok (logged ∷ rest)
