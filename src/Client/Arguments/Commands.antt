-- ===== src/Client/Arguments/Commands.antt =====
-- What becomes of the command to subscribe.
use verteilte_systeme_bbps.Prelude.{
  ℕ, ◌≡◌, ◌≢◌, refl, Bool, true, false, ◌&&◌, List, [], ◌∷◌, ◌++◌, All, some, Text, codes, int_eq,
  nat_eq, text_eq, ◌==◌, if◌then◌else◌, ok, arith,
}
use verteilte_systeme_bbps.Client.Arguments.{
  Options, Parsed, Round, default_options, with_command, has_next, is_topic_argument, take_topics,
  topics_round, command_round, plain_round, round, parse_from, parse,
}

-- The options for a command with topics.
abbrev pub with_topics : Bool → Text → List Text → Options
with_topics stays command topics = record default_options {
  command = command;
  arguments = topics;
  has_subscribe_command = stays;
}

take_topics-All :
    (ts : List Text) → All (λ t. is_topic_argument t ≡ ok true) ts → take_topics ts ≡ ok (ts, [])
unfolding take_topics
take_topics-All [] _ = refl
take_topics-All (t ∷ ts) (h, hs) = rw (h, take_topics) (rw (take_topics-All ts hs) refl)

topics_round-All :
    (subscribing : Bool) (o : Options) (ts : List Text)
    → All (λ t. is_topic_argument t ≡ ok true) ts
    → topics_round subscribing ts o
      ≡ ok (
          Round.go [] (record o {
            arguments = o.arguments ++ ts;
            has_subscribe_command =
                if subscribing && has_next ts then true else o.has_subscribe_command;
          }))
unfolding topics_round
topics_round-All subscribing o ts h = rw (take_topics-All ts h) refl

-- The topics.
pub parse-subscribe :
    (t : Text) (ts : List Text)
    → All (λ u. is_topic_argument u ≡ ok true) (t ∷ ts)
    → parse (codes "--subscribe" ∷ t ∷ ts)
      ≡ ok (some (Parsed.start (with_topics true (codes "--subscribe") (t ∷ ts))))
unfolding parse parse_from round plain_round command_round text_eq
parse-subscribe t ts h =
    rw
      (topics_round-All true (with_command (codes "--subscribe") default_options) (t ∷ ts) h, parse)
      refl

pub parse-get_topic_status :
    (t : Text) (ts : List Text)
    → All (λ u. is_topic_argument u ≡ ok true) (t ∷ ts)
    → parse (codes "--get-topic-status" ∷ t ∷ ts)
      ≡ ok (some (Parsed.start (with_topics false (codes "--get-topic-status") (t ∷ ts))))
unfolding parse parse_from round plain_round command_round text_eq
parse-get_topic_status t ts h =
    rw
      (
        topics_round-All false (with_command (codes "--get-topic-status") default_options) (t ∷ ts)
            h,
        parse,
      )
      refl

dash_no_topic : (c : ℕ) (t : Text) → is_topic_argument (c ∷ b'-' ∷ t) ≡ ok false
unfolding is_topic_argument nat_eq
dash_no_topic c t = ground arith

topics_round-dash :
    (c : ℕ) (t : Text) (rest : List Text) (o : Options)
    → topics_round true ((c ∷ b'-' ∷ t) ∷ rest) o
      ≡ ok (Round.go ((c ∷ b'-' ∷ t) ∷ rest) (record o { arguments = o.arguments ++ [] }))
unfolding topics_round take_topics
topics_round-dash c t rest o = rw (dash_no_topic c t) refl

-- An argument that does not begin with a dash is none of the words that the program knows.
no_word : (c : ℕ) (s w : Text) → c ≢ b'-' → ((c ∷ s) == (b'-' ∷ w)) ≡ false
no_word c s w no_dash = ground arith

plain_round-unknown :
    (c : ℕ) (s : Text) (rest : List Text) (o : Options)
    → c ≢ b'-'
    → plain_round (c ∷ s) rest o ≡ ok (Round.stop Parsed.refused)
unfolding plain_round command_round
plain_round-unknown c s rest o no_dash =
    rw
      (
        no_word c s (codes "-help") no_dash,
        no_word c s (codes "-debug") no_dash,
        no_word c s (codes "-subscribe") no_dash,
        no_word c s (codes "-publish") no_dash,
        no_word c s (codes "-list-topics") no_dash,
        no_word c s (codes "-get-topic-status") no_dash,
      )
      refl

round-unknown :
    (c : ℕ) (s : Text) (rest : List Text) (o : Options)
    → c ≢ b'-'
    → round (c ∷ s) rest o ≡ ok (Round.stop Parsed.refused)
unfolding round
round-unknown c s [] o no_dash = plain_round-unknown c s [] o no_dash
round-unknown c s (value ∷ rest) o no_dash =
    rw
      (
        no_word c s (codes "-port") no_dash,
        no_word c s (codes "-server-address") no_dash,
        no_word c s (codes "-server-port") no_dash,
      )
      (plain_round-unknown c s (value ∷ rest) o no_dash)

-- The client refuses to subscribe to a first topic whose second character is a dash and whose first
-- is none.
pub parse-dash :
    (c : ℕ) (t : Text) (rest : List Text)
    → c ≢ b'-'
    → parse (codes "--subscribe" ∷ (c ∷ b'-' ∷ t) ∷ rest) ≡ ok (some Parsed.refused)
unfolding parse parse_from round plain_round command_round text_eq
parse-dash c t rest no_dash =
    rw (topics_round-dash c t rest (with_command (codes "--subscribe") default_options), parse)
      (rw (round-unknown c (b'-' ∷ t) rest _ no_dash) refl)
