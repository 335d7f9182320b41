-- ===== src/Client/Arguments/Rounds.antt =====
-- What a round of the loop over the arguments leaves: fewer arguments, and options that fit.
use verteilte_systeme_bbps.Prelude.{
  ℕ, suc, ◌≤◌, ◌≡◌, ◌≢◌, refl, sym, ◌∙◌, ◌⊎◌, Bool, true, false, ◌&&◌, Bool-cases, inl, inr, List,
  [], ◌∷◌, ◌++◌, length, Text, codes, ℤ, negsuc, int_eq, nat_eq, text_eq, ◌==◌, contains,
  if◌then◌else◌, Outcome, ok, throws, undefined, ◌>>=◌, arith,
}
use verteilte_systeme_bbps.Client.Arguments.{
  Options, Parsed, Round, has_next, is_topic_argument, take_topics, topics_round, publish_round,
}

abbrev pub known_commands : List Text
known_commands =
    codes "--subscribe"
    ∷ codes "--publish"
    ∷ codes "--list-topics"
    ∷ codes "--get-topic-status"
    ∷ []

-- The command is none or one of the four, there are no arguments without a command, and to publish
-- there are two.
pub record IsSound (o : Options) : Type 0 where
  pub known : (o.command ≡ []) ⊎ (contains known_commands o.command ≡ true)
  pub unused : o.command ≡ [] → o.arguments ≡ []
  pub pair : o.command ≡ codes "--publish" → length o.arguments ≡ 2

-- The loop goes on with no more than so many arguments and with sound options, or it ends.
abbrev pub Goes : ℕ → Outcome Round → Type 0
Goes n (ok (Round.go left o)) = (length left ≤ n) × IsSound o
Goes n (ok (Round.stop (Parsed.start o))) = ⊥
Goes n (ok (Round.stop Parsed.help)) = Unit
Goes n (ok (Round.stop Parsed.refused)) = Unit
Goes n (throws e) = Unit
Goes n undefined = Unit

pub Goes-if :
    (n : ℕ) (b : Bool) (x y : Outcome Round)
    → (b ≡ true → Goes n x)
    → (b ≡ false → Goes n y)
    → Goes n (if b then x else y)
Goes-if n true x y hx hy = hx refl
Goes-if n false x y hx hy = hy refl

-- The settings do not touch the command and its arguments.
pub setting-Goes :
    (rest : List Text) (m : Outcome ℤ) (f : ℤ → Options)
    → ((port : ℤ) → IsSound (f port))
    → Goes (suc (length rest)) (
        m >>= λ port.
        ok (if port == negsuc 0 then Round.stop Parsed.refused else Round.go rest (f port)))
setting-Goes rest (ok port) f sound = elim (Bool-cases (port == negsuc 0)) [
  | inl bad ↦ rw bad tt
  | inr good ↦ rw good (omega arith, sound port)
]
setting-Goes rest (throws e) f sound = tt
setting-Goes rest undefined f sound = tt

pub address-Goes :
    (rest : List Text) (m : Outcome Bool) (o : Options)
    → IsSound o
    → Goes
        (suc (length rest))
        (m >>= λ valid. ok (if valid then Round.go rest o else Round.stop Parsed.refused))
address-Goes rest (ok true) o sound = (omega arith, sound)
address-Goes rest (ok false) o sound = tt
address-Goes rest (throws e) o sound = tt
address-Goes rest undefined o sound = tt

abbrev Taken : ℕ → Outcome (List Text × List Text) → Type 0
Taken n (ok (topics, left)) = length left ≤ n
Taken n (throws e) = Unit
Taken n undefined = Unit

Taken-next :
    (b : Outcome Bool) (a : Text) (rest : List Text) (m : Outcome (List Text × List Text))
    → Taken (length rest) m
    → Taken (suc (length rest)) (
        b >>= λ is_topic. elim is_topic [
          | true ↦ m >>= λ (topics, left). ok (a ∷ topics, left)
          | false ↦ ok ([], a ∷ rest)
        ])
Taken-next (ok true) a rest (ok (topics, left)) h = omega arith
Taken-next (ok true) a rest (throws e) h = tt
Taken-next (ok true) a rest undefined h = tt
Taken-next (ok false) a rest m h = omega arith
Taken-next (throws e) a rest m h = tt
Taken-next undefined a rest m h = tt

take_topics-Taken : (rest : List Text) → Taken (length rest) (take_topics rest)
unfolding take_topics
take_topics-Taken [] = omega arith
take_topics-Taken (a ∷ rest) =
    Taken-next (is_topic_argument a) a rest (take_topics rest) (take_topics-Taken rest)

Taken-Goes :
    (n : ℕ) (m : Outcome (List Text × List Text)) (f : List Text → Options)
    → ((topics : List Text) → IsSound (f topics))
    → Taken n m
    → Goes n (m >>= λ (topics, left). ok (Round.go left (f topics)))
Taken-Goes n (ok (topics, left)) f sound h = (h, sound topics)
Taken-Goes n (throws e) f sound h = tt
Taken-Goes n undefined f sound h = tt

-- A command other than `--publish` is sound whatever its arguments are.
pub other-IsSound :
    (o : Options) (c : Text)
    → o.command ≡ c
    → c ≢ []
    → c ≢ codes "--publish"
    → contains known_commands c ≡ true
    → IsSound o
other-IsSound o c e some_command other known = record {
  known = inr (rw e known);
  unused = λ h. absurd (some_command (sym e ∙ h));
  pair = λ h. absurd (other (sym e ∙ h));
}

pub topics_round-Goes :
    (subscribing : Bool) (rest : List Text) (o : Options) (c : Text)
    → o.command ≡ c
    → c ≢ []
    → c ≢ codes "--publish"
    → contains known_commands c ≡ true
    → Goes (length rest) (topics_round subscribing rest o)
unfolding topics_round
topics_round-Goes subscribing rest o c e some_command other known =
    Taken-Goes (length rest) (take_topics rest)
      (λ topics. record o {
        arguments = o.arguments ++ topics;
        has_subscribe_command =
            if subscribing && has_next topics then true else o.has_subscribe_command;
      })
      (λ topics. other-IsSound _ c e some_command other known) (take_topics-Taken rest)

pub publish_round-Goes :
    (rest : List Text) (o : Options)
    → o.command ≢ []
    → (o.command ≡ []) ⊎ (contains known_commands o.command ≡ true)
    → o.arguments ≡ []
    → Goes (length rest) (ok (publish_round rest o))
unfolding publish_round
publish_round-Goes [] o _ _ _ = tt
publish_round-Goes (a ∷ []) o _ _ _ = tt
publish_round-Goes (a ∷ b ∷ left) o some_command known none_yet = (
  omega arith,
  record { known = known; unused = λ h. absurd (some_command h); pair = λ h. rw none_yet refl },
)
