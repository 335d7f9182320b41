-- ===== src/Protocol/Command/Reading.antt =====
-- What every command is like that is read.
use verteilte_systeme_bbps.Prelude.{
  throws-ne-ok, ok-injective, bind-ok, ◌≡◌, ◌≢◌, refl, sym, ap, ◌∙◌, subst, true, false, Bool,
  Bool-cases, inl, inr, List, [], ◌∷◌, length, All, Text, codes, ℤ, ◌==◌, text_eq, contains,
  if◌then◌else◌, Outcome, ok, ◌>>=◌, Option-cases, arith,
}
use verteilte_systeme_bbps.Protocol.Identifiers.{
  CommandIdentifiers, CommunicationParameters, parameter_eq, command_of_int,
  string_to_communication_parameter,
}
use verteilte_systeme_bbps.Protocol.Json.{Json, IsLawful}
use verteilte_systeme_bbps.Protocol.Command.{
  Command, new_command, command_dictionary, set_command_argument, set_arguments, all_set, is_valid,
  command_of_value, deserialize,
}
use verteilte_systeme_bbps.Protocol.Command.Defined.{
  IsShaped, set_command_argument-IsShaped, new_command-IsShaped,
}
use verteilte_systeme_bbps.Protocol.Command.RoundTrip.{
  filled, Sent, ReadsBack, IsFilled, deserialize-serialize,
}

-- It has the arguments that its identifier asks for, with a place for each.
abbrev IsOf : CommandIdentifiers → Command → Type 0
IsOf id c =
    (c.command_identifier ≡ id)
    × (c.available_command_arguments ≡ command_dictionary id)
    × IsShaped c

new_command-IsOf : (id : CommandIdentifiers) → IsOf id (new_command id)
unfolding new_command
new_command-IsOf id = (refl, refl, new_command-IsShaped id)

set_command_argument-IsOf :
    (id : CommandIdentifiers) (name : CommunicationParameters) (t : Text) (c : Command)
    → IsOf id c
    → IsOf id (set_command_argument name t c).1
unfolding set_command_argument
set_command_argument-IsOf id name t c (same, available, shaped) =
    let shaped' = set_command_argument-IsShaped name t c shaped in
    elim (Bool-cases (contains c.available_command_arguments name)) [
      | inl there ↦ (rw there same, rw there available, shaped')
      | inr missing ↦ (rw missing same, rw missing available, shaped')
    ]

true-ne-false : true ≢ false
true-ne-false e = cc

all_set-All : (ts : List Text) → all_set ts ≡ true → All (λ t. t ≢ []) ts
unfolding all_set
all_set-All [] h = tt
all_set-All (t ∷ ts) h = elim (Bool-cases (t == [])) [
  | inl empty ↦ absurd (true-ne-false (sym (rw empty at h)))
  | inr some_text ↦
      ((λ e. true-ne-false (ground (arith, e, some_text))), all_set-All ts (rw some_text at h))
]

if_ok {ℓ} :
    {A : Type ℓ} (b : Bool) (m m' : Outcome A) (a : A)
    → ((a : A) → m' ≢ ok a)
    → (if b then m else m') ≡ ok a
    → (b ≡ true) × (m ≡ ok a)
if_ok true m m' a h e = (refl, e)
if_ok false m m' a h e = absurd (h a e)

module _ (J : Json) where
  set_arguments-IsOf :
      (id : CommandIdentifiers) (arguments : J.Value) (keys : List Text) (c c' : Command)
      → IsOf id c
      → set_arguments J arguments keys c ≡ ok c'
      → IsOf id c'
  unfolding set_arguments
  set_arguments-IsOf id arguments [] c c' h e = subst (IsOf id) (ok-injective c c' e) h
  set_arguments-IsOf id arguments (key ∷ keys) c c' h e =
      let name = string_to_communication_parameter key in
      let (t, _, f) = bind-ok (J.member arguments key >>= J.as_string) _ c' e in
      let (_, g) = if_ok (set_command_argument name t c).0 _ _ c' (λ d k. cc) f in
      set_arguments-IsOf id arguments keys (set_command_argument name t c).1 c'
        (set_command_argument-IsOf id name t c h) g

  command_of_value-IsOf :
      (root : J.Value) (c : Command)
      → command_of_value J root ≡ ok c
      → (id : CommandIdentifiers) × IsOf id c × (is_valid c ≡ true)
  unfolding command_of_value
  command_of_value-IsOf root c e =
      let (has_command, _, e1) = bind-ok (J.is_member root (codes "command")) _ c e in
      let (complete, _, e2) =
        bind-ok (if has_command then J.is_member root (codes "arguments") else ok false) _ c e1 in
      let (_, e3) = if_ok complete _ _ c (λ d k. cc) e2 in
      let (identifier, _, e4) = bind-ok (J.member root (codes "command")) _ c e3 in
      let (n, _, e5) = bind-ok (J.as_int identifier) _ c e4 in
      let (arguments, _, e6) = bind-ok (J.member root (codes "arguments")) _ c e5 in
      let (keys, _, e7) = bind-ok (J.member_names arguments) _ c e6 in
      let (d, set, e8) =
        bind-ok (set_arguments J arguments keys (new_command (command_of_int n))) _ c e7 in
      let (valid, e9) = if_ok (is_valid d) _ _ c (λ d k. cc) e8 in
      let same = ok-injective d c e9 in
      let id = command_of_int n in
      (
        id,
        subst (IsOf id) same
            (set_arguments-IsOf id arguments keys (new_command id) d (new_command-IsOf id) set),
        ap is_valid (sym same) ∙ valid,
      )

module _ (J : Json) (L : IsLawful J) where
  length-IsFilled :
      (id : CommandIdentifiers) (texts : List Text)
      → ((n : ℤ) → id ≢ CommandIdentifiers.unnamed n)
      → length texts ≡ length (command_dictionary id)
      → IsFilled J L id texts
  unfolding command_dictionary
  length-IsFilled CommandIdentifiers.subscribe (a ∷ b ∷ []) named h = IsFilled.subscribe_filled a b
  length-IsFilled CommandIdentifiers.unsubscribe (a ∷ b ∷ []) named h =
      IsFilled.unsubscribe_filled a b
  length-IsFilled CommandIdentifiers.publish (a ∷ b ∷ []) named h = IsFilled.publish_filled a b
  length-IsFilled CommandIdentifiers.list_topics [] named h = IsFilled.list_topics_filled
  length-IsFilled CommandIdentifiers.get_topic_status (a ∷ []) named h =
      IsFilled.get_topic_status_filled a
  length-IsFilled (CommandIdentifiers.unnamed n) texts named h = absurd (named n refl)
  length-IsFilled CommandIdentifiers.subscribe [] named h = absurd (omega arith)
  length-IsFilled CommandIdentifiers.subscribe (a ∷ []) named h = absurd (omega arith)
  length-IsFilled CommandIdentifiers.subscribe (a ∷ b ∷ c ∷ ts) named h = absurd (omega arith)
  length-IsFilled CommandIdentifiers.unsubscribe [] named h = absurd (omega arith)
  length-IsFilled CommandIdentifiers.unsubscribe (a ∷ []) named h = absurd (omega arith)
  length-IsFilled CommandIdentifiers.unsubscribe (a ∷ b ∷ c ∷ ts) named h = absurd (omega arith)
  length-IsFilled CommandIdentifiers.publish [] named h = absurd (omega arith)
  length-IsFilled CommandIdentifiers.publish (a ∷ []) named h = absurd (omega arith)
  length-IsFilled CommandIdentifiers.publish (a ∷ b ∷ c ∷ ts) named h = absurd (omega arith)
  length-IsFilled CommandIdentifiers.list_topics (a ∷ ts) named h = absurd (omega arith)
  length-IsFilled CommandIdentifiers.get_topic_status [] named h = absurd (omega arith)
  length-IsFilled CommandIdentifiers.get_topic_status (a ∷ b ∷ ts) named h = absurd (omega arith)

  All-Sent :
      (texts : List Text) → All (λ t. t ≢ []) texts → All L.IsPlain texts → All (Sent J L) texts
  All-Sent [] _ _ = tt
  All-Sent (t ∷ ts) (a, h) (b, k) = ((a, b), All-Sent ts h k)

  -- If the JSON library is lawful, bytes are read as a command whose identifier is one of the
  -- five, and the library carries its arguments: the command has the arguments that its
  -- identifier asks for, none of them is empty, it is written, and what was written is read back
  -- as the same command.
  pub deserialize-ReadsBack :
      (s : Text) (c : Command)
      → deserialize J s ≡ ok c
      → ((n : ℤ) → c.command_identifier ≢ CommandIdentifiers.unnamed n)
      → All L.IsPlain c.command_arguments
      → (c.available_command_arguments ≡ command_dictionary c.command_identifier)
        × All (λ t. t ≢ []) c.command_arguments
        × ReadsBack J L c
  unfolding deserialize is_valid
  deserialize-ReadsBack s c e named plain =
      let (parsed, read, e') = bind-ok (J.parse s) _ c e in
      elim (Option-cases parsed) [
        | inl garbage ↦ absurd (throws-ne-ok _ c (rw garbage at e'))
        | inr (root, there) ↦
            let (id, (same, available, shaped), valid) =
              command_of_value-IsOf J root c (rw there at e') in
            let texts = c.command_arguments in
            let own : c.available_command_arguments ≡ command_dictionary c.command_identifier =
              available ∙ ap command_dictionary (sym same) in
            let some_text = all_set-All texts valid in
            let whole : filled c.command_identifier texts ≡ c =
              ap
                (λ names. record {
                  command_identifier = c.command_identifier;
                  available_command_arguments = names;
                  command_arguments = texts;
                })
                (sym own) in
            (
              own,
              some_text,
              subst (ReadsBack J L) whole (
                  deserialize-serialize J L c.command_identifier texts
                    (length-IsFilled c.command_identifier texts named (shaped ∙ ap length own))
                    (All-Sent texts some_text plain)),
            )
      ]
