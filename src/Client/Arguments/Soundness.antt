-- ===== src/Client/Arguments/Soundness.antt =====
-- The loop over the arguments ends, with options that fit.
use verteilte_systeme_bbps.Prelude.{
  subst, ℕ, zero, suc, ◌≤◌, ◌≡◌, ◌≢◌, refl, sym, ap, ◌∙◌, ◌⊎◌, Bool, true, false, ◌&&◌, not,
  Bool-cases, inl, inr, List, [], ◌∷◌, length, Option, none, some, Text, codes, int_eq, nat_eq,
  text_eq, ◌==◌, ==_iff, contains, Outcome, ok, throws, undefined, ◌>>=◌, arith,
}
use verteilte_systeme_bbps.Client.Arguments.{
  Options, Parsed, Round, default_options, with_command, has_next, has_two, command_round,
  plain_round, port_round, address_round, server_port_round, round, parse_from, parse,
}
use verteilte_systeme_bbps.Client.Address.{get_port_number, is_valid_ipv4_address}
use verteilte_systeme_bbps.Client.Arguments.Rounds.{
  known_commands, IsSound, Goes, Goes-if, other-IsSound, setting-Goes, address-Goes,
  topics_round-Goes, publish_round-Goes,
}

both_left : (a b : Bool) → (a && b) ≡ true → a ≡ true
both_left true b h = refl
both_left false b h = cc

both_right : (a b : Bool) → (a && b) ≡ true → b ≡ true
both_right true b h = h
both_right false b h = cc

not_next : (xs : List Text) → not (has_next xs) ≡ true → xs ≡ []
not_next [] h = refl
not_next (x ∷ xs) h = cc

-- The command is the one that is tested.
tested :
    (arg c : Text) (o : Options)
    → arg ≡ c
    → (arg == (with_command arg o).command) ≡ true
    → (with_command arg o).command ≡ c
tested arg c o is same = sym ((==_iff arg (with_command arg o).command).0 same) ∙ is

with_command-ne-nil : (arg : Text) (o : Options) → arg ≢ [] → (with_command arg o).command ≢ []
with_command-ne-nil arg o h = ground arith

with_command-known :
    (arg : Text) (o : Options)
    → contains known_commands arg ≡ true
    → IsSound o
    → ((with_command arg o).command ≡ [])
      ⊎ (contains known_commands (with_command arg o).command ≡ true)
with_command-known arg o known sound = elim (Bool-cases (o.command == [])) [
  | inl first ↦ rw first (inr known)
  | inr later ↦ rw later sound.known
]

command_round-Goes :
    (arg : Text) (rest : List Text) (o : Options)
    → IsSound o
    → Goes (length rest) (command_round arg rest o)
unfolding command_round text_eq
command_round-Goes arg rest o sound =
    let o' = with_command arg o in
    let same = arg == o'.command in
    let subscribes = arg == codes "--subscribe" in
    let publishes = arg == codes "--publish" in
    let lists = arg == codes "--list-topics" in
    let asks = arg == codes "--get-topic-status" in
    Goes-if _ (subscribes && same && has_next rest) _ _
      (λ h.
        let is =
          (==_iff arg (codes "--subscribe")).0
            (both_left subscribes same (both_left (subscribes && same) (has_next rest) h)) in
        topics_round-Goes true rest o' (codes "--subscribe")
          (tested arg (codes "--subscribe") o is
            (both_right subscribes same (both_left (subscribes && same) (has_next rest) h)))
          (λ e. cc) (λ e. ground arith) refl)
      (λ _.
        Goes-if _ (publishes && not (has_next o'.arguments) && has_two rest) _ _
          (λ h.
            let first_two = both_left (publishes && not (has_next o'.arguments)) (has_two rest) h in
            let is =
              (==_iff arg (codes "--publish")).0
                (both_left publishes (not (has_next o'.arguments)) first_two) in
            publish_round-Goes rest o' (with_command-ne-nil arg o (λ e. cc))
              (with_command-known arg o (rw is refl) sound)
              (not_next o'.arguments
                (both_right publishes (not (has_next o'.arguments)) first_two)))
          (λ _.
            Goes-if _ (lists && same) _ _
              (λ h. (
                omega arith,
                other-IsSound o' (codes "--list-topics")
                    (tested arg (codes "--list-topics") o
                      ((==_iff arg (codes "--list-topics")).0 (both_left lists same h))
                      (both_right lists same h))
                    (λ e. cc) (λ e. ground arith) refl,
              ))
              (λ _.
                Goes-if _ (asks && same && has_next rest) _ _
                  (λ h.
                    let is =
                      (==_iff arg (codes "--get-topic-status")).0
                        (both_left asks same (both_left (asks && same) (has_next rest) h)) in
                    topics_round-Goes false rest o' (codes "--get-topic-status")
                      (tested arg (codes "--get-topic-status") o is
                        (both_right asks same (both_left (asks && same) (has_next rest) h)))
                      (λ e. cc) (λ e. ground arith) refl)
                  (λ _. tt))))

plain_round-Goes :
    (arg : Text) (rest : List Text) (o : Options)
    → IsSound o
    → Goes (length rest) (plain_round arg rest o)
unfolding plain_round
plain_round-Goes arg rest o sound =
    Goes-if _ (arg == codes "--help") _ _ (λ _. tt)
      (λ _.
        Goes-if _ (arg == codes "--debug") _ _ (λ _. (omega arith, sound))
          (λ _. command_round-Goes arg rest o sound))

-- The command and its arguments are what is looked at.
same-IsSound :
    (o o' : Options) → o'.command ≡ o.command → o'.arguments ≡ o.arguments → IsSound o → IsSound o'
same-IsSound o o' e f sound = record {
  known = rw e sound.known;
  unused = λ h. f ∙ sound.unused (sym e ∙ h);
  pair = λ h. ap length f ∙ sound.pair (sym e ∙ h);
}

round-Goes :
    (arg : Text) (rest : List Text) (o : Options)
    → IsSound o
    → Goes (length rest) (round arg rest o)
unfolding round port_round address_round server_port_round
round-Goes arg [] o sound = plain_round-Goes arg [] o sound
round-Goes arg (value ∷ rest) o sound =
    Goes-if _ (arg == codes "--port") _ _
      (λ _.
        setting-Goes rest (get_port_number value) (λ port. record o { port = port })
          (λ port. same-IsSound o (record o { port = port }) refl refl sound))
      (λ _.
        Goes-if _ (arg == codes "--server-address") _ _
          (λ _.
            address-Goes rest (is_valid_ipv4_address value) (record o { server_address = value })
              (same-IsSound o (record o { server_address = value }) refl refl sound))
          (λ _.
            Goes-if _ (arg == codes "--server-port") _ _
              (λ _.
                setting-Goes rest (get_port_number value) (λ port. record o { server_port = port })
                  (λ port. same-IsSound o (record o { server_port = port }) refl refl sound))
              (λ _. plain_round-Goes arg (value ∷ rest) o sound)))

-- How the loop can end.
abbrev pub EndsSoundly : Outcome (Option Parsed) → Type 0
EndsSoundly (ok none) = ⊥
EndsSoundly (ok (some (Parsed.start o))) = IsSound o
EndsSoundly (ok (some Parsed.help)) = Unit
EndsSoundly (ok (some Parsed.refused)) = Unit
EndsSoundly (throws e) = Unit
EndsSoundly undefined = Unit

next-EndsSoundly :
    (n fuel : ℕ) (r : Outcome Round)
    → n ≤ fuel
    → ((left : List Text) (o : Options)
        → length left ≤ fuel
        → IsSound o
        → EndsSoundly (parse_from fuel left o))
    → Goes n r
    → EndsSoundly (
        r >>= λ next. elim next [
          | Round.go left o ↦ parse_from fuel left o
          | Round.stop parsed ↦ ok (some parsed)
        ])
next-EndsSoundly n fuel (ok (Round.go left o)) le ih h = ih left o (omega arith) h.1
next-EndsSoundly n fuel (ok (Round.stop (Parsed.start o))) le ih h = absurd h
next-EndsSoundly n fuel (ok (Round.stop Parsed.help)) le ih h = tt
next-EndsSoundly n fuel (ok (Round.stop Parsed.refused)) le ih h = tt
next-EndsSoundly n fuel (throws x) le ih h = tt
next-EndsSoundly n fuel undefined le ih h = tt

parse_from-EndsSoundly :
    (fuel : ℕ) (args : List Text) (o : Options)
    → length args ≤ fuel
    → IsSound o
    → EndsSoundly (parse_from fuel args o)
unfolding parse_from
parse_from-EndsSoundly zero [] o h sound = sound
parse_from-EndsSoundly (suc fuel) [] o h sound = sound
parse_from-EndsSoundly zero (arg ∷ rest) o h sound = absurd (omega arith)
parse_from-EndsSoundly (suc fuel) (arg ∷ rest) o h sound =
    next-EndsSoundly (length rest) fuel (round arg rest o) (omega arith)
      (λ left o' le sound'. parse_from-EndsSoundly fuel left o' le sound')
      (round-Goes arg rest o sound)

default-IsSound : IsSound default_options
default-IsSound = record { known = inl refl; unused = λ _. refl; pair = λ e. cc }

parse-EndsSoundly : (args : List Text) → EndsSoundly (parse args)
unfolding parse
parse-EndsSoundly args =
    parse_from-EndsSoundly (length args) args default_options (omega arith) default-IsSound

-- The loop of the client's `main` ends after at most as many rounds as there are arguments: with so
-- much fuel, it is never used up.
pub parse_ends : (args : List Text) → parse args ≢ ok none
parse_ends args e = subst EndsSoundly e (parse-EndsSoundly args)

-- If the client's `main` accepts its arguments, then its command is empty or one of the four,
-- without a command there are no arguments for it, and to publish there are two, so that `front`
-- and `back` are there.
pub parse-IsSound :
    (args : List Text) (o : Options) → parse args ≡ ok (some (Parsed.start o)) → IsSound o
parse-IsSound args o e = subst EndsSoundly e (parse-EndsSoundly args)
