-- ===== src/Protocol/Command/Documents.antt =====
-- How `Command::deserialize` reads the documents that `Command::serialize` writes: their members, and
-- the loop over the arguments.
use verteilte_systeme_bbps.Prelude.{
  ℕ, ◌<◌, ◌^◌, ◌≡◌, refl, true, false, [], ◌∷◌, Text, codes, ◌==◌, ==_self, text_eq, nat_eq,
  if◌then◌else◌, Outcome, ok, throws, runtime_error, ◌>>=◌, pos, arith, All,
}
use verteilte_systeme_bbps.Protocol.Identifiers.{
  parameter_eq, command_of_int, string_to_communication_parameter,
}
use verteilte_systeme_bbps.Protocol.Json.{Json, IsLawful, insert_name}
use verteilte_systeme_bbps.Protocol.Command.{
  Command, new_command, set_command_argument, is_valid, set_arguments, command_of_value,
}

abbrev pub missing : Outcome Command
missing = throws (runtime_error (codes "Command is not valid, there are missing arguments."))

module _ (J : Json) (L : IsLawful J) where
  open J use {Value, null, of_text, of_int, assign, is_member, member, member_names}

  abbrev pub document : ℕ → Value → Value
  document n arguments =
      assign (assign null (codes "command") (of_int (pos n))) (codes "arguments") arguments

  key_plain : (k : Text) → All (λ c. c < 128) k → L.IsPlain k
  key_plain = L.ascii-IsPlain

  head_object : (n : ℕ) → L.IsObject (assign null (codes "command") (of_int (pos n)))
  head_object n =
      L.assign-IsObject null (codes "command") _ L.null-IsObject
        (key_plain (codes "command") (omega arith))

  -- Both members are found, and the arguments are set one after the other.
  pub command_of_value-document :
      (n : ℕ) (arguments : Value)
      → n < 2 ^ 31
      → command_of_value J (L.reread (document n arguments)) ≡ (
          member_names (L.reread arguments) >>= λ keys.
          set_arguments J (L.reread arguments) keys (new_command (command_of_int (pos n))) >>= λ c.
          if is_valid c then ok c else missing)
  unfolding command_of_value text_eq
  command_of_value-document n arguments small =
      let args : Text = codes "arguments" in
      let plain = key_plain args (omega arith) in
      let plain' = key_plain (codes "command") (omega arith) in
      rw
        (
          L.is_member-assign _ args arguments (codes "command") (head_object n) plain,
          L.is_member-assign null (codes "command") _ (codes "command") L.null-IsObject plain',
          L.is_member-assign _ args arguments args (head_object n) plain,
          L.member-assign _ args arguments (codes "command") (head_object n) plain,
          L.member-assign null (codes "command") (of_int (pos n)) (codes "command") L.null-IsObject
              plain',
          L.as_int-int n small,
          L.member-assign _ args arguments args (head_object n) plain,
        )
        refl

  abbrev pub one_argument : Text → Text → Value
  one_argument k a = assign null k (of_text a)

  abbrev pub two_arguments : Text → Text → Text → Text → Value
  two_arguments k a j b = assign (one_argument k a) j (of_text b)

  find_one :
      (k a : Text)
      → L.IsPlain k
      → L.IsPlain a
      → (member (L.reread (one_argument k a)) k >>= J.as_string) ≡ ok a
  find_one k a plain plain_a =
      rw (L.member-assign null k (of_text a) k L.null-IsObject plain)
        (rw (==_self k) (L.as_string-text a plain_a))

  find_first :
      (k a j b : Text)
      → L.IsPlain k
      → L.IsPlain j
      → L.IsPlain a
      → (k == j) ≡ false
      → (member (L.reread (two_arguments k a j b)) k >>= J.as_string) ≡ ok a
  find_first k a j b plain plain' plain_a differ =
      rw
        (L.member-assign (one_argument k a) j (of_text b) k
          (L.assign-IsObject null k (of_text a) L.null-IsObject plain) plain')
        (rw differ (
          rw (L.member-assign null k (of_text a) k L.null-IsObject plain)
            (rw (==_self k) (L.as_string-text a plain_a))))

  find_second :
      (k a j b : Text)
      → L.IsPlain k
      → L.IsPlain j
      → L.IsPlain b
      → (member (L.reread (two_arguments k a j b)) j >>= J.as_string) ≡ ok b
  find_second k a j b plain plain' plain_b =
      rw
        (L.member-assign (one_argument k a) j (of_text b) j
          (L.assign-IsObject null k (of_text a) L.null-IsObject plain) plain')
        (rw (==_self j) (L.as_string-text b plain_b))

  -- The loop over the keys of an object with one member.
  pub set_arguments-one :
      (k a : Text) (c : Command)
      → L.IsPlain k
      → L.IsPlain a
      → (member_names (L.reread (one_argument k a)) >>= λ keys.
          set_arguments J (L.reread (one_argument k a)) keys c)
        ≡ (let (done, c') = set_command_argument (string_to_communication_parameter k) a c in
            if done then ok c' else throws (runtime_error (codes "Failed to set command argument")))
  unfolding set_arguments
  set_arguments-one k a c plain plain_a =
      rw (L.member_names-assign null k (of_text a) L.null-IsObject plain, L.member_names-null)
        (rw (find_one k a plain plain_a) refl)

  -- The loop over the keys of an object with two members, which come in the order of their names.
  pub set_arguments-two :
      (k a j b : Text) (c : Command)
      → L.IsPlain k
      → L.IsPlain a
      → L.IsPlain j
      → L.IsPlain b
      → (k == j) ≡ false
      → (member_names (L.reread (two_arguments k a j b)) >>= λ keys.
          set_arguments J (L.reread (two_arguments k a j b)) keys c)
        ≡ set_arguments J (L.reread (two_arguments k a j b)) (insert_name j (k ∷ [])) c
  set_arguments-two k a j b c plain plain_a plain' plain_b differ =
      rw
        (L.member_names-assign (one_argument k a) j (of_text b)
          (L.assign-IsObject null k (of_text a) L.null-IsObject plain) plain')
        (rw (L.member_names-assign null k (of_text a) L.null-IsObject plain, L.member_names-null)
          refl)

  -- The two rounds of that loop.
  pub set_arguments-rounds :
      (k a j b : Text) (c c' c'' : Command)
      → L.IsPlain k
      → L.IsPlain a
      → L.IsPlain j
      → L.IsPlain b
      → (k == j) ≡ false
      → set_command_argument (string_to_communication_parameter j) b c ≡ (true, c')
      → set_command_argument (string_to_communication_parameter k) a c' ≡ (true, c'')
      → set_arguments J (L.reread (two_arguments k a j b)) (j ∷ k ∷ []) c ≡ ok c''
  unfolding set_arguments
  set_arguments-rounds k a j b c c' c'' plain plain_a plain' plain_b differ first second =
      rw (find_second k a j b plain plain' plain_b)
        (rw (first, find_first k a j b plain plain' plain_a differ) (rw second refl))
