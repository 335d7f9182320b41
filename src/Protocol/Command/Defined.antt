-- ===== src/Protocol/Command/Defined.antt =====
-- Reading a command returns or throws, and gives each of its arguments a place.
use verteilte_systeme_bbps.Prelude.{
  ℕ, zero, suc, ◌<◌, ◌≡◌, refl, ap, ◌∙◌, true, false, Bool-cases, Option-cases, inl, inr, List, [],
  ◌∷◌, map, get_elem?, set, length, some, Text, codes, contains, ◌==◌, if◌then◌else◌, ok, throws,
  ◌>>=◌, Gives, Gives-bind, Gives-if, IsDefined, runtime_error, arith,
}
use verteilte_systeme_bbps.Protocol.Identifiers.{
  CommandIdentifiers, CommunicationParameters, parameter_eq, command_of_int,
  string_to_communication_parameter,
}
use verteilte_systeme_bbps.Protocol.Json.{Json}
use verteilte_systeme_bbps.Protocol.Command.{
  Command, new_command, command_dictionary, set_command_argument, get_command_argument,
  set_arguments, is_valid, command_of_value, deserialize,
}
use verteilte_systeme_bbps.Protocol.Response.{index_of}

-- The library's calls return or throw.
pub record IsTotal (J : Json) : Type 0 where
  pub is_member : (v : J.Value) (k : Text) → IsDefined (J.is_member v k)
  pub member : (v : J.Value) (k : Text) → IsDefined (J.member v k)
  pub member_names : (v : J.Value) → IsDefined (J.member_names v)
  pub as_string : (v : J.Value) → IsDefined (J.as_string v)
  pub as_int : (v : J.Value) → IsDefined (J.as_int v)
  pub parse : (s : Text) → IsDefined (J.parse s)

-- There is a place for every argument of the command.
abbrev pub IsShaped : Command → Type 0
IsShaped c = length c.command_arguments ≡ length c.available_command_arguments

length-set {ℓ} : {A : Type ℓ} (xs : List A) (i : ℕ) (a : A) → length (set xs i a) ≡ length xs
length-set [] i a = refl
length-set (x ∷ xs) zero a = refl
length-set (x ∷ xs) (suc i) a = ap suc (length-set xs i a)

length-map {ℓ κ} :
    {A : Type ℓ} {B : Type κ} (f : A → B) (xs : List A) → length (map f xs) ≡ length xs
length-map f [] = refl
length-map f (x ∷ xs) = ap suc (length-map f xs)

pub set_command_argument-IsShaped :
    (name : CommunicationParameters) (t : Text) (c : Command)
    → IsShaped c
    → IsShaped (set_command_argument name t c).1
unfolding set_command_argument
set_command_argument-IsShaped name t c h =
    elim (Bool-cases (contains c.available_command_arguments name)) [
      | inl there ↦
          rw there
            (length-set c.command_arguments (index_of name c.available_command_arguments) t ∙ h)
      | inr missing ↦ rw missing h
    ]

get_elem?-some {ℓ} :
    {A : Type ℓ} (xs : List A) (i : ℕ) → i < length xs → (a : A) × (get_elem? xs i ≡ some a)
get_elem?-some [] i h = absurd (omega arith)
get_elem?-some (x ∷ xs) zero h = (x, refl)
get_elem?-some (x ∷ xs) (suc i) h = get_elem?-some xs i (omega arith)

index_of-contains :
    (name : CommunicationParameters) (xs : List CommunicationParameters)
    → contains xs name ≡ true
    → index_of name xs < length xs
unfolding index_of
index_of-contains name [] h = cc
index_of-contains name (x ∷ xs) h = elim (Bool-cases (x == name)) [
  | inl hit ↦ rw hit (omega arith)
  | inr miss ↦ rw miss (
      let later : contains xs name ≡ true = ground arith in
      let inside = index_of-contains name xs later in omega (arith, inside))
]

pub get_command_argument-IsDefined :
    (name : CommunicationParameters) (c : Command)
    → IsShaped c
    → IsDefined (get_command_argument name c)
unfolding get_command_argument
get_command_argument-IsDefined name c h =
    elim (Bool-cases (contains c.available_command_arguments name)) [
      | inl there ↦
          let inside = index_of-contains name c.available_command_arguments there in
          let (t, e) =
            get_elem?-some c.command_arguments (index_of name c.available_command_arguments)
              (omega (arith, inside, h)) in
          rw there (rw e tt)
      | inr missing ↦ rw missing tt
    ]

pub new_command-IsShaped : (id : CommandIdentifiers) → IsShaped (new_command id)
unfolding new_command
new_command-IsShaped id = length-map _ (command_dictionary id)

module _ (J : Json) (total : IsTotal J) where
  set_arguments-IsShaped :
      (arguments : J.Value) (keys : List Text) (c : Command)
      → IsShaped c
      → Gives IsShaped (set_arguments J arguments keys c)
  unfolding set_arguments
  set_arguments-IsShaped arguments [] c h = h
  set_arguments-IsShaped arguments (key ∷ keys) c h =
      Gives-bind (λ _. Unit) IsShaped (J.member arguments key >>= J.as_string) _
        (Gives-bind (λ _. Unit) (λ _. Unit) (J.member arguments key) J.as_string
          (total.member arguments key) (λ v _. total.as_string v))
        λ t _.
          Gives-if IsShaped (set_command_argument (string_to_communication_parameter key) t c).0 _ _
            (set_arguments-IsShaped arguments keys _
              (set_command_argument-IsShaped (string_to_communication_parameter key) t c h))
            tt

  -- Where both members are there.
  arguments_read :
      (root : J.Value)
      → Gives IsShaped (do
        identifier ← J.member root (codes "command")
        n ← J.as_int identifier
        arguments ← J.member root (codes "arguments")
        keys ← J.member_names arguments
        c ← set_arguments J arguments keys (new_command (command_of_int n))
        if is_valid c
            then ok c
            else throws
                (runtime_error (codes "Command is not valid, there are missing arguments.")))
  arguments_read root =
      Gives-bind (λ _. Unit) IsShaped (J.member root (codes "command")) _
        (total.member root (codes "command"))
        λ identifier _.
          Gives-bind (λ _. Unit) IsShaped (J.as_int identifier) _ (total.as_int identifier)
            λ n _.
              Gives-bind (λ _. Unit) IsShaped (J.member root (codes "arguments")) _
                (total.member root (codes "arguments"))
                λ arguments _.
                  Gives-bind (λ _. Unit) IsShaped (J.member_names arguments) _
                    (total.member_names arguments)
                    λ keys _.
                      Gives-bind IsShaped IsShaped
                        (set_arguments J arguments keys (new_command (command_of_int n))) _
                        (set_arguments-IsShaped arguments keys _
                          (new_command-IsShaped (command_of_int n)))
                        λ c h. Gives-if IsShaped (is_valid c) (ok c) _ h tt

  command_of_value-IsShaped : (root : J.Value) → Gives IsShaped (command_of_value J root)
  unfolding command_of_value
  command_of_value-IsShaped root =
      Gives-bind (λ _. Unit) IsShaped (J.is_member root (codes "command")) _
        (total.is_member root (codes "command"))
        λ has_command _.
          Gives-bind (λ _. Unit) IsShaped
            (if has_command then J.is_member root (codes "arguments") else ok false) _
            (Gives-if (λ _. Unit) has_command (J.is_member root (codes "arguments")) (ok false)
              (total.is_member root (codes "arguments")) tt)
            λ complete _. Gives-if IsShaped complete _ _ (arguments_read root) tt

  pub deserialize-IsShaped : (s : Text) → Gives IsShaped (deserialize J s)
  unfolding deserialize
  deserialize-IsShaped s =
      Gives-bind (λ _. Unit) IsShaped (J.parse s) _ (total.parse s)
        λ parsed _. elim (Option-cases parsed) [
          | inl e ↦ rw e tt
          | inr (root, e) ↦ rw e (command_of_value-IsShaped root)
        ]
