-- ===== src/Tests/Documents.antt =====
-- A JSON library that keeps the laws of Protocol/Json. Objects are kept as the assignments that made
-- them, and a value is written as instructions for a stack.
use verteilte_systeme_bbps.Prelude.{
  zero, suc, map, All, ◌≢◌, arith, ℕ, ◌≡◌, refl, ap, sym, ◌∙◌, Bool, true, false, List, [], ◌∷◌,
  ◌++◌, list_laws, append-nil, Option, none, some, Text, ℤ, pos, negsuc, ◌==◌, text_eq, nat_eq,
  if◌then◌else◌, Outcome, ok, throws, json_error, ◌>>=◌,
}
use verteilte_systeme_bbps.Std.Decimal.{to_string, to_string_ℕ}
use verteilte_systeme_bbps.Protocol.Json.{Json, IsLawful, insert_name}

pub data Tree : Type 0 where
  null : Tree
  text : Text → Tree
  int : ℤ → Tree
  uint64 : ℕ → Tree
  assigned : Tree → Text → Tree → Tree

abbrev pub tree_is_member : Tree → Text → Outcome Bool
tree_is_member Tree.null j = ok false
tree_is_member (Tree.text s) j = throws json_error
tree_is_member (Tree.int z) j = throws json_error
tree_is_member (Tree.uint64 n) j = throws json_error
tree_is_member (Tree.assigned v k a) j = if j == k then ok true else tree_is_member v j

abbrev pub tree_member : Tree → Text → Outcome Tree
tree_member Tree.null j = ok Tree.null
tree_member (Tree.text s) j = throws json_error
tree_member (Tree.int z) j = throws json_error
tree_member (Tree.uint64 n) j = throws json_error
tree_member (Tree.assigned v k a) j = if j == k then ok a else tree_member v j

abbrev pub tree_member_names : Tree → Outcome (List Text)
tree_member_names Tree.null = ok []
tree_member_names (Tree.text s) = throws json_error
tree_member_names (Tree.int z) = throws json_error
tree_member_names (Tree.uint64 n) = throws json_error
tree_member_names (Tree.assigned v k a) = tree_member_names v >>= λ ks. ok (insert_name k ks)

abbrev pub tree_as_string : Tree → Outcome Text
tree_as_string Tree.null = ok []
tree_as_string (Tree.text s) = ok s
tree_as_string (Tree.int z) = ok (to_string z)
tree_as_string (Tree.uint64 n) = ok (to_string_ℕ n)
tree_as_string (Tree.assigned v k a) = throws json_error

abbrev pub tree_as_int : Tree → Outcome ℤ
tree_as_int Tree.null = ok (pos 0)
tree_as_int (Tree.text s) = throws json_error
tree_as_int (Tree.int z) = ok z
tree_as_int (Tree.uint64 n) = ok (pos n)
tree_as_int (Tree.assigned v k a) = throws json_error

abbrev pub write_text : Text → Text
write_text [] = 1 ∷ 0 ∷ []
write_text (c ∷ s) = write_text s ++ 2 ∷ c ∷ []

abbrev pub write_tree : Tree → Text
write_tree Tree.null = 0 ∷ 0 ∷ []
write_tree (Tree.text s) = write_text s
write_tree (Tree.int (pos n)) = 4 ∷ n ∷ []
write_tree (Tree.int (negsuc n)) = 5 ∷ n ∷ []
write_tree (Tree.uint64 n) = 6 ∷ n ∷ []
write_tree (Tree.assigned v k a) = write_tree v ++ write_text k ++ write_tree a ++ 3 ∷ 0 ∷ []

abbrev add_code : ℕ → List Tree → List Tree
add_code c (Tree.text s ∷ stack) = Tree.text (c ∷ s) ∷ stack
add_code c stack = stack

abbrev add_member : List Tree → List Tree
add_member (a ∷ Tree.text k ∷ v ∷ stack) = Tree.assigned v k a ∷ stack
add_member stack = stack

abbrev run_one : ℕ → ℕ → List Tree → List Tree
run_one code n stack =
    if code == 0
    then Tree.null ∷ stack
    else if code == 1
    then Tree.text [] ∷ stack
    else if code == 2
    then add_code n stack
    else if code == 3
    then add_member stack
    else if code == 4
    then Tree.int (pos n) ∷ stack
    else if code == 5
    then Tree.int (negsuc n) ∷ stack
    else Tree.uint64 n ∷ stack

abbrev run : Text → List Tree → List Tree
run [] stack = stack
run (c ∷ []) stack = []
run (code ∷ n ∷ rest) stack = run rest (run_one code n stack)

abbrev top : List Tree → Option Tree
top [] = none
top (v ∷ stack) = some v

pub run-write_text :
    (s rest : Text) (stack : List Tree)
    → run (write_text s ++ rest) stack ≡ run rest (Tree.text s ∷ stack)
unfolding nat_eq
run-write_text [] rest stack = refl
run-write_text (c ∷ s) rest stack =
    let bracketed : write_text (c ∷ s) ++ rest ≡ write_text s ++ 2 ∷ c ∷ rest = simp list_laws in
    ap (λ t. run t stack) bracketed ∙ run-write_text s (2 ∷ c ∷ rest) stack

pub run-write_tree :
    (v : Tree) (rest : Text) (stack : List Tree)
    → run (write_tree v ++ rest) stack ≡ run rest (v ∷ stack)
unfolding nat_eq
run-write_tree Tree.null rest stack = refl
run-write_tree (Tree.text s) rest stack = run-write_text s rest stack
run-write_tree (Tree.int (pos n)) rest stack = refl
run-write_tree (Tree.int (negsuc n)) rest stack = refl
run-write_tree (Tree.uint64 n) rest stack = refl
run-write_tree (Tree.assigned v k a) rest stack =
    let end : Text = 3 ∷ 0 ∷ [] in
    let bracketed : write_tree (Tree.assigned v k a) ++ rest
        ≡ write_tree v ++ (write_text k ++ (write_tree a ++ (end ++ rest))) =
      simp list_laws in
    ap (λ t. run t stack) bracketed
    ∙ run-write_tree v (write_text k ++ (write_tree a ++ (end ++ rest))) stack
    ∙ run-write_text k (write_tree a ++ (end ++ rest)) (v ∷ stack)
    ∙ run-write_tree a (end ++ rest) (Tree.text k ∷ v ∷ stack)

-- What is written has no zero byte.
abbrev pub written : Tree → Text
written v = map (λ c. suc c) (write_tree v)

abbrev before_suc : ℕ → ℕ
before_suc zero = zero
before_suc (suc n) = n

pub map-before_suc : (s : Text) → map before_suc (map (λ c. suc c) s) ≡ s
map-before_suc [] = refl
map-before_suc (c ∷ s) = ap (λ t. c ∷ t) (map-before_suc s)

pub no_zero : (s : Text) → All (λ c. c ≢ 0) (map (λ c. suc c) s)
no_zero [] = tt
no_zero (c ∷ s) = ((λ e. omega arith), no_zero s)

abbrev pub trees : Json
trees = record {
  Value = Tree;
  null = Tree.null;
  of_text = Tree.text;
  of_int = Tree.int;
  of_uint64 = Tree.uint64;
  assign = Tree.assigned;
  is_member = tree_is_member;
  member = tree_member;
  member_names = tree_member_names;
  as_string = tree_as_string;
  as_int = tree_as_int;
  parse = λ s. ok (top (run (map before_suc s) []));
  write = written;
}

abbrev pub trees-IsLawful : IsLawful trees
trees-IsLawful = record {
  reread = λ v. v;
  parse-write = λ v.
      ap (λ t. ok (top (run t [])))
        (map-before_suc (write_tree v) ∙ sym (append-nil (write_tree v)))
      ∙ ap (λ stack. ok (top stack)) (run-write_tree v [] []);
  write_no_zero = λ v. no_zero (write_tree v);
  IsPlain = λ s. Unit;
  ascii-IsPlain = λ s h. tt;
  IsObject = λ v. Unit;
  null-IsObject = tt;
  assign-IsObject = λ v k a h h'. tt;
  is_member-null = λ k. refl;
  is_member-assign = λ v k a j h h'. refl;
  member-assign = λ v k a j h h'. refl;
  member_names-null = refl;
  member_names-assign = λ v k a h h'. refl;
  as_string-text = λ s h. refl;
  as_string-uint64 = λ n h. refl;
  as_int-int = λ n h. refl;
}
