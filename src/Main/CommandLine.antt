-- ===== src/Main/CommandLine.antt =====
-- The options of src/main.c: what the loop over getopt makes of any sequence of options.
use dubbo_service_mesh.Base.{
  ℕ, ◌≡◌, refl, inl, inr, true, false, none, some, List, [], ◌∷◌, arith, ◌==◌, ◌||◌, Bool,
  if◌then◌else◌, Bool-cases,
}
use dubbo_service_mesh.Text.{atoi}
use dubbo_service_mesh.Main.{Options, type_of, set_option, parse_options}

-- What getopt answers for one option: its letter and its argument.
abbrev pub Answer : Type 0
Answer = ℕ × List ℕ

-- The letters of "t:e:p:d:l:".
abbrev pub is_known : ℕ → Bool
is_known c = c == b't' || (c == b'e' || (c == b'p' || (c == b'd' || c == b'l')))

-- The last argument that was given for a letter, or what stood there before.
abbrev pub last_given {ℓ} : {A : Type ℓ} → (c : ℕ) → (List ℕ → A) → A → List Answer → A
last_given c read before [] = before
last_given c read before ((d, arg) ∷ more) =
    last_given c read (if d == c then read arg else before) more

abbrev pub all_known : List Answer → Bool
all_known [] = true
all_known ((c, arg) ∷ more) = if is_known c then all_known more else false

-- Every option is the last one given.
abbrev pub result : List Answer → Options → Options
result args o = record {
  agent_type = last_given b't' type_of o.agent_type args;
  etcd_host = last_given b'e' some o.etcd_host args;
  server_port = last_given b'p' atoi o.server_port args;
  dubbo_port = last_given b'd' atoi o.dubbo_port args;
  log_dir = last_given b'l' some o.log_dir args;
}

-- The five letters, told apart.
data Letter (c : ℕ) : Type 0 where
  is_t : c ≡ b't' → Letter c
  is_e : c ≡ b'e' → Letter c
  is_p : c ≡ b'p' → Letter c
  is_d : c ≡ b'd' → Letter c
  is_l : c ≡ b'l' → Letter c
  none_of_them : is_known c ≡ false → Letter c

letter : (c : ℕ) → Letter c
letter c = elim (Bool-cases (c == b't')) [
  | inl yes_t ↦ Letter.is_t (ground arith)
  | inr no_t ↦ elim (Bool-cases (c == b'e')) [
    | inl yes_e ↦ Letter.is_e (ground arith)
    | inr no_e ↦ elim (Bool-cases (c == b'p')) [
      | inl yes_p ↦ Letter.is_p (ground arith)
      | inr no_p ↦ elim (Bool-cases (c == b'd')) [
        | inl yes_d ↦ Letter.is_d (ground arith)
        | inr no_d ↦ elim (Bool-cases (c == b'l')) [
          | inl yes_l ↦ Letter.is_l (ground arith)
          | inr no_l ↦ Letter.none_of_them (ground arith)
        ]
      ]
    ]
  ]
]

-- One round of the loop.
set_option_lem :
    (c : ℕ) (arg : List ℕ) (o : Options)
    → set_option c arg o ≡ (if is_known c then some (result ((c, arg) ∷ []) o) else none)
unfolding set_option
set_option_lem c arg o = elim (letter c) [
  | Letter.is_t here ↦ rw here refl
  | Letter.is_e here ↦ rw here refl
  | Letter.is_p here ↦ rw here refl
  | Letter.is_d here ↦ rw here refl
  | Letter.is_l here ↦ rw here refl
  | Letter.none_of_them unknown ↦ ground arith
]

-- The loop over any answers of getopt ends the process if one of them is an unknown option, and
-- otherwise leaves each option as it was last given, whatever stands between, and as it was where it
-- was not given.
pub parse_options_lem :
    (args : List Answer) (o : Options)
    → parse_options args o ≡ (if all_known args then some (result args o) else none)
unfolding parse_options
parse_options_lem [] o = refl
parse_options_lem ((c, arg) ∷ more) o = elim (Bool-cases (is_known c)) [
  | inl known ↦
      rw (set_option_lem c arg o, known) (parse_options_lem more (result ((c, arg) ∷ []) o))
  | inr unknown ↦ rw (set_option_lem c arg o, unknown) refl
]
