-- ===== src/Args.antt =====
-- src/receiver/receiver_args.cpp: the command line. A string is the list of its bytes, and argv is
-- the list of the arguments after the program's name.
pub mod Decimal
use receiver.Prelude.{
  ℕ, ◌-◌, ◌*◌, ◌+◌, ◌^◌, ◌⊎◌, inl, inr, Bool, true, false, if◌then◌else◌, ltb, leb, ◌&&◌, List, [],
  ◌∷◌, Option, some, none, bytes_eq,
}

abbrev pub receiver_id_flag : List ℕ
receiver_id_flag = 45 ∷ 45 ∷ 114 ∷ 101 ∷ 99 ∷ 101 ∷ 105 ∷ 118 ∷ 101 ∷ 114 ∷ 45 ∷ 105 ∷ 100 ∷ []

abbrev pub listen_port_flag : List ℕ
listen_port_flag = 45 ∷ 45 ∷ 108 ∷ 105 ∷ 115 ∷ 116 ∷ 101 ∷ 110 ∷ 45 ∷ 112 ∷ 111 ∷ 114 ∷ 116 ∷ []

abbrev pub socket_flag : List ℕ
socket_flag = 45 ∷ 45 ∷ 115 ∷ 111 ∷ 99 ∷ 107 ∷ 101 ∷ 116 ∷ []

-- DEFAULT_SESSION_MANAGER_SOCKET_PATH
abbrev pub default_socket_path : List ℕ
default_socket_path =
    47 ∷ 114 ∷ 117 ∷ 110 ∷ 47 ∷ 110 ∷ 101 ∷ 120 ∷ 117 ∷ 115 ∷ 47 ∷ 115 ∷ 101 ∷ 115 ∷ 115 ∷ 105 ∷ 111
    ∷ 110 ∷ 45 ∷ 109 ∷ 97 ∷ 110 ∷ 97 ∷ 103 ∷ 101 ∷ 114 ∷ 46 ∷ 115 ∷ 111 ∷ 99 ∷ 107 ∷ []

pub record ReceiverArgs : Type 0 where
  pub receiver_id : ℕ
  pub listen_port : ℕ
  pub socket_path : List ℕ

-- The messages of `fail`.
pub data ArgsError : Type 0 where
  requires_value : (flag : List ℕ) → ArgsError
  not_valid : (flag text : List ℕ) → ArgsError
  empty_path : ArgsError
  unrecognized : (arg : List ℕ) → ArgsError
  missing : (flag : List ℕ) → ArgsError

-- `std::from_chars` in base ten over the whole string: digits only, from the value so far.
unfoldable pub digits_value : List ℕ → ℕ → Option ℕ
digits_value [] acc = some acc
digits_value (c ∷ cs) acc =
    let rest = digits_value cs (acc * 10 + (c - 48)) in if leb 48 c && leb c 57 then rest else none

-- `parse_uint` into an unsigned type of `bits` bits: a value that does not fit is refused.
unfoldable pub parse_uint : ℕ → List ℕ → Option ℕ
unfolding digits_value
parse_uint bits [] = none
parse_uint bits (c ∷ cs) = elim (digits_value (c ∷ cs) 0) [
  | none ↦ none
  | some v ↦ if ltb v (2 ^ bits) then some v else none
]

-- The variables of the loop.
pub record ParsedArgs : Type 0 where
  pub receiver_id : Option ℕ
  pub listen_port : Option ℕ
  pub socket_path : List ℕ

-- A flag with its value.
unfoldable pub set_flag : List ℕ → List ℕ → ParsedArgs → ArgsError ⊎ ParsedArgs
unfolding parse_uint
set_flag arg value p =
    if bytes_eq arg receiver_id_flag
    then elim (parse_uint 32 value) [
      | none ↦ inl (not_valid arg value)
      | some v ↦ inr (record p { receiver_id = some v })
    ]
    else if bytes_eq arg listen_port_flag
    then elim (parse_uint 16 value) [
      | none ↦ inl (not_valid arg value)
      | some v ↦ inr (record p { listen_port = some v })
    ]
    else if bytes_eq arg socket_flag
    then elim value [ [] ↦ inl empty_path | c ∷ cs ↦ inr (record p { socket_path = c ∷ cs }) ]
    else inl (unrecognized arg)

-- A last argument, which has no value after it.
unfoldable pub last_flag : List ℕ → ArgsError
last_flag arg =
    if bytes_eq arg receiver_id_flag
    then requires_value arg
    else if bytes_eq arg listen_port_flag
    then requires_value arg
    else if bytes_eq arg socket_flag
    then requires_value arg
    else unrecognized arg

unfoldable pub parse_loop : List (List ℕ) → ParsedArgs → ArgsError ⊎ ParsedArgs
unfolding set_flag last_flag
parse_loop [] p = inr p
parse_loop (arg ∷ []) p = inl (last_flag arg)
parse_loop (arg ∷ value ∷ rest) p = elim (set_flag arg value p) [
  | inl e ↦ inl e
  | inr q ↦ parse_loop rest q
]

-- The tests after the loop.
unfoldable pub finish_args : ParsedArgs → ArgsError ⊎ ReceiverArgs
finish_args p = elim p.receiver_id [
  | none ↦ inl (missing receiver_id_flag)
  | some id ↦ elim p.listen_port [
    | none ↦ inl (missing listen_port_flag)
    | some port ↦ inr (record { receiver_id = id; listen_port = port; socket_path = p.socket_path })
  ]
]

unfoldable pub parse_receiver_args : List (List ℕ) → ArgsError ⊎ ReceiverArgs
unfolding parse_loop finish_args
parse_receiver_args args =
    elim (parse_loop args
      (record { receiver_id = none; listen_port = none; socket_path = default_socket_path })) [
        | inl e ↦ inl e
        | inr p ↦ finish_args p
      ]
