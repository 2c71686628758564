-- ===== src/Args/Decimal.antt =====
-- receiver_args.cpp: numbers in decimal are read back, in either order of the flags.
use receiver.Prelude.{
  ℕ, zero, suc, ◌-◌, ◌*◌, ◌/◌, ◌%◌, ◌+◌, ◌^◌, ◌<◌, ◌≡◌, inl, inr, if◌then◌else◌, ltb, leb, ◌&&◌,
  List, [], ◌∷◌, ◌++◌, some, none, bytes_eq, refl, ap, sym, ◌∙◌, arith, Bool-cases, lt→ltb, ltb→lt,
}
use mathlib.Core.Option.{some-injective, some-ne-none}
use native.Mathlib.Nat.{pow-suc}
use receiver.Args.{
  digits_value, parse_uint, set_flag, parse_loop, finish_args, parse_receiver_args, ParsedArgs,
  receiver_id_flag, listen_port_flag, default_socket_path,
}

-- The decimal digits of a number, with fuel for its digits.
unfoldable pub decimal_within : ℕ → ℕ → List ℕ
decimal_within zero n = (48 + n % 10) ∷ []
decimal_within (suc fuel) n =
    let front = decimal_within fuel (n / 10) in
    if ltb n 10 then (48 + n) ∷ [] else front ++ (48 + n % 10) ∷ []

abbrev pub decimal : ℕ → List ℕ
decimal n = decimal_within n n

digits_value-append :
    (xs : List ℕ) (d acc v : ℕ)
    → digits_value xs acc ≡ some v
    → d < 10
    → digits_value (xs ++ (48 + d) ∷ []) acc ≡ some (v * 10 + d)
unfolding digits_value
digits_value-append [] d acc v h lt = ground (arith, some-injective acc v h)
digits_value-append (c ∷ cs) d acc v h lt = elim (Bool-cases (leb 48 c && leb c 57)) [
  | inl digit ↦ rw digit (digits_value-append cs d (acc * 10 + (c - 48)) v (rw digit at h) lt)
  | inr other ↦ absurd (some-ne-none v (sym (rw other at h)))
]

digits_value-one : (d acc : ℕ) → d < 10 → digits_value ((48 + d) ∷ []) acc ≡ some (acc * 10 + d)
unfolding digits_value
digits_value-one d acc lt = ground arith

digits_value-decimal :
    (fuel n : ℕ) → n < 10 ^ suc fuel → digits_value (decimal_within fuel n) 0 ≡ some n
unfolding decimal_within
digits_value-decimal zero n h =
    digits_value-one (n % 10) 0 (omega arith) ∙ ap some (omega (arith, h))
digits_value-decimal (suc fuel) n h = elim (Bool-cases (ltb n 10)) [
  | inl one ↦ rw one (digits_value-one n 0 (ltb→lt n 10 one) ∙ ap some (omega arith))
  | inr more ↦ rw more (
      digits_value-append (decimal_within fuel (n / 10)) (n % 10) 0 (n / 10)
        (digits_value-decimal fuel (n / 10) (omega (arith, h, pow-suc 10 (suc fuel)))) (omega arith)
      ∙ ap some (omega arith))
]

fuel_enough : (n : ℕ) → n < 10 ^ suc n
fuel_enough zero = omega arith
fuel_enough (suc n) = omega (arith, pow-suc 10 (suc n), fuel_enough n)

decimal_snoc : (fuel n : ℕ) → (xs : List ℕ) × (d : ℕ) × (decimal_within fuel n ≡ xs ++ d ∷ [])
unfolding decimal_within
decimal_snoc zero n = ([], 48 + n % 10, refl)
decimal_snoc (suc fuel) n = elim (Bool-cases (ltb n 10)) [
  | inl one ↦ ([], 48 + n, rw one refl)
  | inr more ↦ (decimal_within fuel (n / 10), 48 + n % 10, rw more refl)
]

parse_uint-snoc :
    (bits v d : ℕ) (xs : List ℕ)
    → digits_value (xs ++ d ∷ []) 0 ≡ some v
    → v < 2 ^ bits
    → parse_uint bits (xs ++ d ∷ []) ≡ some v
unfolding parse_uint
parse_uint-snoc bits v d [] h lt = rw (h, parse_uint, lt→ltb v (2 ^ bits) lt) refl
parse_uint-snoc bits v d (x ∷ xs) h lt = rw (h, parse_uint, lt→ltb v (2 ^ bits) lt) refl

parse_uint-decimal : (bits n : ℕ) → n < 2 ^ bits → parse_uint bits (decimal n) ≡ some n
parse_uint-decimal bits n lt =
    let (xs, d, e) = decimal_snoc n n in
    ap (parse_uint bits) e
    ∙ parse_uint-snoc bits n d xs
        (ap (λ (s : List ℕ). digits_value s 0) (sym e) ∙ digits_value-decimal n n (fuel_enough n))
        lt

set_flag-receiver_id :
    (n : ℕ) (p : ParsedArgs)
    → n < 2 ^ 32
    → set_flag receiver_id_flag (decimal n) p ≡ inr (record p { receiver_id = some n })
unfolding set_flag bytes_eq
set_flag-receiver_id n p lt = rw (parse_uint-decimal 32 n lt, set_flag) refl

set_flag-listen_port :
    (n : ℕ) (p : ParsedArgs)
    → n < 2 ^ 16
    → set_flag listen_port_flag (decimal n) p ≡ inr (record p { listen_port = some n })
unfolding set_flag bytes_eq
set_flag-listen_port n p lt = rw (parse_uint-decimal 16 n lt, set_flag) refl

parse_loop-step :
    (arg value : List ℕ) (rest : List (List ℕ)) (p q : ParsedArgs)
    → set_flag arg value p ≡ inr q
    → parse_loop (arg ∷ value ∷ rest) p ≡ parse_loop rest q
unfolding parse_loop
parse_loop-step arg value rest p q h = rw (h, parse_loop) refl

-- The variables before the loop.
abbrev unset : ParsedArgs
unset = record { receiver_id = none; listen_port = none; socket_path = default_socket_path }

parse_receiver_args-parsed :
    (args : List (List ℕ)) (p : ParsedArgs)
    → parse_loop args unset ≡ inr p
    → parse_receiver_args args ≡ finish_args p
unfolding parse_receiver_args
parse_receiver_args-parsed args p h = rw (h, parse_receiver_args) refl

-- If the id is below 2 ^ 32 and the port below 2 ^ 16, then the command line that gives both in
-- decimal, in either order of the flags, is parsed to them with the default socket path.
pub parse_receiver_args-decimal :
    (id port : ℕ)
    → id < 2 ^ 32
    → port < 2 ^ 16
    → (parse_receiver_args (receiver_id_flag ∷ decimal id ∷ listen_port_flag ∷ decimal port ∷ [])
        ≡ inr (record { receiver_id = id; listen_port = port; socket_path = default_socket_path }))
      × (parse_receiver_args (listen_port_flag ∷ decimal port ∷ receiver_id_flag ∷ decimal id ∷ [])
          ≡ inr
              (record { receiver_id = id; listen_port = port; socket_path = default_socket_path }))
unfolding parse_loop finish_args
parse_receiver_args-decimal id port id_lt port_lt = (
  parse_receiver_args-parsed (receiver_id_flag ∷ decimal id ∷ listen_port_flag ∷ decimal port ∷ [])
      both
      (parse_loop-step receiver_id_flag (decimal id) (listen_port_flag ∷ decimal port ∷ []) unset
          (record unset { receiver_id = some id }) (set_flag-receiver_id id unset id_lt)
        ∙ parse_loop-step listen_port_flag (decimal port) []
            (record unset { receiver_id = some id }) both
            (set_flag-listen_port port (record unset { receiver_id = some id }) port_lt)),
  parse_receiver_args-parsed (listen_port_flag ∷ decimal port ∷ receiver_id_flag ∷ decimal id ∷ [])
      both
      (parse_loop-step listen_port_flag (decimal port) (receiver_id_flag ∷ decimal id ∷ []) unset
          (record unset { listen_port = some port }) (set_flag-listen_port port unset port_lt)
        ∙ parse_loop-step receiver_id_flag (decimal id) []
            (record unset { listen_port = some port }) both
            (set_flag-receiver_id id (record unset { listen_port = some port }) id_lt)),
)
  where
    both : ParsedArgs
    both = record {
      receiver_id = some id;
      listen_port = some port;
      socket_path = default_socket_path;
    }
