-- ===== src/Startup/Arguments/Parsed.antt =====
-- What the options come to.
use hyper_dpi.Prelude.{
  ℕ, ◌≡◌, Bool, Bool-cases, true, false, not, ◌&&◌, ◌||◌, ◌==◌, inl, inr, if◌then◌else◌, List, [],
  ◌∷◌, Bytes, Option, none, some, arith,
}
use hyper_dpi.Startup.Arguments.{
  ExitReason, Boot, exit, ok, bad_mbuf_count, invalid_arguments, atoi, Options, is_positive,
  take_option, parse_options,
}

abbrev pub Found : Type 0
Found = List (ℕ × Bytes)

-- The argument of the last `-c`, or the default.
abbrev pub last_arg : ℕ → Bytes → Found → Bytes
last_arg c d [] = d
last_arg c d ((opt, optarg) ∷ rest) = last_arg c (if opt == c then optarg else d) rest

-- The same, for its number.
abbrev pub last_number : ℕ → ℕ → Found → ℕ
last_number c d [] = d
last_number c d ((opt, optarg) ∷ rest) = last_number c (if opt == c then atoi optarg else d) rest

abbrev pub has_option : ℕ → Found → Bool
has_option c [] = false
has_option c ((opt, optarg) ∷ rest) = opt == c || has_option c rest

abbrev pub fault : ℕ → Bytes → Option ExitReason
fault opt optarg =
    if opt == b'M'
    then if is_positive (atoi optarg) then none else some bad_mbuf_count
    else if opt == b'p' || (opt == b'w' || opt == b'B')
    then none
    else some invalid_arguments

abbrev pub or_later : Option ExitReason → Option ExitReason → Option ExitReason
or_later none later = later
or_later (some r) later = some r

-- The first option that ends the program.
abbrev pub first_fault : Found → Option ExitReason
first_fault [] = none
first_fault ((opt, optarg) ∷ rest) = or_later (fault opt optarg) (first_fault rest)

abbrev pub unless : Option ExitReason → Options → Boot Options
unless none o = ok o
unless (some r) o = exit r

and_true : (b : Bool) → (b && true) ≡ b
and_true b = ground arith

and_false : (b : Bool) → (b && false) ≡ false
and_false b = ground arith

is_letter : (c d : ℕ) → (c == d) ≡ true → c ≡ d
is_letter c d e = ground arith

-- The first `-M` without a positive number or the first unknown option ends the program, whatever
-- comes after it. If there is none, the last `-p`, `-w` and `-M` count, each on its own, and
-- rebalancing is enabled unless there is a `-B`.
pub parse_options_lem :
    (o : Options) (found : Found)
    → parse_options o found
      ≡ unless (first_fault found) (record {
        patterns_file = last_arg b'p' o.patterns_file found;
        num_workers = last_number b'w' o.num_workers found;
        rebalance_enabled = o.rebalance_enabled && not (has_option b'B' found);
        mbuf_pool_override = last_number b'M' o.mbuf_pool_override found;
      })
unfolding parse_options take_option
parse_options_lem o [] = rw (and_true o.rebalance_enabled)
parse_options_lem o ((opt, optarg) ∷ rest) = elim (Bool-cases (opt == b'p')) [
  | inl p ↦ rw (is_letter opt b'p' p) (parse_options_lem (record o { patterns_file = optarg }) rest)
  | inr not_p ↦ elim (Bool-cases (opt == b'w')) [
    | inl w ↦
        rw (is_letter opt b'w' w) (parse_options_lem (record o { num_workers = atoi optarg }) rest)
    | inr not_w ↦ elim (Bool-cases (opt == b'B')) [
      | inl b ↦
          rw (is_letter opt b'B' b, and_false o.rebalance_enabled)
            (parse_options_lem (record o { rebalance_enabled = false }) rest)
      | inr not_b ↦ elim (Bool-cases (opt == b'M')) [
        | inl m ↦ elim (Bool-cases (is_positive (atoi optarg))) [
          | inl pos ↦
              rw (is_letter opt b'M' m, pos)
                (parse_options_lem (record o { mbuf_pool_override = atoi optarg }) rest)
          | inr bad ↦ rw (is_letter opt b'M' m, bad)
        ]
        | inr not_m ↦ rw (not_p, not_w, not_b, not_m)
      ]
    ]
  ]
]
