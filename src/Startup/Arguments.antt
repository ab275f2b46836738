-- ===== src/Startup/Arguments.antt =====
-- src/main.c, the option loop of `main`.
--
-- `getopt` is the list of what it returns: the option character and `optarg`.
pub mod Parsed
use hyper_dpi.Prelude.{
  ℕ, ◌+◌, ◌-◌, ◌*◌, ◌%◌, ◌^◌, Bool, true, false, not, ◌&&◌, ◌||◌, ◌==◌, ltb, leb, min,
  if◌then◌else◌, List, [], ◌∷◌, Bytes, codes,
}

-- Where `rte_exit` is called from.
pub data ExitReason : Type 0 where
  eal_init bad_mbuf_count invalid_arguments bad_num_workers no_rules no_port few_lcores
        no_mbuf_pool :
      ExitReason
  no_configure no_rx_queue no_tx_queue no_start no_tx_ring : ExitReason
  no_worker_ring : ℕ → ExitReason

pub data Boot {ℓ} (A : Type ℓ) : Type ℓ where
  exit : ExitReason → Boot A
  ok : A → Boot A

infixl 5 ◌>>=◌ ◌>>◌
abbrev pub ◌>>=◌ {ℓ κ} : {A : Type ℓ} {B : Type κ} → Boot A → (A → Boot B) → Boot B
exit r >>= f = exit r
ok a >>= f = f a

abbrev pub ◌>>◌ {ℓ} : {B : Type ℓ} → Boot (Unit {0}) → Boot B → Boot B
m >> k = m >>= λ _. k

-- A test whose failure exits.
abbrev pub check : ExitReason → Bool → Boot (Unit {0})
check r true = ok tt
check r false = exit r

-- `isspace` in the C locale.
abbrev pub is_space : ℕ → Bool
is_space c = c == b' ' || (leb 9 c && leb c 13)

abbrev pub is_digit : ℕ → Bool
is_digit c = leb b'0' c && leb c b'9'

-- The value of the digits at the start of a text, after `n`.
unfoldable pub digits : ℕ → Bytes → ℕ
digits n [] = n
digits n (c ∷ cs) = let rest = digits (n * 10 + (c - b'0')) cs in if is_digit c then rest else n

-- `(unsigned)atoi(s)`: `strtol`, which saturates at 64 bits, and its lower 32 bits.
abbrev pub of_sign : Bool → ℕ → ℕ
of_sign negative n =
    if negative then (2 ^ 64 - min n (2 ^ 63)) % 2 ^ 32 else min n (2 ^ 63 - 1) % 2 ^ 32

abbrev pub signed : Bytes → ℕ
signed [] = 0
signed (c ∷ cs) =
    if c == b'-'
    then of_sign true (digits 0 cs)
    else if c == b'+'
    then of_sign false (digits 0 cs)
    else of_sign false (digits 0 (c ∷ cs))

unfoldable pub atoi : Bytes → ℕ
atoi [] = 0
atoi (c ∷ cs) = let rest = atoi cs in if is_space c then rest else signed (c ∷ cs)

-- The local variables that the options set.
pub record Options : Type 0 where
  pub patterns_file : Bytes
  pub num_workers : ℕ
  pub rebalance_enabled : Bool
  pub mbuf_pool_override : ℕ

abbrev pub default_options : Options
default_options = record {
  patterns_file = codes "config/patterns.txt";
  num_workers = 2;
  rebalance_enabled = true;
  mbuf_pool_override = 0;
}

-- `m > 0` for an `int` in 32 bits.
abbrev pub is_positive : ℕ → Bool
is_positive m = ltb 0 m && ltb m (2 ^ 31)

-- The `switch` on an option.
unfoldable pub take_option : Options → ℕ → Bytes → Boot Options
take_option o opt optarg =
    if opt == b'p'
    then ok (record o { patterns_file = optarg })
    else if opt == b'w'
    then ok (record o { num_workers = atoi optarg })
    else if opt == b'B'
    then ok (record o { rebalance_enabled = false })
    else if opt == b'M'
    then if is_positive (atoi optarg)
      then ok (record o { mbuf_pool_override = atoi optarg })
      else exit bad_mbuf_count
    else exit invalid_arguments

unfoldable pub parse_options : Options → List (ℕ × Bytes) → Boot Options
parse_options o [] = ok o
parse_options o ((opt, optarg) ∷ rest) = do o' ← take_option o opt optarg; parse_options o' rest
