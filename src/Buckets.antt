-- ===== src/Buckets.antt =====
-- src/parser.c, the table from hash buckets to workers: `parser_bucket_table_init`,
-- `parser_bucket_select_worker`, `parser_bucket_rebalance`, `parser_bucket_get_distribution`.
--
-- The two static arrays are one record. The RX thread and the Stats thread share it; each call is
-- one step here, and their interleavings are the sequences of steps of Buckets/Affinity.
pub mod Rebalance
pub mod Counts
pub mod Affinity
pub mod Range
use hyper_dpi.Prelude.{
  ℕ, zero, suc, ◌+◌, ◌-◌, ◌%◌, ◌^◌, Bool, true, false, not, ◌||◌, ◌==◌, ltb, leb, if◌then◌else◌, u8,
  sub64, Memory, update, memset,
}

abbrev pub num_buckets : ℕ
num_buckets = 256

abbrev pub max_buckets_per_pass : ℕ
max_buckets_per_pass = 8

-- `bucket_worker` and `bucket_last_seen_tsc`.
pub record Buckets : Type 0 where
  pub worker : Memory
  pub last_seen : Memory

-- The loop of `parser_bucket_table_init`, from bucket `b` on for the rounds that are left.
pub init_loop : ℕ → ℕ → ℕ → Memory → Memory
init_loop zero num_workers b worker = worker
init_loop (suc n) num_workers b worker =
    init_loop n num_workers (b + 1) (update worker b (u8 (b % num_workers)))

pub table_init : Buckets → ℕ → Buckets
table_init s num_workers = record {
  worker = init_loop num_buckets num_workers 0 s.worker;
  last_seen = memset s.last_seen 0 num_buckets;
}

-- `hash & (PARSER_NUM_BUCKETS - 1)`.
abbrev pub bucket_of : ℕ → ℕ
bucket_of hash = hash % num_buckets

unfoldable pub select_worker : Buckets → ℕ → ℕ → ℕ × Buckets
select_worker s hash now =
    (s.worker (bucket_of hash), record s { last_seen = update s.last_seen (bucket_of hash) now })

-- The negation of the test that skips a bucket as still active.
pub is_idle : ℕ → ℕ → ℕ → Bool
is_idle last now threshold = not (leb now last || leb (sub64 now last) threshold)

-- The loop of `parser_bucket_rebalance`: the rounds left, the bucket and the number moved so far.
module _ (over under now threshold : ℕ) where
  pub eligible : Buckets → ℕ → Bool
  eligible s b = if s.worker b == over then is_idle (s.last_seen b) now threshold else false

  pub rebalance_loop : ℕ → ℕ → ℕ → Buckets → ℕ × Buckets
  rebalance_loop zero b moved s = (moved, s)
  rebalance_loop (suc n) b moved s =
      let move = ltb moved max_buckets_per_pass in
      let taken = eligible s b in
      let rest =
        rebalance_loop n (b + 1) (if taken then moved + 1 else moved)
          (if taken then record s { worker = update s.worker b (u8 under) } else s) in
      if move then rest else (moved, s)

  pub rebalance : Buckets → ℕ × Buckets
  rebalance s = rebalance_loop num_buckets 0 0 s

-- The loop of `parser_bucket_get_distribution`.
pub distribution_loop : ℕ → ℕ → ℕ → Buckets → Memory → Memory
distribution_loop zero num_workers b s counts = counts
distribution_loop (suc n) num_workers b s counts = distribution_loop n num_workers (b + 1) s (
    if ltb (s.worker b) num_workers
    then update counts (s.worker b) (counts (s.worker b) + 1)
    else counts)

pub get_distribution : ℕ → Buckets → Memory → Memory
get_distribution num_workers s counts =
    distribution_loop num_buckets num_workers 0 s (memset counts 0 num_workers)
