-- ===== src/Buckets/Counts.antt =====
-- How many buckets each worker has: `parser_bucket_get_distribution`, and what the other calls do
-- to it.
use hyper_dpi.Prelude.{
  ℕ, zero, suc, ◌+◌, ◌<◌, ◌≡◌, ◌≢◌, refl, arith, ◌==◌, if◌then◌else◌, u8, Memory, update, ltb, ◌^◌,
  memset,
}
use hyper_dpi.Buckets.{
  Buckets, num_buckets, eligible, rebalance_loop, rebalance, distribution_loop, get_distribution,
}
use hyper_dpi.Buckets.Rebalance.{rebalance_loop_outside}

-- Of the `n` buckets from `b` on, those on worker `w`.
unfoldable pub count : ℕ → Memory → ℕ → ℕ → ℕ
count w worker b zero = 0
count w worker b (suc n) = (if worker b == w then 1 else 0) + count w worker (b + 1) n

count-update :
    (w : ℕ) (worker : Memory) (j v b n : ℕ)
    → j < b
    → count w (update worker j v) b n ≡ count w worker b n
unfolding count
count-update w worker j v b zero h = refl
count-update w worker j v b (suc n) h = ground (arith, count-update w worker j v (b + 1) n)

distribution_loop-count :
    (n num_workers b : ℕ) (s : Buckets) (counts : Memory) (w : ℕ)
    → distribution_loop n num_workers b s counts w
      ≡ counts w + (if ltb w num_workers then count w s.worker b n else 0)
unfolding distribution_loop count
distribution_loop-count zero num_workers b s counts w = ground arith
distribution_loop-count (suc n) num_workers b s counts w = ground (
  arith,
  distribution_loop-count n num_workers (b + 1) s counts w,
  distribution_loop-count n num_workers (b + 1) s
      (update counts (s.worker b) (counts (s.worker b) + 1)) w,
)

-- The distribution counts, for each worker of the system, the buckets of the table that are on it,
-- whatever its output array held; the array's other cells stay as they are.
get_distribution-count :
    (num_workers : ℕ) (s : Buckets) (counts : Memory) (w : ℕ)
    → get_distribution num_workers s counts w
      ≡ (if ltb w num_workers then count w s.worker 0 num_buckets else counts w)
unfolding get_distribution
get_distribution-count num_workers s counts w =
    ground
      (arith, distribution_loop-count num_buckets num_workers 0 s (memset counts 0 num_workers) w)

module _ (over under now threshold : ℕ) (ne : over ≢ u8 under) where
  abbrev run : ℕ → ℕ → ℕ → Buckets → ℕ × Buckets
  run = rebalance_loop over under now threshold

  -- What one call adds to the number of worker `w`.
  abbrev Balanced : ℕ → ℕ → ℕ → ℕ → ℕ → Type 0
  Balanced w before after moved moved' =
      after + (if w == over then moved' else moved) + (if w == u8 under then moved else moved')
      ≡ before + moved + moved'

  rebalance_loop-count :
      (w n b moved : ℕ) (s : Buckets)
      → Balanced w
          (count w s.worker b n)
          (count w (run n b moved s).1.worker b n)
          moved
          (run n b moved s).0
  unfolding rebalance_loop eligible count
  rebalance_loop-count w zero b moved s = ground arith
  rebalance_loop-count w (suc n) b moved s =
      let s1 : Buckets = record s { worker = update s.worker b (u8 under) } in
      ground (
        arith,
        rebalance_loop-count w n (b + 1) moved s,
        rebalance_loop-count w n (b + 1) (moved + 1) s1,
        rebalance_loop_outside over under now threshold n (b + 1) moved s b,
        rebalance_loop_outside over under now threshold n (b + 1) (moved + 1) s1 b,
        count-update w s.worker b (u8 under) (b + 1) n,
      )

-- A rebalance takes the buckets that it reports from the overloaded worker and gives them to the
-- underloaded one; the number of every other worker stays. The two are distinct 8-bit numbers.
rebalance-count :
    (over under now threshold : ℕ) (s : Buckets)
    → over ≢ under
    → under < 2 ^ 8
    → let (moved, s') = rebalance over under now threshold s in
      (count over s'.worker 0 num_buckets + moved ≡ count over s.worker 0 num_buckets)
      × (count under s'.worker 0 num_buckets ≡ count under s.worker 0 num_buckets + moved)
      × ((w : ℕ)
          → w ≢ over
          → w ≢ under
          → count w s'.worker 0 num_buckets ≡ count w s.worker 0 num_buckets)
unfolding rebalance
rebalance-count over under now threshold s ne h =
    (ground (arith, lem over), ground (arith, lem under), λ w p q. ground (arith, lem w))
  where
    ne8 : over ≢ u8 under
    ne8 = omega arith

    lem :
        (w : ℕ)
        → Balanced over under now threshold ne8 w
            (count w s.worker 0 num_buckets)
            (count w
              (rebalance_loop over under now threshold num_buckets 0 0 s).1.worker
              0
              num_buckets)
            0
            (rebalance_loop over under now threshold num_buckets 0 0 s).0
    lem w = rebalance_loop-count over under now threshold ne8 w num_buckets 0 0 s
