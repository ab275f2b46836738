-- ===== src/Buckets/Range.antt =====
-- Every bucket names a worker of the system: the RX thread never indexes `dest` out of range.
use hyper_dpi.Prelude.{
  ℕ, zero, suc, ◌+◌, ◌/◌, ◌%◌, ◌^◌, ◌≤◌, ◌<◌, refl, arith, ltb, leb, ◌&&◌, if◌then◌else◌, u8,
  Memory, update, ◌≡◌,
}
use hyper_dpi.Buckets.{Buckets, num_buckets, bucket_of, init_loop, table_init, select_worker}
use hyper_dpi.Buckets.Counts.{count}
use hyper_dpi.Buckets.Affinity.{Call, steer, balance, perform, Run, done, step}
use hyper_dpi.Buckets.Rebalance.{rebalance_lem}

pub init_loop-get :
    (n num_workers b : ℕ) (worker : Memory) (j : ℕ)
    → init_loop n num_workers b worker j
      ≡ (if leb b j && ltb j (b + n) then u8 (j % num_workers) else worker j)
unfolding init_loop
init_loop-get zero num_workers b worker j = ground arith
init_loop-get (suc n) num_workers b worker j =
    ground (arith, init_loop-get n num_workers (b + 1) (update worker b (u8 (b % num_workers))) j)

abbrev pub InRange : ℕ → Buckets → Type 0
InRange num_workers s = (b : ℕ) → b < num_buckets → s.worker b < num_workers

abbrev pub Below : ℕ → Call → Type 0
Below num_workers (steer hash now) = Unit {0}
Below num_workers (balance over under now threshold) = (under < num_workers) × (now < 2 ^ 64)

abbrev pub AllBelow : ℕ → {s s' : Buckets} → Run s s' → Type 0
AllBelow num_workers done = Unit {0}
AllBelow num_workers (step c r) = Below num_workers c × AllBelow num_workers r

pub table_init-InRange :
    (s : Buckets) (num_workers : ℕ)
    → 0 < num_workers
    → num_workers ≤ 2 ^ 8
    → InRange num_workers (table_init s num_workers)
unfolding table_init
table_init-InRange s num_workers h k b lt =
    ground (arith, init_loop-get num_buckets num_workers 0 s.worker b)

pub perform-InRange :
    (num_workers : ℕ) (c : Call) (s : Buckets)
    → num_workers ≤ 2 ^ 8
    → Below num_workers c
    → InRange num_workers s
    → InRange num_workers (perform c s)
unfolding perform select_worker
perform-InRange num_workers (steer hash now) s k h v b lt = v b lt
perform-InRange num_workers (balance over under now threshold) s k (h, n) v b lt =
    let lem = rebalance_lem over under now threshold s n (omega arith) in
    ground (arith, lem.1 b, v b lt)

Run-InRange :
    (num_workers : ℕ) {s s' : Buckets} (r : Run s s')
    → num_workers ≤ 2 ^ 8
    → AllBelow num_workers r
    → InRange num_workers s
    → InRange num_workers s'
Run-InRange num_workers done k h v = v
Run-InRange num_workers (step {s} c r) k (h, hs) v =
    Run-InRange num_workers r k hs (perform-InRange num_workers c s k h v)

-- From the initial table on, whatever is steered and rebalanced between the workers of the system,
-- a packet of any hash is sent to one of them.
select_worker-InRange :
    (s : Buckets) (num_workers : ℕ) {s' : Buckets} (r : Run (table_init s num_workers) s')
    (hash now : ℕ)
    → 0 < num_workers
    → num_workers ≤ 2 ^ 8
    → AllBelow num_workers r
    → (select_worker s' hash now).0 < num_workers
unfolding select_worker
select_worker-InRange s num_workers r hash now h k below =
    Run-InRange num_workers r k below (table_init-InRange s num_workers h k) (bucket_of hash)
      (omega arith)

count_congr :
    (w : ℕ) (m m' : Memory) (b n : ℕ)
    → ((j : ℕ) → b ≤ j → j < b + n → m j ≡ m' j)
    → count w m b n ≡ count w m' b n
unfolding count
count_congr w m m' b zero h = refl
count_congr w m m' b (suc n) h =
    ground (arith, h b, count_congr w m m' (b + 1) n (λ j p q. h j (omega arith) (omega arith)))

Evenly : ℕ → ℕ → Type 0
Evenly num_workers n = (num_buckets / num_workers ≤ n) × (n ≤ num_buckets / num_workers + 1)

-- A worker's share, for the numbers of workers that `main` accepts.
share :
    (num_workers w : ℕ)
    → 2 ≤ num_workers
    → num_workers ≤ 4
    → w < num_workers
    → Evenly num_workers (count w (λ b. b % num_workers) 0 num_buckets)
unfolding count Evenly
share (suc (suc zero)) zero lo hi lt = omega arith
share (suc (suc zero)) (suc zero) lo hi lt = omega arith
share (suc (suc (suc zero))) zero lo hi lt = omega arith
share (suc (suc (suc zero))) (suc zero) lo hi lt = omega arith
share (suc (suc (suc zero))) (suc (suc zero)) lo hi lt = omega arith
share (suc (suc (suc (suc zero)))) zero lo hi lt = omega arith
share (suc (suc (suc (suc zero)))) (suc zero) lo hi lt = omega arith
share (suc (suc (suc (suc zero)))) (suc (suc zero)) lo hi lt = omega arith
share (suc (suc (suc (suc zero)))) (suc (suc (suc zero))) lo hi lt = omega arith
share _ _ lo hi lt = absurd (omega arith)

-- The initial table gives every worker an even share of the 256 buckets, up to one bucket, for
-- each number of workers that `main` accepts.
table_init-count :
    (s : Buckets) (num_workers w : ℕ)
    → 2 ≤ num_workers
    → num_workers ≤ 4
    → w < num_workers
    → (num_buckets / num_workers ≤ count w (table_init s num_workers).worker 0 num_buckets)
      × (count w (table_init s num_workers).worker 0 num_buckets ≤ num_buckets / num_workers + 1)
unfolding table_init Evenly
table_init-count s num_workers w lo hi lt = rw same (share num_workers w lo hi lt)
  where
    same :
        count w (init_loop num_buckets num_workers 0 s.worker) 0 num_buckets
        ≡ count w (λ b. b % num_workers) 0 num_buckets
    same =
        count_congr w _ _ 0 num_buckets
          (λ j p q. ground (arith, init_loop-get num_buckets num_workers 0 s.worker j))
