-- ===== src/Stats/Thread.antt =====
-- src/stats.c, one round of the loop of `stats_thread_main`: the report and the rebalancing.
pub mod Balance
use hyper_dpi.Prelude.{
  ℕ, ◌+◌, ◌*◌, ◌/◌, ◌%◌, ◌^◌, Bool, true, not, ◌&&◌, ◌==◌, ltb, if◌then◌else◌, List, Memory, sub64,
}
use hyper_dpi.Buckets.{Buckets, get_distribution, rebalance}
use hyper_dpi.Stats.{CoreStats, StatsTable, aggregate, worker_processed}
use hyper_dpi.Stats.Double.{Double}
use hyper_dpi.Stats.Loads.{Loads, new_loads, load_workers}

abbrev pub bucket_idle_threshold_ms : ℕ
bucket_idle_threshold_ms = 200

-- `struct stats_thread_args`.
pub record StatsArgs : Type 0 where
  pub num_workers : ℕ
  pub worker_lcores : Memory
  pub rebalance_enabled : Bool

-- What the thread keeps from round to round.
pub record StatsThread : Type 0 where
  pub prev : CoreStats
  pub worker_prev : Memory
  pub last_tsc : ℕ

-- `hz * BUCKET_IDLE_THRESHOLD_MS / 1000` in 64 bits.
abbrev pub idle_threshold_of : ℕ → ℕ
idle_threshold_of hz = hz * bucket_idle_threshold_ms % 2 ^ 64 / 1000

-- Before the first round. Only the entries of `worker_prev` that belong to a worker are read.
abbrev pub new_reporter : StatsArgs → List ℕ → ℕ → StatsTable → (ℕ → StatsTable) → StatsThread
new_reporter args lcores now t seen = record {
  prev = aggregate t lcores;
  worker_prev = λ i. worker_processed (seen i) (args.worker_lcores i);
  last_tsc = now;
}

-- What is printed; `moved` is 0 where no line says so.
pub record Report (W : Type 0) : Type 0 where
  pub pps : W
  pub mbps : W
  pub totals : CoreStats
  pub loads : Loads W
  pub distribution : Memory
  pub moved : ℕ

module _ {W : Type 0} ⦃d : Double W⦄ where
  -- The test that the load is uneven.
  unfoldable pub is_imbalanced : ℕ → Loads W → Bool
  is_imbalanced num_workers l =
      let avg_pps = d.div l.sum_pps (d.of_nat num_workers) in
      d.le d.min_avg_pps avg_pps
      && (d.lt (d.mul avg_pps d.imbalance_ratio) l.max_pps && not (l.max_idx == l.min_idx))

  unfoldable pub rebalance_workers : StatsArgs → ℕ → ℕ → Loads W → Buckets → ℕ × Buckets
  rebalance_workers args threshold now l buckets =
      if args.rebalance_enabled && ltb 1 args.num_workers
      then if is_imbalanced args.num_workers l
        then rebalance l.max_idx l.min_idx now threshold buckets
        else (0, buckets)
      else (0, buckets)

  -- The counters of the table are read one worker after another while the other threads run:
  -- `seen i` is the table when worker `i` is read, `t` the one that is summed up. The two arrays on
  -- the stack that are not initialised are arguments.
  unfoldable pub report_round :
      StatsArgs
      → List ℕ
      → ℕ
      → ℕ
      → StatsTable
      → (ℕ → StatsTable)
      → (ℕ → W)
      → Memory
      → Buckets
      → StatsThread
      → (Report W × StatsThread) × Buckets
  report_round args lcores hz now t seen worker_pps bucket_counts buckets st =
      let elapsed_s = d.div (d.of_nat (sub64 now st.last_tsc)) (d.of_nat hz) in
      let cur = aggregate t lcores in
      let d_packets = sub64 cur.rx_packets st.prev.rx_packets in
      let d_bytes = sub64 cur.rx_bytes st.prev.rx_bytes in
      let timed = d.lt d.nought elapsed_s in
      let loads =
        load_workers elapsed_s (λ i. worker_processed (seen i) (args.worker_lcores i))
          args.num_workers 0 (new_loads worker_pps st.worker_prev) in
      let (moved, buckets') = rebalance_workers args (idle_threshold_of hz) now loads buckets in
      (
        (
          record {
            pps = if timed then d.div (d.of_nat d_packets) elapsed_s else d.nought;
            mbps =
                if timed
                then d.div (d.div (d.mul (d.of_nat d_bytes) d.eight) elapsed_s) d.million
                else d.nought;
            totals = cur;
            loads = loads;
            distribution = get_distribution args.num_workers buckets bucket_counts;
            moved = moved;
          },
          record { prev = cur; worker_prev = loads.worker_prev; last_tsc = now },
        ),
        buckets',
      )
