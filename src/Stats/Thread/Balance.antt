-- ===== src/Stats/Thread/Balance.antt =====
-- When the Stats thread moves buckets, and from which worker to which.
use hyper_dpi.Prelude.{
  ℕ, ◌^◌, ◌≤◌, ◌<◌, ◌≡◌, ◌≢◌, ◌⊎◌, inl, inr, Bool-cases, true, false, ◌&&◌, ltb, List, Memory,
  arith, refl, subst, sym, sub64,
}
use hyper_dpi.Buckets.{Buckets, rebalance}
use hyper_dpi.Buckets.Range.{InRange, perform-InRange}
use hyper_dpi.Buckets.Affinity.{balance, perform}
use hyper_dpi.Stats.{StatsTable, worker_processed}
use hyper_dpi.Stats.Double.{Double, IsOrdered}
use hyper_dpi.Stats.Loads.{Loads, new_loads, load_workers}
use hyper_dpi.Stats.Loads.Ranked.{Ranked, ranked, fastest}
use hyper_dpi.Stats.Thread.{
  StatsArgs, StatsThread, idle_threshold_of, is_imbalanced, rebalance_workers, report_round,
}

module _ {W : Type 0} ⦃d : Double W⦄ where
  -- Buckets have moved from a fastest worker of the round to a slowest.
  pub record Balanced (args : StatsArgs) (threshold now : ℕ) (l : Loads W) (s s' : Buckets)
      : Type 0 where
    pub enabled : args.rebalance_enabled ≡ true
    pub several : 1 < args.num_workers
    pub over_in : l.max_idx < args.num_workers
    pub under_in : l.min_idx < args.num_workers
    pub apart : l.max_idx ≢ l.min_idx
    pub over_fastest :
        (j : ℕ) → j < args.num_workers → d.lt (l.worker_pps l.max_idx) (l.worker_pps j) ≡ false
    pub under_slowest :
        (j : ℕ) → j < args.num_workers → d.lt (l.worker_pps j) (l.worker_pps l.min_idx) ≡ false
    pub moves : s' ≡ (rebalance l.max_idx l.min_idx now threshold s).1

  is_imbalanced-apart :
      (num_workers : ℕ) (l : Loads W) → is_imbalanced num_workers l ≡ true → l.max_idx ≢ l.min_idx
  unfolding is_imbalanced
  is_imbalanced-apart num_workers l e = ground (arith, e)

  rebalance_workers-Balanced :
      (o : IsOrdered W) (args : StatsArgs) (threshold now : ℕ) (elapsed : W)
      (processed prev : Memory) (l : Loads W) (s : Buckets)
      → Ranked elapsed processed prev args.num_workers l
      → let s' = (rebalance_workers args threshold now l s).1 in
        (s' ≡ s) ⊎ Balanced args threshold now l s s'
  unfolding rebalance_workers
  rebalance_workers-Balanced o args threshold now elapsed processed prev l s r =
      elim (Bool-cases (args.rebalance_enabled && ltb 1 args.num_workers)) [
        | inr off ↦ rw off (inl refl)
        | inl on ↦ elim (Bool-cases (is_imbalanced args.num_workers l)) [
          | inr even ↦ rw (on, even) (inl refl)
          | inl uneven ↦
              rw (on, uneven)
                (inr (record {
                  enabled = ground arith;
                  several = ground arith;
                  over_in =
                      (fastest o elapsed processed prev args.num_workers l 0 (ground arith) r).0;
                  under_in = ground (arith, r.min_in);
                  apart = is_imbalanced-apart args.num_workers l uneven;
                  over_fastest =
                      λ j h. (fastest o elapsed processed prev args.num_workers l j h r).1;
                  under_slowest = r.none_below;
                  moves = refl;
                }))
        ]
      ]

  -- A round of the Stats thread leaves the buckets as they are, or it moves buckets by one call of
  -- `parser_bucket_rebalance`: only when rebalancing is enabled and there are two workers at least,
  -- from one worker of the system to another one, such that by the rates of this round no worker is
  -- faster than the first and none slower than the second.
  pub report_round-Balanced :
      (o : IsOrdered W) (args : StatsArgs) (lcores : List ℕ) (hz now : ℕ) (t : StatsTable)
      (seen : ℕ → StatsTable) (worker_pps : ℕ → W) (bucket_counts : Memory) (s : Buckets)
      (st : StatsThread)
      → let r = report_round args lcores hz now t seen worker_pps bucket_counts s st in
        (r.1 ≡ s) ⊎ Balanced args (idle_threshold_of hz) now r.0.0.loads s r.1
  unfolding report_round
  report_round-Balanced o args lcores hz now t seen worker_pps bucket_counts s st =
      let elapsed = d.div (d.of_nat (sub64 now st.last_tsc)) (d.of_nat hz) in
      let processed = λ (i : ℕ). worker_processed (seen i) (args.worker_lcores i) in
      rebalance_workers-Balanced o args (idle_threshold_of hz) now elapsed processed st.worker_prev
        (load_workers elapsed processed args.num_workers 0 (new_loads worker_pps st.worker_prev)) s
        (ranked o elapsed processed st.worker_prev args.num_workers worker_pps)

  -- Every bucket still names a worker of the system.
  pub report_round-InRange :
      (o : IsOrdered W) (args : StatsArgs) (lcores : List ℕ) (hz now : ℕ) (t : StatsTable)
      (seen : ℕ → StatsTable) (worker_pps : ℕ → W) (bucket_counts : Memory) (s : Buckets)
      (st : StatsThread)
      → args.num_workers ≤ 2 ^ 8
      → now < 2 ^ 64
      → InRange args.num_workers s
      → InRange args.num_workers
          (report_round args lcores hz now t seen worker_pps bucket_counts s st).1
  report_round-InRange o args lcores hz now t seen worker_pps bucket_counts s st w k v =
      let n = args.num_workers in
      let l = (report_round args lcores hz now t seen worker_pps bucket_counts s st).0.0.loads in
      elim (report_round-Balanced o args lcores hz now t seen worker_pps bucket_counts s st) [
        | inl same ↦ subst (InRange n) (sym same) v
        | inr b ↦ subst (InRange n) (sym b.moves) (
            unfold perform in
            perform-InRange n (balance l.max_idx l.min_idx now (idle_threshold_of hz)) s w
              (b.under_in, k) v)
      ]
