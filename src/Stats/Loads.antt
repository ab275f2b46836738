-- ===== src/Stats/Loads.antt =====
-- src/stats.c, the loop of `stats_thread_main` over the workers: the rate of each, their sum, the
-- fastest and the slowest.
pub mod Ranked
use hyper_dpi.Prelude.{
  ℕ, zero, suc, ◌+◌, ◌≤◌, ◌<◌, ◌≡◌, ◌⊎◌, inl, inr, Bool, Bool-cases, true, false, if◌then◌else◌,
  Memory, update, sub64, ltb, arith, refl, ◌∙◌,
}
use hyper_dpi.Stats.Double.{Double, IsOrdered}

-- The variables of the loop.
pub record Loads (W : Type 0) : Type 0 where
  pub worker_pps : ℕ → W
  pub worker_prev : Memory
  pub sum_pps : W
  pub max_pps : W
  pub max_idx : ℕ
  pub min_idx : ℕ

module _ {W : Type 0} ⦃d : Double W⦄ where
  abbrev pub pps_of : W → ℕ → W
  pps_of elapsed n = if d.lt d.nought elapsed then d.div (d.of_nat n) elapsed else d.nought

  -- Before the loop; `worker_pps` is not initialised.
  abbrev pub new_loads : (ℕ → W) → Memory → Loads W
  new_loads worker_pps worker_prev = record {
    worker_pps = worker_pps;
    worker_prev = worker_prev;
    sum_pps = d.nought;
    max_pps = d.nought;
    max_idx = 0;
    min_idx = 0;
  }

  -- The round of worker `i`: `cur` is the counter as it is read.
  unfoldable pub load_worker : W → ℕ → ℕ → Loads W → Loads W
  load_worker elapsed cur i l =
      let pps = pps_of elapsed (sub64 cur (l.worker_prev i)) in
      let worker_pps = update l.worker_pps i pps in
      let faster = d.lt l.max_pps pps in
      record {
        worker_pps = worker_pps;
        worker_prev = update l.worker_prev i cur;
        sum_pps = d.add l.sum_pps pps;
        max_pps = if faster then pps else l.max_pps;
        max_idx = if faster then i else l.max_idx;
        min_idx = if d.lt pps (worker_pps l.min_idx) then i else l.min_idx;
      }

  -- The loop, from worker `i` on for the rounds that are left.
  unfoldable pub load_workers : W → Memory → ℕ → ℕ → Loads W → Loads W
  load_workers elapsed processed zero i l = l
  load_workers elapsed processed (suc n) i l =
      load_workers elapsed processed n (i + 1) (load_worker elapsed (processed i) i l)
