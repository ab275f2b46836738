-- ===== src/Stats/Loads/Ranked.antt =====
-- What the loop over the workers finds.
use hyper_dpi.Prelude.{
  ℕ, zero, suc, ◌+◌, ◌<◌, ◌≡◌, ◌⊎◌, inr, false, if◌then◌else◌, Memory, sub64, ltb, arith, refl, ◌∙◌,
  subst,
}
use hyper_dpi.Stats.Double.{Double, IsOrdered}
use hyper_dpi.Stats.Loads.{Loads, pps_of, new_loads, load_worker, load_workers}

module _ {W : Type 0} ⦃d : Double W⦄ where
  -- After the rounds of the first `i` workers: the rates, and who is the fastest and the slowest.
  pub record Ranked (elapsed : W) (processed prev : Memory) (i : ℕ) (l : Loads W) : Type 0 where
    pub rates : (j : ℕ) → j < i → l.worker_pps j ≡ pps_of elapsed (sub64 (processed j) (prev j))
    pub new_prev : (j : ℕ) → l.worker_prev j ≡ (if ltb j i then processed j else prev j)
    pub min_in : (l.min_idx < i) ⊎ (l.min_idx ≡ 0)
    pub none_below : (j : ℕ) → j < i → d.lt (l.worker_pps j) (l.worker_pps l.min_idx) ≡ false
    pub max_rate :
        ((l.max_pps ≡ l.worker_pps l.max_idx) × (l.max_idx < i))
        ⊎ ((l.max_pps ≡ d.nought) × (l.max_idx ≡ 0))
    pub none_above : (j : ℕ) → j < i → d.lt l.max_pps (l.worker_pps j) ≡ false

  module _ (o : IsOrdered W) (elapsed : W) (processed prev : Memory) where
    load_worker-Ranked :
        (i : ℕ) (l : Loads W)
        → Ranked elapsed processed prev i l
        → Ranked elapsed processed prev (i + 1) (load_worker elapsed (processed i) i l)
    unfolding load_worker
    load_worker-Ranked i l r =
        let pps = pps_of elapsed (sub64 (processed i) (l.worker_prev i)) in
        let at : l.worker_prev i ≡ prev i = r.new_prev i ∙ ground arith in
        record {
          rates = λ j h. ground (arith, at, r.rates j);
          new_prev = λ j. ground (arith, r.new_prev j);
          min_in = ground (arith, r.min_in);
          none_below = λ j h. ground (
            arith,
            r.min_in,
            r.none_below j,
            o.lt_irrefl pps,
            o.lt_trans (l.worker_pps j) pps (l.worker_pps l.min_idx),
          );
          max_rate = ground (arith, r.max_rate);
          none_above = λ j h.
              ground
                (arith, r.none_above j, o.lt_irrefl pps, o.lt_trans l.max_pps pps (l.worker_pps j));
        }

    load_workers-Ranked :
        (n i : ℕ) (l : Loads W)
        → Ranked elapsed processed prev i l
        → Ranked elapsed processed prev (i + n) (load_workers elapsed processed n i l)
    unfolding load_workers
    load_workers-Ranked zero i l r = subst (λ k. Ranked elapsed processed prev k l) (omega arith) r
    load_workers-Ranked (suc n) i l r =
        let l' = load_worker elapsed (processed i) i l in
        subst (λ k. Ranked elapsed processed prev k (load_workers elapsed processed n (i + 1) l'))
          (omega arith) (load_workers-Ranked n (i + 1) l' (load_worker-Ranked i l r))

    new_loads-Ranked :
        (worker_pps : ℕ → W) → Ranked elapsed processed prev 0 (new_loads worker_pps prev)
    new_loads-Ranked worker_pps = record {
      rates = λ j h. absurd (omega arith);
      new_prev = λ j. ground arith;
      min_in = inr refl;
      none_below = λ j h. absurd (omega arith);
      max_rate = inr (refl, refl);
      none_above = λ j h. absurd (omega arith);
    }

    pub ranked :
        (n : ℕ) (worker_pps : ℕ → W)
        → Ranked elapsed processed prev n
            (load_workers elapsed processed n 0 (new_loads worker_pps prev))
    ranked n worker_pps =
        subst
          (λ k.
            Ranked elapsed processed prev k
              (load_workers elapsed processed n 0 (new_loads worker_pps prev)))
          (omega arith)
          (load_workers-Ranked n 0 (new_loads worker_pps prev) (new_loads-Ranked worker_pps))

    pps_nonneg : (n : ℕ) → d.lt (pps_of elapsed n) d.nought ≡ false
    pps_nonneg n = ground (arith, o.div_nonneg n elapsed, o.lt_irrefl d.nought)

    -- The fastest worker is one of the workers, and none is faster.
    pub fastest :
        (n : ℕ) (l : Loads W) (j : ℕ)
        → j < n
        → Ranked elapsed processed prev n l
        → (l.max_idx < n) × (d.lt (l.worker_pps l.max_idx) (l.worker_pps j) ≡ false)
    fastest n l j h r = ground (
      arith,
      r.max_rate,
      r.none_above j h,
      r.rates l.max_idx,
      pps_nonneg (sub64 (processed l.max_idx) (prev l.max_idx)),
      o.around_nought (l.worker_pps l.max_idx) (l.worker_pps j),
    )
