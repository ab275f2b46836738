-- ===== src/Buckets/Rebalance.antt =====
-- Which buckets a call of `parser_bucket_rebalance` moves, and where to.
use hyper_dpi.Prelude.{
  ℕ, zero, suc, ◌+◌, ◌≤◌, ◌<◌, ◌≡◌, refl, true, ◌⊎◌, inl, inr, arith, u8, update, ◌-◌, ◌^◌, ◌↔◌,
  ◌∙◌,
}
use hyper_dpi.Buckets.{
  Buckets, num_buckets, max_buckets_per_pass, is_idle, eligible, rebalance_loop, rebalance,
}

module _ (over under now threshold : ℕ) where
  abbrev take_bucket : Buckets → ℕ → Buckets
  take_bucket s b = record s { worker = update s.worker b (u8 under) }

  abbrev run : ℕ → ℕ → ℕ → Buckets → ℕ × Buckets
  run = rebalance_loop over under now threshold

  pub rebalance_loop_outside :
      (n b moved : ℕ) (s : Buckets) (j : ℕ)
      → (j < b) ⊎ (b + n ≤ j)
      → (run n b moved s).1.worker j ≡ s.worker j
  unfolding rebalance_loop
  rebalance_loop_outside zero b moved s j h = refl
  rebalance_loop_outside (suc n) b moved s j h = ground (
    arith,
    rebalance_loop_outside n (b + 1) moved s j,
    rebalance_loop_outside n (b + 1) (moved + 1) (take_bucket s b) j,
  )

  rebalance_loop-last_seen :
      (n b moved : ℕ) (s : Buckets) → (run n b moved s).1.last_seen ≡ s.last_seen
  unfolding rebalance_loop
  rebalance_loop-last_seen zero b moved s = refl
  rebalance_loop-last_seen (suc n) b moved s = ground (
    arith,
    rebalance_loop-last_seen n (b + 1) moved s,
    rebalance_loop-last_seen n (b + 1) (moved + 1) (take_bucket s b),
  )

  rebalance_loop-moved :
      (n b moved : ℕ) (s : Buckets)
      → moved ≤ max_buckets_per_pass
      → (moved ≤ (run n b moved s).0) × ((run n b moved s).0 ≤ max_buckets_per_pass)
  unfolding rebalance_loop
  rebalance_loop-moved zero b moved s h = omega arith
  rebalance_loop-moved (suc n) b moved s h = ground (
    arith,
    rebalance_loop-moved n (b + 1) moved s,
    rebalance_loop-moved n (b + 1) (moved + 1) (take_bucket s b),
  )

  -- Bucket `j` is as before, or it was idle on the overloaded worker and now is the other's.
  abbrev pub Shifted : Buckets → Buckets → ℕ → Type 0
  Shifted s s' j =
      (s'.worker j ≡ s.worker j)
      ⊎ ((eligible over under now threshold s j ≡ true) × (s'.worker j ≡ u8 under))

  rebalance_loop-Shifted : (n b moved : ℕ) (s : Buckets) (j : ℕ) → Shifted s (run n b moved s).1 j
  unfolding rebalance_loop eligible
  rebalance_loop-Shifted zero b moved s j = inl refl
  rebalance_loop-Shifted (suc n) b moved s j = ground (
    arith,
    rebalance_loop-Shifted n (b + 1) moved s j,
    rebalance_loop-Shifted n (b + 1) (moved + 1) (take_bucket s b) j,
    rebalance_loop_outside n (b + 1) (moved + 1) (take_bucket s b) j,
  )

  rebalance_loop_complete :
      (n b moved : ℕ) (s : Buckets) (j : ℕ)
      → moved ≤ max_buckets_per_pass
      → b ≤ j
      → j < b + n
      → (run n b moved s).0 < max_buckets_per_pass
      → eligible over under now threshold s j ≡ true
      → (run n b moved s).1.worker j ≡ u8 under
  unfolding rebalance_loop eligible
  rebalance_loop_complete zero b moved s j m l h k e = absurd (omega arith)
  rebalance_loop_complete (suc n) b moved s j m l h k e = ground (
    arith,
    rebalance_loop_complete n (b + 1) moved s j,
    rebalance_loop_complete n (b + 1) (moved + 1) (take_bucket s b) j,
    rebalance_loop_outside n (b + 1) (moved + 1) (take_bucket s b) j,
    rebalance_loop-moved n (b + 1) (moved + 1) (take_bucket s b),
  )

-- Bucket `b` is on worker `over`, and was last stamped more than `threshold` cycles before `now`.
abbrev pub Stale : ℕ → ℕ → ℕ → Buckets → ℕ → Type 0
Stale over now threshold s b =
    (s.worker b ≡ over) × (s.last_seen b < now) × (threshold < now - s.last_seen b)

pub eligible_iff :
    (over under now threshold : ℕ) (s : Buckets) (b : ℕ)
    → now < 2 ^ 64
    → (eligible over under now threshold s b ≡ true) ↔ Stale over now threshold s b
unfolding eligible is_idle
eligible_iff over under now threshold s b h = (λ e. ground arith, λ e. ground arith)

pub rebalance_lem :
    (over under now threshold : ℕ) (s : Buckets)
    → now < 2 ^ 64
    → under < 2 ^ 8
    → let (moved, s') = rebalance over under now threshold s in
      (moved ≤ max_buckets_per_pass)
      × ((b : ℕ)
          → (s'.worker b ≡ s.worker b) ⊎ (Stale over now threshold s b × (s'.worker b ≡ under)))
      × ((b : ℕ) → num_buckets ≤ b → s'.worker b ≡ s.worker b)
      × (s'.last_seen ≡ s.last_seen)
      × (moved < max_buckets_per_pass
          → (b : ℕ) → b < num_buckets
          → Stale over now threshold s b
          → s'.worker b ≡ under)
unfolding rebalance
rebalance_lem over under now threshold s hn hu = (
  (rebalance_loop-moved over under now threshold num_buckets 0 0 s (omega arith)).1,
  λ b.
      shifted (rebalance_loop over under now threshold num_buckets 0 0 s).1 b
        (rebalance_loop-Shifted over under now threshold num_buckets 0 0 s b),
  λ b h. rebalance_loop_outside over under now threshold num_buckets 0 0 s b (inr (omega arith)),
  rebalance_loop-last_seen over under now threshold num_buckets 0 0 s,
  λ m b h e.
      rebalance_loop_complete over under now threshold num_buckets 0 0 s b (omega arith)
        (omega arith) (omega arith) m ((eligible_iff over under now threshold s b hn).1 e)
      ∙ small,
)
  where
    small : u8 under ≡ under
    small = omega arith

    shifted :
        (s' : Buckets) (b : ℕ)
        → Shifted over under now threshold s s' b
        → (s'.worker b ≡ s.worker b) ⊎ (Stale over now threshold s b × (s'.worker b ≡ under))
    shifted s' b (inl kept) = inl kept
    shifted s' b (inr (e, w)) = inr ((eligible_iff over under now threshold s b hn).0 e, w ∙ small)
