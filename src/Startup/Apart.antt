-- ===== src/Startup/Apart.antt =====
-- The lcores of the threads are different.
use hyper_dpi.Prelude.{
  ℕ, zero, suc, ◌≤◌, ◌<◌, ◌≡◌, ◌≢◌, refl, sym, ◌∙◌, List, [], ◌∷◌, ◌++◌, get_or, length,
  length-append, get_or-append_left, arith, Bool-cases, inl, inr, ltb,
}
use hyper_dpi.Engine.{HyperScan}
use hyper_dpi.Startup.{System, Plan}
use hyper_dpi.Startup.Layout.{roles, Misses, Distinct, LaidOut}

Misses-get : (x : ℕ) (xs : List ℕ) (i : ℕ) → Misses x xs → i < length xs → x ≢ get_or xs i 0
Misses-get x [] i m h = absurd (omega arith)
Misses-get x (y ∷ ys) zero (ne, m) h = ne
Misses-get x (y ∷ ys) (suc i) (ne, m) h = Misses-get x ys i m (omega arith)

Distinct-get :
    (xs : List ℕ) (i j : ℕ) → Distinct xs → i < j → j < length xs → get_or xs i 0 ≢ get_or xs j 0
Distinct-get [] i j d h k = absurd (omega arith)
Distinct-get (x ∷ xs) zero zero d h k = absurd (omega arith)
Distinct-get (x ∷ xs) zero (suc j) (m, d) h k = Misses-get x xs j m (omega arith)
Distinct-get (x ∷ xs) (suc i) zero d h k = absurd (omega arith)
Distinct-get (x ∷ xs) (suc i) (suc j) (m, d) h k = Distinct-get xs i j d (omega arith) (omega arith)

get_or-append_at :
    (xs : List ℕ) (y : ℕ) (ys : List ℕ) (n : ℕ) → n ≡ length xs → get_or (xs ++ y ∷ ys) n 0 ≡ y
get_or-append_at [] y ys zero e = refl
get_or-append_at [] y ys (suc n) e = absurd (omega arith)
get_or-append_at (x ∷ xs) y ys zero e = absurd (omega arith)
get_or-append_at (x ∷ xs) y ys (suc n) e = get_or-append_at xs y ys n (omega arith)

module _ {H : HyperScan} {sys : System} (plan : Plan H) (l : LaidOut sys plan) where
  length-worker_lcores : length plan.worker_lcores ≡ plan.num_workers
  length-worker_lcores =
      omega (
        arith,
        l.all_there,
        length-append plan.worker_lcores (plan.tx_lcore ∷ plan.stats_lcore ∷ []),
      )

  -- The role after the RX thread's at index `i`.
  worker_role :
      (i : ℕ) → i < plan.num_workers → get_or (roles plan) (suc i) 0 ≡ get_or plan.worker_lcores i 0
  worker_role i h =
      get_or-append_left plan.worker_lcores (plan.tx_lcore ∷ plan.stats_lcore ∷ []) i 0
        (omega (arith, length-worker_lcores))

  tx_role : get_or (roles plan) (suc plan.num_workers) 0 ≡ plan.tx_lcore
  tx_role =
      get_or-append_at plan.worker_lcores plan.tx_lcore (plan.stats_lcore ∷ []) plan.num_workers
        (sym length-worker_lcores)

  apart :
      (i j : ℕ)
      → i < j
      → j ≤ suc plan.num_workers
      → get_or (roles plan) i 0 ≢ get_or (roles plan) j 0
  apart i j h k = Distinct-get (roles plan) i j l.distinct h (omega (arith, l.all_there))

  pub rx_tx : plan.rx_lcore ≢ plan.tx_lcore
  rx_tx e = apart 0 (suc plan.num_workers) (omega arith) (omega arith) (e ∙ sym tx_role)

  pub rx_worker : (i : ℕ) → i < plan.num_workers → plan.rx_lcore ≢ get_or plan.worker_lcores i 0
  rx_worker i h e = apart 0 (suc i) (omega arith) (omega arith) (e ∙ sym (worker_role i h))

  pub worker_tx : (i : ℕ) → i < plan.num_workers → get_or plan.worker_lcores i 0 ≢ plan.tx_lcore
  worker_tx i h e =
      apart (suc i) (suc plan.num_workers) (omega arith) (omega arith)
        (worker_role i h ∙ e ∙ sym tx_role)

  worker_worker :
      (i j : ℕ)
      → i < j
      → j < plan.num_workers
      → get_or plan.worker_lcores i 0 ≢ get_or plan.worker_lcores j 0
  worker_worker i j h k e =
      apart (suc i) (suc j) (omega arith) (omega arith)
        (worker_role i (omega arith) ∙ e ∙ sym (worker_role j k))

  pub workers_apart :
      (i j : ℕ)
      → i < plan.num_workers
      → j < plan.num_workers
      → i ≢ j
      → get_or plan.worker_lcores i 0 ≢ get_or plan.worker_lcores j 0
  workers_apart i j h k ne e = elim (Bool-cases (ltb i j)) [
    | inl less ↦ worker_worker i j (ground arith) k e
    | inr not_less ↦ worker_worker j i (ground (arith, ne)) h (sym e)
  ]
