-- ===== src/Startup/Layout.antt =====
-- Which lcore runs which thread.
use hyper_dpi.Prelude.{
  ℕ, zero, suc, ◌+◌, ◌≤◌, ◌≡◌, ◌≢◌, refl, ap, sym, subst, Bool, List, [], ◌∷◌, ◌++◌, Bytes, get_or,
  take, length, length-take, arith,
}
use hyper_dpi.Traffic.{max_workers}
use hyper_dpi.Buckets.{Buckets}
use hyper_dpi.Buckets.Range.{InRange, table_init-InRange}
use hyper_dpi.Engine.{HyperScan, Engine}
use hyper_dpi.Startup.Arguments.{ok}
use hyper_dpi.Startup.{System, Plan, needed_lcores, worker_lcores_of, boot}
use hyper_dpi.Startup.Launched.{boot_iff}

-- The lcores of the RX thread, the workers, the TX thread and the Stats thread.
abbrev pub roles : {H : HyperScan} → Plan H → List ℕ
roles plan = plan.rx_lcore ∷ (plan.worker_lcores ++ plan.tx_lcore ∷ plan.stats_lcore ∷ [])

abbrev pub Misses : ℕ → List ℕ → Type 0
Misses x [] = Unit {0}
Misses x (y ∷ ys) = (x ≢ y) × Misses x ys

abbrev pub Distinct : List ℕ → Type 0
Distinct [] = Unit {0}
Distinct (x ∷ xs) = Misses x xs × Distinct xs

Misses-take : (x n : ℕ) (xs : List ℕ) → Misses x xs → Misses x (take n xs)
Misses-take x zero xs m = tt
Misses-take x (suc n) [] m = tt
Misses-take x (suc n) (y ∷ ys) (ne, m) = (ne, Misses-take x n ys m)

Distinct-take : (n : ℕ) (xs : List ℕ) → Distinct xs → Distinct (take n xs)
Distinct-take zero xs h = tt
Distinct-take (suc n) [] h = tt
Distinct-take (suc n) (x ∷ xs) (m, h) = (Misses-take x n xs m, Distinct-take n xs h)

-- The indices into `lcores` are the first ones, each once.
roles_lem :
    (n : ℕ) (xs : List ℕ)
    → 2 ≤ n
    → n ≤ 4
    → n + 3 ≤ length xs
    → let lcores = take (needed_lcores n) xs in
      get_or lcores 0 0
        ∷ (worker_lcores_of lcores n 0 ++ get_or lcores (1 + n) 0 ∷ get_or lcores (2 + n) 0 ∷ [])
      ≡ take (n + 3) xs
unfolding worker_lcores_of
roles_lem (suc (suc zero)) (a ∷ b ∷ c ∷ d ∷ e ∷ xs) lo hi h = refl
roles_lem (suc (suc (suc zero))) (a ∷ b ∷ c ∷ d ∷ e ∷ f ∷ xs) lo hi h = refl
roles_lem (suc (suc (suc (suc zero)))) (a ∷ b ∷ c ∷ d ∷ e ∷ f ∷ g ∷ xs) lo hi h = refl
roles_lem _ _ lo hi h = absurd (omega arith)

-- How the threads are laid out.
pub record LaidOut {H : HyperScan} (sys : System) (plan : Plan H) : Type 0 where
  pub two_workers : 2 ≤ plan.num_workers
  pub few_workers : plan.num_workers ≤ max_workers
  pub first_lcores : roles plan ≡ take (plan.num_workers + 3) sys.lcore_workers
  pub all_there : length (roles plan) ≡ plan.num_workers + 3
  pub distinct : Distinct (roles plan)
  pub buckets_ok : InRange plan.num_workers plan.buckets

-- When the threads are launched, there are two to four workers; the RX thread, the workers, the TX
-- thread and the Stats thread run in this order on the first lcores that are not the main one, each
-- on an lcore of its own; no index into the array of these lcores is past its end; and every bucket
-- names one of the workers. The main lcore and the others are all the lcores there are, and no
-- lcore is listed twice.
pub boot-LaidOut :
    (H : HyperScan) (load : Bytes → Engine H × Bool) (sys : System) (buckets : Buckets)
    (plan : Plan H)
    → sys.lcore_count ≡ 1 + length sys.lcore_workers
    → Distinct sys.lcore_workers
    → boot H load sys buckets ≡ ok plan
    → LaidOut sys plan
boot-LaidOut H load sys buckets plan all distinct e =
    let (eal, o, parsed, p, same) = (boot_iff H load sys buckets plan).0 e in
    subst (LaidOut sys) (sym same) (
      let n = o.num_workers in
      let enough : n + 3 ≤ length sys.lcore_workers = omega (arith, p.lcores) in
      let at = roles_lem n sys.lcore_workers p.two_workers p.few_workers enough in
      record {
        two_workers = p.two_workers;
        few_workers = p.few_workers;
        first_lcores = at;
        all_there = omega (arith, ap (length {A = ℕ}) at, length-take (n + 3) sys.lcore_workers);
        distinct = subst Distinct (sym at) (Distinct-take (n + 3) sys.lcore_workers distinct);
        buckets_ok =
            table_init-InRange buckets n (omega (arith, p.two_workers))
              (omega (arith, p.few_workers));
      })
