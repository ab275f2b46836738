-- ===== src/Startup/Launched.antt =====
-- What holds when the threads are launched.
use hyper_dpi.Prelude.{
  ℕ, zero, suc, ◌+◌, ◌≤◌, ◌<◌, ◌≡◌, ◌↔◌, inl, inr, refl, ap, sym, ◌∙◌, Bool, Bool-cases, true,
  false, not, ◌||◌, ◌==◌, ltb, Bytes, arith,
}
use hyper_dpi.Traffic.{max_workers}
use hyper_dpi.Buckets.{Buckets}
use hyper_dpi.Engine.{HyperScan, Engine}
use hyper_dpi.Startup.Arguments.{
  ExitReason, Boot, exit, ok, ◌>>=◌, ◌>>◌, check, Options, default_options, parse_options,
}
use hyper_dpi.Startup.{
  System, Plan, launch, needed_lcores, nb_mbufs_of, create_rings, boot_workers, boot,
}

-- Inversion of a chain that succeeds.
bind_ok {ℓ κ} :
    {A : Type ℓ} {B : Type κ} (m : Boot A) (f : A → Boot B) {b : B}
    → (m >>= f) ≡ ok b
    → (a : A) × (m ≡ ok a) × (f a ≡ ok b)
bind_ok (exit r) f h = cc
bind_ok (ok a) f h = (a, refl, h)

check_ok {ℓ} :
    {B : Type ℓ} (r : ExitReason) (t : Bool) (k : Boot B) {b : B}
    → (check r t >> k) ≡ ok b
    → (t ≡ true) × (k ≡ ok b)
check_ok r false k h = cc
check_ok r true k h = (refl, h)

create_rings_lem :
    (ring_ok : ℕ → Bool) (n i : ℕ) {u : Unit {0}}
    → create_rings ring_ok n i ≡ ok u
    → (j : ℕ) → i ≤ j
    → j < i + n
    → ring_ok j ≡ true
unfolding create_rings
create_rings_lem ring_ok zero i e j l h = absurd (omega arith)
create_rings_lem ring_ok (suc n) i e j l h =
    let (here, more) =
      check_ok (ExitReason.no_worker_ring i) (ring_ok i) (create_rings ring_ok n (i + 1)) e in
    elim (Bool-cases (i == j)) [
      | inl same ↦ ground (arith, here, ap ring_ok {x = i} {y = j} (ground arith))
      | inr later ↦ create_rings_lem ring_ok n (i + 1) more j (ground arith) (omega arith)
    ]

create_rings_ok :
    (ring_ok : ℕ → Bool) (n i : ℕ)
    → ((j : ℕ) → i ≤ j → j < i + n → ring_ok j ≡ true)
    → create_rings ring_ok n i ≡ ok tt
unfolding create_rings
create_rings_ok ring_ok zero i h = refl
create_rings_ok ring_ok (suc n) i h =
    rw (h i (omega arith) (omega arith))
      (create_rings_ok ring_ok n (i + 1) (λ j l k. h j (omega arith) (omega arith)))

-- The checks that the number of workers and the calls have to pass.
pub record Passed {H : HyperScan} (load : Bytes → Engine H × Bool) (sys : System) (o : Options)
    : Type 0 where
  pub two_workers : 2 ≤ o.num_workers
  pub few_workers : o.num_workers ≤ max_workers
  pub rules : (load o.patterns_file).1 ≡ true
  pub port : 0 < sys.dev_count
  pub lcores : o.num_workers + 4 ≤ sys.lcore_count
  pub pool : sys.pool_ok (nb_mbufs_of o) ≡ true
  pub configure : sys.configure_ok ≡ true
  pub rx_queue : sys.rx_queue_ok ≡ true
  pub tx_queue : sys.tx_queue_ok ≡ true
  pub start : sys.start_ok ≡ true
  pub worker_rings : (i : ℕ) → i < o.num_workers → sys.worker_ring_ok i ≡ true
  pub tx_ring : sys.tx_ring_ok ≡ true

module _ (H : HyperScan) (load : Bytes → Engine H × Bool) (sys : System) (buckets : Buckets) where
  boot_workers-Passed :
      (o : Options) (plan : Plan H)
      → boot_workers H load sys buckets o ≡ ok plan
      → Passed load sys o × (plan ≡ launch H sys o (load o.patterns_file).0 buckets)
  unfolding boot_workers
  boot_workers-Passed o plan e =
      let rings : create_rings sys.worker_ring_ok o.num_workers 0 ≡ ok tt = ground (arith, e) in
      (
        record {
          two_workers = ground (arith, e);
          few_workers = ground (arith, e);
          rules = ground (arith, e);
          port = ground (arith, e);
          lcores = ground (arith, e);
          pool = ground (arith, e);
          configure = ground (arith, e);
          rx_queue = ground (arith, e);
          tx_queue = ground (arith, e);
          start = ground (arith, e);
          worker_rings = λ i h.
              create_rings_lem sys.worker_ring_ok o.num_workers 0 rings i (omega arith)
                (omega arith);
          tx_ring = ground (arith, e);
        },
        ground (arith, e),
      )

  Passed-boot_workers :
      (o : Options)
      → Passed load sys o
      → boot_workers H load sys buckets o ≡ ok (launch H sys o (load o.patterns_file).0 buckets)
  unfolding boot_workers
  Passed-boot_workers o p =
      let n : not (ltb o.num_workers 2 || ltb max_workers o.num_workers) ≡ true =
        ground (arith, p.two_workers, p.few_workers) in
      let d : not (sys.dev_count == 0) ≡ true = ground (arith, p.port) in
      let l : not (ltb sys.lcore_count (needed_lcores o.num_workers + 1)) ≡ true =
        ground (arith, p.lcores, p.few_workers) in
      rw
        (
          n,
          p.rules,
          d,
          l,
          p.pool,
          p.configure,
          p.rx_queue,
          p.tx_queue,
          p.start,
          create_rings_ok sys.worker_ring_ok o.num_workers 0
              (λ j h k. p.worker_rings j (omega arith)),
          p.tx_ring,
        )
        refl

  pub boot_iff :
      (plan : Plan H)
      → (boot H load sys buckets ≡ ok plan) ↔ (
          (sys.eal_ok ≡ true)
          × (o : Options) × (parse_options default_options sys.found ≡ ok o)
          × Passed load sys o
          × (plan ≡ launch H sys o (load o.patterns_file).0 buckets))
  unfolding boot
  boot_iff plan = (
    λ e.
        let eal : sys.eal_ok ≡ true = ground (arith, e) in
        let (o, parsed, more) =
          bind_ok (parse_options default_options sys.found) (boot_workers H load sys buckets)
            (simp eal at e) in
        let (passed, same) = boot_workers-Passed o plan more in (eal, o, parsed, passed, same),
    λ h.
        let (eal, o, parsed, passed, same) = h in
        simp (eal, parsed) (Passed-boot_workers o passed ∙ ap ok (sym same)),
  )
