-- ===== src/Worker/Thread/Lifetime.antt =====
-- A worker's life: nothing leaks on any path, and every packet it takes is accounted for.
use hyper_dpi.Prelude.{
  ℕ, ◌+◌, ◌≡◌, ◌≤◌, ◌⊎◌, Bool, true, false, Option, some, List, [], ◌∷◌, length, arith,
}
use hyper_dpi.Packet.{Mbuf}
use hyper_dpi.Table.{FlowHash}
use hyper_dpi.Table.Lifetime.{Heap}
use hyper_dpi.Engine.{HyperScan, Engine}
use hyper_dpi.Stats.Counters.{Counted, Counted-refl, Counted-trans}
use hyper_dpi.Worker.{Worker, worker_burst}
use hyper_dpi.Worker.Conserve.{count, count_arrivals}
use hyper_dpi.Worker.Burst.{worker_burst-Counted}
use hyper_dpi.Worker.Thread.{Round, Shared, shared, worker_rounds}

abbrev pub AllFit : List Round → Type 0
AllFit [] = Unit {0}
AllFit (r ∷ rs) = ((n : ℕ) → r.accepts n ≤ n) × AllFit rs

abbrev pub taken : List Round → ℕ
taken [] = 0
taken (r ∷ rs) = length r.arrivals + taken rs

abbrev pub count_taken : (Mbuf → Bool) → List Round → ℕ
count_taken p [] = 0
count_taken p (r ∷ rs) = count_arrivals p r.arrivals + count_taken p rs

-- All that was taken has gone to the TX ring or the pool, and is counted.
pub record Accounted (lcore : ℕ) (rounds : List Round) (s s' : Shared) : Type 0 where
  pub kept :
      (p : Mbuf → Bool)
      → count p s'.tx_ring + count p s'.freed
        ≡ count_taken p rounds + (count p s.tx_ring + count p s.freed)
  pub counted : Counted lcore s.stats s'.stats (taken rounds) (taken rounds)

module _ (fh : FlowHash) (H : HyperScan) (e : Engine H) (lcore : ℕ) where
  pub worker_rounds-Accounted :
      (scratch : Option H.Scratch) (w : Worker fh H) (rounds : List Round)
      → AllFit rounds
      → Accounted lcore rounds
          (shared fh H w)
          (shared fh H (worker_rounds fh H e lcore scratch w rounds))
  unfolding worker_rounds
  worker_rounds-Accounted scratch w [] fits = record {
    kept = λ p. omega arith;
    counted = Counted-refl lcore w.stats;
  }
  worker_rounds-Accounted scratch w (r ∷ rs) (fit, fits) =
      let w' = worker_burst fh H e scratch lcore r.accepts w r.arrivals in
      let (kept, counted) = worker_burst-Counted fh H e scratch lcore r.accepts w r.arrivals fit in
      let ih = worker_rounds-Accounted scratch w' rs fits in
      record {
        kept = λ p. omega (arith, kept p, ih.kept p);
        counted =
            Counted-trans lcore _ _ _ (length r.arrivals) (taken rs) (length r.arrivals) (taken rs)
              (omega arith) (omega arith) counted ih.counted;
      }

  abbrev pub Lived : Shared → List Round → Heap → Option (Bool × Shared × Heap) → Type 0
  Lived s rounds heap r =
      (r ≡ some (false, s, heap))
      ⊎ ((s' : Shared) × (r ≡ some (true, s', heap)) × Accounted lcore rounds s s')
