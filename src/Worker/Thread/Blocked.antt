-- ===== src/Worker/Thread/Blocked.antt =====
-- A flow that is dropped, through the life of a worker.
use hyper_dpi.Prelude.{ℕ, ◌+◌, ◌≡◌, refl, Bool, Option, List, [], ◌∷◌, arith, ◌∙◌}
use hyper_dpi.Traffic.{drop}
use hyper_dpi.Packet.{FlowKey, Mbuf}
use hyper_dpi.Table.{FlowHash}
use hyper_dpi.Table.Verdict.{HasVerdict}
use hyper_dpi.Engine.{HyperScan, Engine}
use hyper_dpi.Worker.{Worker, worker_burst}
use hyper_dpi.Worker.Conserve.{count}
use hyper_dpi.Worker.Blocked.{IsFlow, Awake, last_after, Held, worker_burst-Held}
use hyper_dpi.Worker.Thread.{Round, worker_rounds}
use hyper_dpi.Worker.Thread.Lifetime.{AllFit, count_taken, worker_rounds-Accounted}

-- The same of the packets of all rounds.
abbrev pub AllAwake : (Mbuf → Bool) → ℕ → ℕ → List Round → Type 0
AllAwake p timeout last [] = Unit {0}
AllAwake p timeout last (r ∷ rs) =
    Awake p timeout last r.arrivals × AllAwake p timeout (last_after p last r.arrivals) rs

module _ (fh : FlowHash) (H : HyperScan) (e : Engine H) (lcore : ℕ) (scratch : Option H.Scratch)
    (k : FlowKey) (i : ℕ) (mark : Bool) (timeout : ℕ) (p : Mbuf → Bool) (of_flow : IsFlow k p) where
  worker_rounds-Held :
      (w : Worker fh H) (rounds : List Round) (last : ℕ)
      → Held fh k i mark timeout w.ft last
      → AllAwake p timeout last rounds
      → let w' = worker_rounds fh H e lcore scratch w rounds in
        HasVerdict fh w'.ft k i drop mark × (count p w'.tx_ring ≡ count p w.tx_ring)
  unfolding worker_rounds
  worker_rounds-Held w [] last h awake = (h.verdict, refl)
  worker_rounds-Held w (r ∷ rs) last h (now_awake, later) =
      let (held, ring) =
        worker_burst-Held fh H e scratch lcore k i mark timeout p of_flow r.accepts w r.arrivals
          last h now_awake in
      let (verdict, ring') =
        worker_rounds-Held (worker_burst fh H e scratch lcore r.accepts w r.arrivals) rs _ held
          later in
      (verdict, ring' ∙ ring)

-- Once a flow has the verdict DROP, none of its packets gets past the worker, whatever their
-- payloads and whatever other packets come between them, through any number of bursts: those in the
-- TX ring are the ones that were there before, every further packet of the flow goes back to the
-- pool, and the flow still has its verdict. This holds as long as the flow is not silent for longer
-- than the timeout of the table: the clock of each packet's sweep is at most the timeout past the
-- flow's last packet. The packets of the flow are those that the parser accepts with its key, and an
-- enqueue takes no more than it is given.
pub worker_rounds-Blocked :
    (fh : FlowHash) (H : HyperScan) (e : Engine H) (lcore : ℕ) (scratch : Option H.Scratch)
    (k : FlowKey) (i : ℕ) (mark : Bool) (p : Mbuf → Bool) (w : Worker fh H) (rounds : List Round)
    → IsFlow k p
    → HasVerdict fh w.ft k i drop mark
    → AllAwake p w.ft.timeout_cycles (w.ft.states i).last_seen_tsc rounds
    → AllFit rounds
    → let w' = worker_rounds fh H e lcore scratch w rounds in
      (count p w'.tx_ring ≡ count p w.tx_ring)
      × (count p w'.freed ≡ count_taken p rounds + count p w.freed)
      × HasVerdict fh w'.ft k i drop mark
worker_rounds-Blocked fh H e lcore scratch k i mark p w rounds of_flow v awake fits =
    let (verdict, ring) =
      worker_rounds-Held fh H e lcore scratch k i mark w.ft.timeout_cycles p of_flow w rounds _
        (record { verdict = v; seen = refl; limit = refl }) awake in
    let kept = (worker_rounds-Accounted fh H e lcore scratch w rounds fits).kept p in
    (ring, omega (arith, ring, kept), verdict)
