-- ===== src/Pipeline/Conserved.antt =====
-- No packet is lost and none is duplicated, whatever the interleaving.
use hyper_dpi.Prelude.{
  ℕ, zero, suc, ◌+◌, ◌<◌, ◌≤◌, ◌≡◌, refl, sym, ap, Bool, Bool-cases, inl, inr, List, [], ◌∷◌, ◌++◌,
  Option, length, get_or, Memory, update, arith, ◌==◌, if◌then◌else◌, subst,
}
use hyper_dpi.Packet.{FlowKey, Mbuf}
use hyper_dpi.Table.{FlowHash, FlowTable}
use hyper_dpi.Buckets.Range.{InRange}
use hyper_dpi.Engine.{HyperScan}
use hyper_dpi.Stats.Double.{Double, IsOrdered}
use hyper_dpi.Stats.Thread.{StatsThread}
use hyper_dpi.Stats.Thread.Balance.{report_round-InRange}
use hyper_dpi.Traffic.{max_workers}
use hyper_dpi.Startup.{Plan, System}
use hyper_dpi.Startup.Layout.{LaidOut}
use hyper_dpi.Worker.{Arrival, drop_first}
use hyper_dpi.Worker.Conserve.{count, count_arrivals, count-append}
use hyper_dpi.Worker.Burst.{worker_burst-Counted}
use hyper_dpi.Rx.Conserve.{sum_from, sum_from_bump, rx_burst-sum}
use hyper_dpi.Rx.Frame.{rx_burst-frame}
use hyper_dpi.Rx.{Rx}
use hyper_dpi.Tx.{Tx}
use hyper_dpi.Tx.Conserve.{tx_burst-Sent}
use hyper_dpi.Worker.Order.{packets}
use hyper_dpi.Pipeline.{
  Pipeline, stats_args_of, receive, work, transmit, report, Step, received, worked, transmitted,
  reported, Steps, done, after, start,
}

count-packets :
    (p : Mbuf → Bool) (arrivals : List Arrival)
    → count p (packets arrivals) ≡ count_arrivals p arrivals
count-packets p [] = refl
count-packets p (a ∷ rest) = ground (arith, count-packets p rest)

pub drop_first-packets :
    (arrivals : List Arrival) (rest : List Mbuf)
    → drop_first (length arrivals) (packets arrivals ++ rest) ≡ rest
drop_first-packets [] rest = refl
drop_first-packets (a ∷ more) rest = drop_first-packets more rest

-- What taking packets from the front of a ring changes.
taken :
    (p : Mbuf → Bool) (w : ℕ) (arrivals : List Arrival) (rest : List Mbuf) (rings : ℕ → List Mbuf)
    → drop_first (length arrivals) (rings w) ≡ rest
    → rings w ≡ packets arrivals ++ rest
    → (i : ℕ)
    → count p (rings i)
      ≡ count p (update rings w (drop_first (length arrivals) (rings w)) i)
        + (if w == i then count_arrivals p arrivals else 0)
taken p w arrivals rest rings left front i = elim (Bool-cases (w == i)) [
  | inl here ↦
      rw (here, left)
        (omega (
          arith,
          ap (λ j. count p (rings j)) {x = w} {y = i} (ground (arith, here)),
          ap (count p) front,
          count-append p (packets arrivals) rest,
          count-packets p arrivals,
        ))
  | inr other ↦ rw other (omega arith)
]

module _ (fh : FlowHash) (H : HyperScan) (jhash : FlowKey → ℕ) (plan : Plan H) where
  -- The packets that are somewhere between the port and the wire, or have left.
  abbrev pub total : (Mbuf → Bool) → Pipeline fh H → ℕ
  total p s =
      sum_from (λ w. count p (s.rings w)) 0 plan.num_workers
      + (count p s.tx_ring + (count p s.wire + count p s.freed))

  -- Each packet received is in one place, and every bucket names a worker.
  pub record Conserved (s : Pipeline fh H) : Type 0 where
    pub kept : (p : Mbuf → Bool) → total p s ≡ count p s.received
    pub in_range : InRange plan.num_workers s.buckets

  receive-Conserved :
      (accepts : ℕ → ℕ → ℕ) (now : ℕ) (pkts : List Mbuf) (s : Pipeline fh H)
      → Conserved s
      → Conserved (receive fh H jhash plan accepts now pkts s)
  unfolding receive
  receive-Conserved accepts now pkts s c =
      let rx : Rx = record {
        buckets = s.buckets;
        stats = s.stats;
        dest = λ _. [];
        rings = s.rings;
        freed = s.freed;
      } in
      let frame = rx_burst-frame jhash plan.rx_lcore accepts plan.num_workers now rx pkts in
      record {
        kept = λ p. omega (
          arith,
          c.kept p,
          count-append p s.received pkts,
          rx_burst-sum jhash plan.rx_lcore accepts plan.num_workers now rx pkts c.in_range p,
        );
        in_range = λ b h.
            subst (λ x. x < plan.num_workers) (ap (λ (f : Memory). f b) (sym frame.0))
              (c.in_range b h);
      }

  work-Conserved :
      (w : ℕ) (accepts : ℕ → ℕ) (arrivals : List Arrival) (rest : List Mbuf) (s : Pipeline fh H)
      → w < plan.num_workers
      → ((n : ℕ) → accepts n ≤ n)
      → s.rings w ≡ packets arrivals ++ rest
      → Conserved s
      → Conserved (work fh H jhash plan w accepts arrivals s)
  unfolding work
  work-Conserved w accepts arrivals rest s in_system fits front c =
      let burst =
        worker_burst-Counted fh H plan.engine (s.scratches w) (get_or plan.worker_lcores w 0)
          accepts
          (record {
            ft = s.tables w;
            stats = s.stats;
            fwd = [];
            tx_ring = s.tx_ring;
            freed = s.freed;
          })
          arrivals fits in
      let left : drop_first (length arrivals) (s.rings w) ≡ rest =
        rw front (drop_first-packets arrivals rest) in
      record {
        kept = λ p.
            let bump = λ (i : ℕ). taken p w arrivals rest s.rings left front i in
            omega (
              arith,
              c.kept p,
              burst.0 p,
              sum_from_bump (λ i. count p (s.rings i))
                  (λ i. count p (update s.rings w (drop_first (length arrivals) (s.rings w)) i)) w
                  (count_arrivals p arrivals) bump 0 plan.num_workers (omega arith)
                  (omega (arith, in_system)),
            );
        in_range = c.in_range;
      }

  transmit-Conserved :
      (accepts : ℕ → ℕ) (n : ℕ) (s : Pipeline fh H)
      → ((k : ℕ) → accepts k ≤ k)
      → n ≤ length s.tx_ring
      → Conserved s
      → Conserved (transmit fh H jhash plan accepts n s)
  unfolding transmit
  transmit-Conserved accepts n s fits h c =
      let tx : Tx = record {
        stats = s.stats;
        tx_ring = s.tx_ring;
        wire = s.wire;
        freed = s.freed;
      } in
      let sent = tx_burst-Sent plan.tx_lcore accepts n tx fits h in
      record { kept = λ p. omega (arith, c.kept p, sent.kept p); in_range = c.in_range }

  module _ (W : Type 0) ⦃d : Double W⦄ (o : IsOrdered W)
      (few : plan.num_workers ≤ max_workers) where
    Step-Conserved :
        {s s' : Pipeline fh H} → Step fh H jhash plan W s s' → Conserved s → Conserved s'
    unfolding report
    Step-Conserved (received {s} accepts now pkts) c = receive-Conserved accepts now pkts s c
    Step-Conserved (worked {s} w accepts arrivals rest in_system fits front) c =
        work-Conserved w accepts arrivals rest s in_system fits front c
    Step-Conserved (transmitted {s} accepts n fits h) c = transmit-Conserved accepts n s fits h c
    Step-Conserved (reported {s} lcores hz now seen worker_pps bucket_counts t) c = record {
      kept = c.kept;
      in_range =
          report_round-InRange o (stats_args_of plan) lcores hz now s.stats seen worker_pps
            bucket_counts s.buckets s.reporter (omega (arith, few)) t c.in_range;
    }

    Steps-Conserved :
        {s s' : Pipeline fh H} → Steps fh H jhash plan W s s' → Conserved s → Conserved s'
    Steps-Conserved done c = c
    Steps-Conserved (after r step) c = Step-Conserved step (Steps-Conserved r c)

sum_from_nil : (p : Mbuf → Bool) (w n : ℕ) → sum_from (λ i. count p []) w n ≡ 0
sum_from_nil p w zero = refl
sum_from_nil p w (suc n) = omega (arith, sum_from_nil p (w + 1) n)

-- In a system that `main` has launched, whatever rounds its threads make and however they
-- interleave, every packet received is in exactly one place: in a worker's ring, in the TX ring, on
-- the wire or back in the pool, of every kind as many as were received; and every bucket names a
-- worker of the system.
pub Steps-Conserved_launched :
    (fh : FlowHash) (H : HyperScan) (jhash : FlowKey → ℕ) (W : Type 0) ⦃d : Double W⦄
    (o : IsOrdered W) (sys : System) (plan : Plan H) (tables : ℕ → FlowTable fh)
    (scratches : ℕ → Option H.Scratch) (reporter : StatsThread) (s : Pipeline fh H)
    → LaidOut sys plan
    → Steps fh H jhash plan W (start fh H plan tables scratches reporter) s
    → Conserved fh H jhash plan s
Steps-Conserved_launched fh H jhash W o sys plan tables scratches reporter s laid_out steps =
    Steps-Conserved fh H jhash plan W o laid_out.few_workers steps (record {
      kept = λ p. omega (arith, sum_from_nil p 0 plan.num_workers);
      in_range = laid_out.buckets_ok;
    })
