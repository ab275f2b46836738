-- ===== src/Pipeline/Counters.antt =====
-- The counters of each lcore count what its thread has done, whatever the interleaving.
use hyper_dpi.Prelude.{
  ℕ, ◌%◌, ◌<◌, ◌≤◌, ◌^◌, ◌≡◌, refl, sym, ap, ◌∙◌, Bool-cases, inl, inr, ==_iff, List, [], Option,
  length, length-append, get_or, add64, arith, ◌==◌, subst,
}
use hyper_dpi.Packet.{FlowKey, Mbuf}
use hyper_dpi.Table.{FlowHash, FlowTable}
use hyper_dpi.Engine.{HyperScan}
use hyper_dpi.Stats.{StatsTable, CoreStats, stats_init, worker_processed}
use hyper_dpi.Stats.Double.{Double}
use hyper_dpi.Stats.Thread.{StatsThread}
use hyper_dpi.Startup.{Plan, System}
use hyper_dpi.Startup.Layout.{LaidOut}
use hyper_dpi.Startup.Apart.{rx_tx, rx_worker, worker_tx, workers_apart}
use hyper_dpi.Worker.{Arrival}
use hyper_dpi.Worker.Burst.{worker_burst-Counted}
use hyper_dpi.Rx.{Rx}
use hyper_dpi.Rx.Frame.{rx_burst-frame}
use hyper_dpi.Tx.{Tx}
use hyper_dpi.Tx.Conserve.{tx_burst-Sent}
use hyper_dpi.Pipeline.{
  Pipeline, receive, work, transmit, report, Step, received, worked, transmitted, reported, Steps,
  done, after, start,
}

abbrev pub settled : StatsTable → ℕ → ℕ
settled t l = add64 (t l).forwarded_packets (t l).dropped_packets

-- Up to the wrap-around at 2^64: the RX thread has counted what was received, the TX thread what is
-- on the wire, and each worker has forwarded or dropped every packet that it has classified.
pub record Accounts {fh : FlowHash} {H : HyperScan} (plan : Plan H) (s : Pipeline fh H)
    : Type 0 where
  pub rx : (s.stats plan.rx_lcore).rx_packets ≡ length s.received % 2 ^ 64
  pub tx : (s.stats plan.tx_lcore).tx_packets % 2 ^ 64 ≡ length s.wire % 2 ^ 64
  pub workers :
      (i : ℕ)
      → i < plan.num_workers
      → worker_processed s.stats (get_or plan.worker_lcores i 0)
        ≡ settled s.stats (get_or plan.worker_lcores i 0)

worker_processed-ap :
    (t t' : StatsTable) (l : ℕ) → t' l ≡ t l → worker_processed t' l ≡ worker_processed t l
unfolding worker_processed
worker_processed-ap t t' l e =
    ap (λ (c : CoreStats). add64 (add64 c.http_packets c.https_packets) c.non_dpi_packets) e

settled-ap : (t t' : StatsTable) (l : ℕ) → t' l ≡ t l → settled t' l ≡ settled t l
settled-ap t t' l e = ap (λ (c : CoreStats). add64 c.forwarded_packets c.dropped_packets) e

-- A slot that nobody has written keeps the worker's account.
keeps_account :
    (t t' : StatsTable) (l : ℕ)
    → t' l ≡ t l
    → worker_processed t l ≡ settled t l
    → worker_processed t' l ≡ settled t' l
keeps_account t t' l e h = worker_processed-ap t t' l e ∙ h ∙ sym (settled-ap t t' l e)

module _ (fh : FlowHash) (H : HyperScan) (jhash : FlowKey → ℕ) (sys : System) (plan : Plan H)
    (l : LaidOut sys plan) where
  receive-Accounts :
      (accepts : ℕ → ℕ → ℕ) (now : ℕ) (pkts : List Mbuf) (s : Pipeline fh H)
      → Accounts plan s
      → Accounts plan (receive fh H jhash plan accepts now pkts s)
  unfolding receive
  receive-Accounts accepts now pkts s a =
      let rx : Rx = record {
        buckets = s.buckets;
        stats = s.stats;
        dest = λ _. [];
        rings = s.rings;
        freed = s.freed;
      } in
      let (_, counted, others) =
        rx_burst-frame jhash plan.rx_lcore accepts plan.num_workers now rx pkts in
      record {
        rx = omega (arith, counted, a.rx, length-append s.received pkts);
        tx =
            ap (λ (c : CoreStats). c.tx_packets % 2 ^ 64)
              (others plan.tx_lcore (λ e. rx_tx plan l (sym e)))
            ∙ a.tx;
        workers = λ i h.
            keeps_account s.stats _ _
              (others (get_or plan.worker_lcores i 0) (λ e. rx_worker plan l i h (sym e)))
              (a.workers i h);
      }

  work-Accounts :
      (w : ℕ) (accepts : ℕ → ℕ) (arrivals : List Arrival) (s : Pipeline fh H)
      → w < plan.num_workers
      → ((n : ℕ) → accepts n ≤ n)
      → Accounts plan s
      → Accounts plan (work fh H jhash plan w accepts arrivals s)
  unfolding work
  work-Accounts w accepts arrivals s in_system fits a =
      let stats' = (work fh H jhash plan w accepts arrivals s).stats in
      let c =
        (worker_burst-Counted fh H plan.engine (s.scratches w) (get_or plan.worker_lcores w 0)
          accepts
          (record {
            ft = s.tables w;
            stats = s.stats;
            fwd = [];
            tx_ring = s.tx_ring;
            freed = s.freed;
          })
          arrivals fits).1 in
      record {
        rx =
            ap (λ (x : CoreStats). x.rx_packets)
              (c.others plan.rx_lcore (rx_worker plan l w in_system))
            ∙ a.rx;
        tx =
            ap (λ (x : CoreStats). x.tx_packets % 2 ^ 64)
              (c.others plan.tx_lcore (λ e. worker_tx plan l w in_system (sym e)))
            ∙ a.tx;
        workers = λ i h. elim (Bool-cases (i == w)) [
          | inl same ↦
              let at = λ (x : ℕ).
                worker_processed stats' (get_or plan.worker_lcores x 0)
                ≡ settled stats' (get_or plan.worker_lcores x 0) in
              subst at (sym ((==_iff i w).0 same)) (
                c.processed
                ∙ ap (λ x. add64 x (length arrivals)) (a.workers w in_system)
                ∙ sym c.settled)
          | inr other ↦
              keeps_account s.stats _ _
                (c.others (get_or plan.worker_lcores i 0)
                  (workers_apart plan l i w h in_system (λ e. absurd (ground (arith, e, other)))))
                (a.workers i h)
        ];
      }

  transmit-Accounts :
      (accepts : ℕ → ℕ) (n : ℕ) (s : Pipeline fh H)
      → ((k : ℕ) → accepts k ≤ k)
      → n ≤ length s.tx_ring
      → Accounts plan s
      → Accounts plan (transmit fh H jhash plan accepts n s)
  unfolding transmit
  transmit-Accounts accepts n s fits h a =
      let tx : Tx = record {
        stats = s.stats;
        tx_ring = s.tx_ring;
        wire = s.wire;
        freed = s.freed;
      } in
      let sent = tx_burst-Sent plan.tx_lcore accepts n tx fits h in
      record {
        rx = ap (λ (x : CoreStats). x.rx_packets) (sent.others plan.rx_lcore (rx_tx plan l)) ∙ a.rx;
        tx = omega (arith, sent.counted, sent.longer, a.tx);
        workers = λ i k.
            keeps_account s.stats _ _
              (sent.others (get_or plan.worker_lcores i 0) (worker_tx plan l i k)) (a.workers i k);
      }

  module _ (W : Type 0) ⦃d : Double W⦄ where
    Step-Accounts :
        {s s' : Pipeline fh H} → Step fh H jhash plan W s s' → Accounts plan s → Accounts plan s'
    unfolding report
    Step-Accounts (received {s} accepts now pkts) a = receive-Accounts accepts now pkts s a
    Step-Accounts (worked {s} w accepts arrivals rest in_system fits front) a =
        work-Accounts w accepts arrivals s in_system fits a
    Step-Accounts (transmitted {s} accepts n fits h) a = transmit-Accounts accepts n s fits h a
    Step-Accounts (reported {s} lcores hz now seen worker_pps bucket_counts t) a = record {
      rx = a.rx;
      tx = a.tx;
      workers = a.workers;
    }

    Steps-Accounts :
        {s s' : Pipeline fh H} → Steps fh H jhash plan W s s' → Accounts plan s → Accounts plan s'
    Steps-Accounts done a = a
    Steps-Accounts (after r step) a = Step-Accounts step (Steps-Accounts r a)

-- In a system that `main` has launched, whatever rounds its threads make and however they
-- interleave, each counter counts its own thread's work, up to its wrap-around at 2^64: the RX
-- thread's slot has the number of packets received, the TX thread's the number of packets on the
-- wire, and each worker's slot has as many packets forwarded or dropped as packets classified. The
-- counters start at zero, as `stats_init` leaves them.
pub Steps-Accounts_launched :
    (fh : FlowHash) (H : HyperScan) (jhash : FlowKey → ℕ) (W : Type 0) ⦃d : Double W⦄ (sys : System)
    (plan : Plan H) (tables : ℕ → FlowTable fh) (scratches : ℕ → Option H.Scratch)
    (reporter : StatsThread) (s : Pipeline fh H)
    → LaidOut sys plan
    → plan.stats ≡ stats_init
    → Steps fh H jhash plan W (start fh H plan tables scratches reporter) s
    → Accounts plan s
unfolding stats_init worker_processed
Steps-Accounts_launched fh H jhash W sys plan tables scratches reporter s laid_out zero_stats
      steps =
    Steps-Accounts fh H jhash sys plan laid_out W steps (record {
      rx = ap (λ (t : StatsTable). (t plan.rx_lcore).rx_packets) zero_stats;
      tx = ap (λ (t : StatsTable). (t plan.tx_lcore).tx_packets % 2 ^ 64) zero_stats;
      workers = λ i h. rw zero_stats refl;
    })
