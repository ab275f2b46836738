-- ===== src/Pipeline/Tables.antt =====
-- The flows of every worker are well-formed, whatever the interleaving.
use hyper_dpi.Prelude.{
  ℕ, ◌≡◌, sym, subst, Bool-cases, inl, inr, List, [], ◌∷◌, ◌++◌, Option, length, get_or, ◌==◌,
}
use hyper_dpi.Packet.{FlowKey, Mbuf, flow_rss_hash}
use hyper_dpi.Buckets.{bucket_of}
use hyper_dpi.Packet.Frames.{AllFrames, AllFrames-append, append-AllFrames, AllFrames-Sub}
use hyper_dpi.Table.{FlowHash, FlowTable}
use hyper_dpi.Table.Update.{TableOk}
use hyper_dpi.Engine.{HyperScan}
use hyper_dpi.Stats.Double.{Double}
use hyper_dpi.Stats.Thread.{StatsThread}
use hyper_dpi.Startup.{Plan}
use hyper_dpi.Worker.{Arrival, drop_first}
use hyper_dpi.Worker.Order.{packets}
use hyper_dpi.Worker.Tables.{worker_burst-TableOk}
use hyper_dpi.Rx.{Rx}
use hyper_dpi.Rx.Steer.{packets_of}
use hyper_dpi.Rx.Order.{rx_burst-Grown}
use hyper_dpi.Pipeline.{
  Pipeline, receive, work, transmit, report, Step, received, worked, transmitted, reported, Steps,
  done, after, start,
}
use hyper_dpi.Pipeline.Conserved.{drop_first-packets}

packets_of-AllFrames :
    (jhash : FlowKey → ℕ) (worker : ℕ → ℕ) (i : ℕ) (pkts : List Mbuf)
    → AllFrames pkts
    → AllFrames (packets_of jhash worker i pkts)
packets_of-AllFrames jhash worker i [] fs = tt
packets_of-AllFrames jhash worker i (pkt ∷ pkts) (f, fs) =
    elim (Bool-cases (worker (bucket_of (flow_rss_hash jhash pkt)) == i)) [
      | inl here ↦ rw here (f, packets_of-AllFrames jhash worker i pkts fs)
      | inr other ↦ rw other (packets_of-AllFrames jhash worker i pkts fs)
    ]

module _ (fh : FlowHash) (H : HyperScan) (jhash : FlowKey → ℕ) (plan : Plan H) where
  pub record TablesOk (s : Pipeline fh H) : Type 0 where
    pub tables_ok : (i : ℕ) → TableOk fh (s.tables i)
    pub frames : (i : ℕ) → AllFrames (s.rings i)

  receive-TablesOk :
      (accepts : ℕ → ℕ → ℕ) (now : ℕ) (pkts : List Mbuf) (s : Pipeline fh H)
      → AllFrames pkts
      → TablesOk s
      → TablesOk (receive fh H jhash plan accepts now pkts s)
  unfolding receive
  receive-TablesOk accepts now pkts s fs ok =
      let rx : Rx = record {
        buckets = s.buckets;
        stats = s.stats;
        dest = λ _. [];
        rings = s.rings;
        freed = s.freed;
      } in
      record {
        tables_ok = ok.tables_ok;
        frames = λ i.
            let g = rx_burst-Grown jhash plan.rx_lcore accepts plan.num_workers now rx pkts i in
            subst AllFrames (sym g.at_end) (
              AllFrames-append (s.rings i) g.added (ok.frames i)
                (AllFrames-Sub g.in_order (packets_of-AllFrames jhash s.buckets.worker i pkts fs)));
      }

  work-TablesOk :
      (w : ℕ) (accepts : ℕ → ℕ) (arrivals : List Arrival) (rest : List Mbuf) (s : Pipeline fh H)
      → s.rings w ≡ packets arrivals ++ rest
      → TablesOk s
      → TablesOk (work fh H jhash plan w accepts arrivals s)
  unfolding work
  work-TablesOk w accepts arrivals rest s front ok =
      let (taken, stay) =
        append-AllFrames (packets arrivals) rest (subst AllFrames front (ok.frames w)) in
      let left : drop_first (length arrivals) (s.rings w) ≡ rest =
        rw front (drop_first-packets arrivals rest) in
      record {
        tables_ok = λ i. elim (Bool-cases (w == i)) [
          | inl here ↦ rw here (
              worker_burst-TableOk fh H plan.engine (s.scratches w) (get_or plan.worker_lcores w 0)
                accepts
                (record {
                  ft = s.tables w;
                  stats = s.stats;
                  fwd = [];
                  tx_ring = s.tx_ring;
                  freed = s.freed;
                })
                arrivals taken (ok.tables_ok w))
          | inr other ↦ rw other (ok.tables_ok i)
        ];
        frames = λ i. elim (Bool-cases (w == i)) [
          | inl here ↦ rw (here, left) stay
          | inr other ↦ rw other (ok.frames i)
        ];
      }

  module _ (W : Type 0) ⦃d : Double W⦄ where
    Step-TablesOk :
        {s s' : Pipeline fh H}
        → Step fh H jhash plan W s s'
        → AllFrames s'.received
        → (AllFrames s.received → TablesOk s)
        → TablesOk s'
    unfolding receive work transmit report
    Step-TablesOk (received {s} accepts now pkts) fs ok =
        let (before, new) = append-AllFrames s.received pkts fs in
        receive-TablesOk accepts now pkts s new (ok before)
    Step-TablesOk (worked {s} w accepts arrivals rest in_system fits front) fs ok =
        work-TablesOk w accepts arrivals rest s front (ok fs)
    Step-TablesOk (transmitted {s} accepts n fits h) fs ok = record {
      tables_ok = (ok fs).tables_ok;
      frames = (ok fs).frames;
    }
    Step-TablesOk (reported {s} lcores hz now seen worker_pps bucket_counts t) fs ok = record {
      tables_ok = (ok fs).tables_ok;
      frames = (ok fs).frames;
    }

    Steps-TablesOk :
        {s s' : Pipeline fh H}
        → Steps fh H jhash plan W s s'
        → TablesOk s
        → AllFrames s'.received
        → TablesOk s'
    Steps-TablesOk done ok fs = ok
    Steps-TablesOk (after r step) ok fs =
        Step-TablesOk step fs (λ before. Steps-TablesOk r ok before)

-- Whatever frames the port delivers, whatever rounds the threads make and however they interleave,
-- every flow in the table of every worker is well-formed: a flow without a verdict has a
-- reassembly buffer whose marks lie within it and whose prefix is free of gaps. The workers start
-- with well-formed tables, such as new ones; a frame is bytes, of a length that fits 16 bits.
pub Steps-TablesOk_launched :
    (fh : FlowHash) (H : HyperScan) (jhash : FlowKey → ℕ) (W : Type 0) ⦃d : Double W⦄
    (plan : Plan H) (tables : ℕ → FlowTable fh) (scratches : ℕ → Option H.Scratch)
    (reporter : StatsThread) (s : Pipeline fh H)
    → ((i : ℕ) → TableOk fh (tables i))
    → AllFrames s.received
    → Steps fh H jhash plan W (start fh H plan tables scratches reporter) s
    → (i : ℕ) → TableOk fh (s.tables i)
Steps-TablesOk_launched fh H jhash W plan tables scratches reporter s ok fs steps =
    (Steps-TablesOk fh H jhash plan W steps (record { tables_ok = ok; frames = λ i. tt })
      fs).tables_ok
