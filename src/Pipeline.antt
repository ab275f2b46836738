-- ===== src/Pipeline.antt =====
-- The threads of src/main.c and src/stats.c together, on the rings and tables that they share.
--
-- A step of the system is one round of one thread's loop: the orders of the rounds are the
-- interleavings. A round is one step since what a thread shares with another is a ring with one
-- writer at each moment, a counter with one writer, or the bucket table.
pub mod Conserved
pub mod Counters
pub mod Order
pub mod Tables
use hyper_dpi.Prelude.{
  ℕ, ◌<◌, ◌≤◌, ◌^◌, ◌≡◌, List, [], ◌∷◌, ◌++◌, Option, length, get_or, Memory, update,
}
use hyper_dpi.Packet.{FlowKey, Mbuf}
use hyper_dpi.Table.{FlowHash, FlowTable}
use hyper_dpi.Buckets.{Buckets}
use hyper_dpi.Engine.{HyperScan}
use hyper_dpi.Stats.{StatsTable}
use hyper_dpi.Stats.Double.{Double}
use hyper_dpi.Stats.Thread.{StatsArgs, StatsThread, report_round}
use hyper_dpi.Startup.{Plan}
use hyper_dpi.Worker.{Arrival, Worker, drop_first, worker_burst}
use hyper_dpi.Worker.Order.{packets}
use hyper_dpi.Rx.{Rx, rx_burst}
use hyper_dpi.Tx.{Tx, tx_burst}

-- `struct stats_thread_args`, as `main` fills it in.
abbrev pub stats_args_of : {H : HyperScan} → Plan H → StatsArgs
stats_args_of plan = record {
  num_workers = plan.num_workers;
  worker_lcores = λ i. get_or plan.worker_lcores i 0;
  rebalance_enabled = plan.rebalance_enabled;
}

module _ (fh : FlowHash) (H : HyperScan) where
  -- What the port has delivered, what the threads share, and what each keeps.
  pub record Pipeline : Type 0 where
    pub received : List Mbuf
    pub buckets : Buckets
    pub stats : StatsTable
    pub rings : ℕ → List Mbuf
    pub tables : ℕ → FlowTable fh
    pub scratches : ℕ → Option H.Scratch
    pub tx_ring : List Mbuf
    pub wire : List Mbuf
    pub freed : List Mbuf
    pub reporter : StatsThread

  module _ (jhash : FlowKey → ℕ) (plan : Plan H) where
    unfoldable pub receive : (ℕ → ℕ → ℕ) → ℕ → List Mbuf → Pipeline → Pipeline
    receive accepts now pkts s =
        let rx =
          rx_burst jhash plan.rx_lcore accepts plan.num_workers now
            (record {
              buckets = s.buckets;
              stats = s.stats;
              dest = λ _. [];
              rings = s.rings;
              freed = s.freed;
            })
            pkts in
        record s {
          received = s.received ++ pkts;
          buckets = rx.buckets;
          stats = rx.stats;
          rings = rx.rings;
          freed = rx.freed;
        }

    unfoldable pub work : ℕ → (ℕ → ℕ) → List Arrival → Pipeline → Pipeline
    work w accepts arrivals s =
        let worker =
          worker_burst fh H plan.engine (s.scratches w) (get_or plan.worker_lcores w 0) accepts
            (record {
              ft = s.tables w;
              stats = s.stats;
              fwd = [];
              tx_ring = s.tx_ring;
              freed = s.freed;
            })
            arrivals in
        record s {
          stats = worker.stats;
          rings = update s.rings w (drop_first (length arrivals) (s.rings w));
          tables = update s.tables w worker.ft;
          tx_ring = worker.tx_ring;
          freed = worker.freed;
        }

    unfoldable pub transmit : (ℕ → ℕ) → ℕ → Pipeline → Pipeline
    transmit accepts n s =
        let tx =
          tx_burst plan.tx_lcore accepts n
            (record { stats = s.stats; tx_ring = s.tx_ring; wire = s.wire; freed = s.freed }) in
        record s { stats = tx.stats; tx_ring = tx.tx_ring; wire = tx.wire; freed = tx.freed }

    module _ (W : Type 0) ⦃d : Double W⦄ where
      unfoldable pub report :
          List ℕ → ℕ → ℕ → (ℕ → StatsTable) → (ℕ → W) → Memory → Pipeline → Pipeline
      report lcores hz now seen worker_pps bucket_counts s =
          let r =
            report_round (stats_args_of plan) lcores hz now s.stats seen worker_pps bucket_counts
              s.buckets s.reporter in
          record s { buckets = r.1; reporter = r.0.1 }

      -- A round of one of the threads, with what the calls of DPDK return in it: an enqueue takes
      -- no more than it is given, a worker's dequeue returns packets from the front of its ring,
      -- and that of the TX thread no more than there are.
      pub data Step : Pipeline → Pipeline → Type 0 where
        received :
            {s : Pipeline} (accepts : ℕ → ℕ → ℕ) (now : ℕ) (pkts : List Mbuf)
            → Step s (receive accepts now pkts s)
        worked :
            {s : Pipeline} (w : ℕ) (accepts : ℕ → ℕ) (arrivals : List Arrival) (rest : List Mbuf)
            → w < plan.num_workers
            → ((n : ℕ) → accepts n ≤ n)
            → s.rings w ≡ packets arrivals ++ rest
            → Step s (work w accepts arrivals s)
        transmitted :
            {s : Pipeline} (accepts : ℕ → ℕ) (n : ℕ)
            → ((k : ℕ) → accepts k ≤ k)
            → n ≤ length s.tx_ring
            → Step s (transmit accepts n s)
        reported :
            {s : Pipeline} (lcores : List ℕ) (hz now : ℕ) (seen : ℕ → StatsTable)
            (worker_pps : ℕ → W) (bucket_counts : Memory)
            → now < 2 ^ 64
            → Step s (report lcores hz now seen worker_pps bucket_counts s)

      -- Any number of rounds, of whichever threads.
      pub data Steps : Pipeline → Pipeline → Type 0 where
        done : {s : Pipeline} → Steps s s
        after : {s s' s'' : Pipeline} → Steps s s' → Step s' s'' → Steps s s''

  -- Before the first round: nothing has been received.
  abbrev pub start : Plan H → (ℕ → FlowTable fh) → (ℕ → Option H.Scratch) → StatsThread → Pipeline
  start plan tables scratches reporter = record {
    received = [];
    buckets = plan.buckets;
    stats = plan.stats;
    rings = λ _. [];
    tables = tables;
    scratches = scratches;
    tx_ring = [];
    wire = [];
    freed = [];
    reporter = reporter;
  }
