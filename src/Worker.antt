-- ===== src/Worker.antt =====
-- src/main.c, `worker_thread_main`: one burst of the worker's loop.
--
-- A thread's loop is a sequence of bursts. The ring calls are DPDK's: how many packets an enqueue
-- takes is an argument. What is printed is left out. The clock is read by each call of
-- `parser_flow_update`, so it comes with each packet.
pub mod Conserve
pub mod Burst
pub mod Verdicts
pub mod Scanned
pub mod Thread
pub mod Order
pub mod Tables
pub mod Blocked
use hyper_dpi.Prelude.{
  ℕ, zero, suc, Bool, true, false, if◌then◌else◌, Option, none, some, List, [], ◌∷◌, ◌++◌, Bytes,
  length, take, leb,
}
use hyper_dpi.Traffic.{TrafficType, non_dpi, Action, forward, drop}
use hyper_dpi.Packet.{FlowKey, Mbuf, L2L4Result, parse_l2_l4}
use hyper_dpi.Table.{
  FlowHash, FlowTable, Status, pending, ready, cached, give_up, no_sni, Outcome, flow_update,
  cache_verdict,
}
use hyper_dpi.Engine.{HyperScan, Engine, dpi_engine_scan}
use hyper_dpi.Stats.{
  StatsTable, stats_count_classified, stats_count_forwarded, stats_count_dropped,
  stats_count_tls_no_sni,
}

-- A packet of the burst, and the clock as its update reads it: for the sweep, and for itself.
pub record Arrival : Type 0 where
  pub pkt : Mbuf
  pub expire_now : ℕ
  pub now : ℕ

-- `bufs + n`, the packets behind the first `n`.
abbrev pub drop_first : ℕ → List Mbuf → List Mbuf
drop_first zero xs = xs
drop_first (suc n) [] = []
drop_first (suc n) (x ∷ xs) = drop_first n xs

module _ (fh : FlowHash) (H : HyperScan) where
  -- The flow table, the counters, `fwd`, the packets in the TX ring, and those given back to the
  -- pool of buffers.
  pub record Worker : Type 0 where
    pub ft : FlowTable fh
    pub stats : StatsTable
    pub fwd : List Mbuf
    pub tx_ring : List Mbuf
    pub freed : List Mbuf

  module _ (e : Engine H) (scratch : Option H.Scratch) (lcore : ℕ) where
    -- The `switch` on the status: the action, and the table.
    unfoldable pub decide : FlowTable fh → L2L4Result → Status → Action × FlowTable fh
    decide ft l2l4 (cached action) = (action, ft)
    decide ft l2l4 (ready text) =
        let action = dpi_engine_scan H e scratch l2l4.type text in
        (action, cache_verdict fh ft l2l4.key action)
    decide ft l2l4 no_sni = (forward, cache_verdict fh ft l2l4.key forward)
    decide ft l2l4 pending = (forward, ft)
    decide ft l2l4 give_up = (forward, ft)

    abbrev pub count_dropped : Worker → Mbuf → Worker
    count_dropped w pkt = record w {
      stats = stats_count_dropped w.stats lcore;
      freed = w.freed ++ pkt ∷ [];
    }

    unfoldable pub apply : Worker → Mbuf → Action → Worker
    apply w pkt drop = count_dropped w pkt
    apply w pkt forward = record w { fwd = w.fwd ++ pkt ∷ [] }

    unfoldable pub handle_parsed : Worker → Arrival → Option L2L4Result → Worker
    handle_parsed w a none =
        count_dropped (record w { stats = stats_count_classified w.stats lcore non_dpi }) a.pkt
    handle_parsed w a (some l2l4) =
        let counted = stats_count_classified w.stats lcore l2l4.type in
        let (out, ft) = flow_update fh w.ft l2l4 a.expire_now a.now in
        let (action, ft') = decide ft l2l4 out.status in
        let stats = if out.out_no_sni then stats_count_tls_no_sni counted lcore else counted in
        apply (record w { ft = ft'; stats = stats }) a.pkt action

    -- The body of the loop over the burst.
    unfoldable pub handle_packet : Worker → Arrival → Worker
    handle_packet w a = handle_parsed w a (parse_l2_l4 a.pkt)

    unfoldable pub handle_packets : Worker → List Arrival → Worker
    handle_packets w [] = w
    handle_packets w (a ∷ rest) = handle_packets (handle_packet w a) rest

    -- The two loops behind the enqueue.
    unfoldable pub count_sent : ℕ → StatsTable → StatsTable
    count_sent zero t = t
    count_sent (suc n) t = count_sent n (stats_count_forwarded t lcore)

    unfoldable pub drop_unsent : Worker → List Mbuf → Worker
    drop_unsent w [] = w
    drop_unsent w (pkt ∷ pkts) = drop_unsent (count_dropped w pkt) pkts

    -- `rte_ring_enqueue_burst` takes the first `sent` packets.
    abbrev pub enqueue : Worker → ℕ → Worker
    enqueue w sent =
        drop_unsent
          (record w {
            stats = count_sent sent w.stats;
            tx_ring = w.tx_ring ++ take sent w.fwd;
            fwd = [];
          })
          (drop_first sent w.fwd)

    unfoldable pub flush : (ℕ → ℕ) → Worker → Worker
    unfolding count_sent drop_unsent
    flush accepts w = if leb (length w.fwd) 0 then w else enqueue w (accepts (length w.fwd))

    -- One round of the loop: `accepts` is what the enqueue returns for a number of packets.
    unfoldable pub worker_burst : (ℕ → ℕ) → Worker → List Arrival → Worker
    worker_burst accepts w arrivals =
        flush accepts (handle_packets (record w { fwd = [] }) arrivals)
