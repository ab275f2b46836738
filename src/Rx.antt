-- ===== src/Rx.antt =====
-- src/main.c, `rx_thread_main`: one burst of the RX thread's loop.
--
-- The packets that the port returns, the clock of the burst, the hash of keys and how many packets
-- each ring takes are arguments.
pub mod Steer
pub mod Conserve
pub mod Frame
pub mod Order
use hyper_dpi.Prelude.{
  ℕ, zero, suc, ◌+◌, Bool, true, false, if◌then◌else◌, List, [], ◌∷◌, ◌++◌, length, take, leb,
  add64, update,
}
use hyper_dpi.Packet.{FlowKey, Mbuf, flow_rss_hash}
use hyper_dpi.Buckets.{Buckets, select_worker}
use hyper_dpi.Stats.{StatsTable, stats_add_rx, stats_count_dropped}
use hyper_dpi.Worker.{drop_first}

-- The shared tables, the counters, `dest` of each worker, the workers' rings, and the packets given
-- back to the pool.
pub record Rx : Type 0 where
  pub buckets : Buckets
  pub stats : StatsTable
  pub dest : ℕ → List Mbuf
  pub rings : ℕ → List Mbuf
  pub freed : List Mbuf

module _ (jhash : FlowKey → ℕ) (lcore : ℕ) where
  -- The body of the steering loop: `dest[w][dest_n[w]++] = bufs[i]`.
  abbrev pub put : Rx → Mbuf → ℕ × Buckets → Rx
  put rx pkt (w, buckets) = record rx {
    buckets = buckets;
    dest = update rx.dest w (rx.dest w ++ pkt ∷ []);
  }

  unfoldable pub steer_packets : ℕ → Rx → List Mbuf → Rx
  steer_packets now rx [] = rx
  steer_packets now rx (pkt ∷ pkts) =
      steer_packets now (put rx pkt (select_worker rx.buckets (flow_rss_hash jhash pkt) now)) pkts

  unfoldable pub sum_bytes : ℕ → List Mbuf → ℕ
  sum_bytes n [] = n
  sum_bytes n (pkt ∷ pkts) = sum_bytes (add64 n pkt.pkt_len) pkts

  abbrev pub drop_one : Rx → Mbuf → Rx
  drop_one rx pkt = record rx {
    stats = stats_count_dropped rx.stats lcore;
    freed = rx.freed ++ pkt ∷ [];
  }

  -- The loop that drops what a ring does not take.
  unfoldable pub drop_packets : Rx → List Mbuf → Rx
  drop_packets rx [] = rx
  drop_packets rx (pkt ∷ pkts) = drop_packets (drop_one rx pkt) pkts

  -- `rte_ring_enqueue_burst` on the ring of worker `w` takes the first `sent` packets.
  abbrev pub enqueue_to : Rx → ℕ → ℕ → Rx
  enqueue_to rx w sent =
      drop_packets (record rx { rings = update rx.rings w (rx.rings w ++ take sent (rx.dest w)) })
        (drop_first sent (rx.dest w))

  -- The body of the loop over the workers.
  unfoldable pub enqueue_one : (ℕ → ℕ → ℕ) → ℕ → Rx → Rx
  unfolding drop_packets
  enqueue_one accepts w rx =
      if leb (length (rx.dest w)) 0 then rx else enqueue_to rx w (accepts w (length (rx.dest w)))

  -- That loop, from `w` on for the rounds that are left.
  unfoldable pub enqueue_all : (ℕ → ℕ → ℕ) → ℕ → ℕ → Rx → Rx
  enqueue_all accepts zero w rx = rx
  enqueue_all accepts (suc n) w rx = enqueue_all accepts n (w + 1) (enqueue_one accepts w rx)

  -- One burst that is not empty.
  unfoldable pub rx_burst : (ℕ → ℕ → ℕ) → ℕ → ℕ → Rx → List Mbuf → Rx
  unfolding steer_packets sum_bytes enqueue_all
  rx_burst accepts num_workers now rx pkts =
      let steered = steer_packets now (record rx { dest = λ _. [] }) pkts in
      enqueue_all accepts num_workers 0
        (record steered { stats = stats_add_rx rx.stats lcore (length pkts) (sum_bytes 0 pkts) })
