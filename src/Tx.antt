-- ===== src/Tx.antt =====
-- src/main.c, `tx_thread_main`: one round of the TX thread's loop.
--
-- How many packets the dequeue returns and how many the port takes are arguments.
pub mod Conserve
use hyper_dpi.Prelude.{ℕ, Bool, true, if◌then◌else◌, List, [], ◌∷◌, ◌++◌, take, leb}
use hyper_dpi.Packet.{Mbuf}
use hyper_dpi.Stats.{StatsTable, stats_add_tx}
use hyper_dpi.Worker.{drop_first}

-- The counters, the TX ring, the packets that the port has taken, and those given back to the pool.
pub record Tx : Type 0 where
  pub stats : StatsTable
  pub tx_ring : List Mbuf
  pub wire : List Mbuf
  pub freed : List Mbuf

module _ (lcore : ℕ) where
  -- The loop that frees what the port has not taken.
  unfoldable pub free_unsent : Tx → List Mbuf → Tx
  free_unsent tx [] = tx
  free_unsent tx (pkt ∷ pkts) = free_unsent (record tx { freed = tx.freed ++ pkt ∷ [] }) pkts

  -- `rte_eth_tx_burst` takes the first `sent` of the packets.
  abbrev pub send : Tx → List Mbuf → ℕ → Tx
  send tx bufs sent =
      free_unsent
        (record tx { stats = stats_add_tx tx.stats lcore sent; wire = tx.wire ++ take sent bufs })
        (drop_first sent bufs)

  -- One round: the dequeue returns the first `n` packets of the ring.
  unfoldable pub tx_burst : (ℕ → ℕ) → ℕ → Tx → Tx
  unfolding free_unsent
  tx_burst accepts n tx =
      let bufs = take n tx.tx_ring in
      if leb n 0
      then tx
      else send (record tx { tx_ring = drop_first n tx.tx_ring }) bufs (accepts n)
