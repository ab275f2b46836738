-- ===== src/Worker/Thread.antt =====
-- src/main.c, the whole of `worker_thread_main`: what it allocates, its bursts until the flag
-- `force_quit` is set, and what it gives back.
pub mod Lifetime
pub mod Blocked
use hyper_dpi.Prelude.{
  ℕ, ◌+◌, ◌≡◌, ◌≤◌, ◌⊎◌, inl, inr, refl, ap, ◌∙◌, Bool, true, false, if◌then◌else◌, Option, none,
  some, ◌>>=◌, Option-cases, List, [], ◌∷◌, length, arith,
}
use hyper_dpi.Packet.{FlowKey, Mbuf}
use hyper_dpi.Table.{FlowHash, FlowTable}
use hyper_dpi.Table.Lifetime.{
  Heap, scratch_memory, release, flow_table_create, flow_table_free, Created,
  flow_table_create-Created,
}
use hyper_dpi.Engine.{HyperScan, Engine, alloc_scratch}
use hyper_dpi.Stats.{StatsTable}
use hyper_dpi.Stats.Counters.{Counted, Counted-refl, Counted-trans}
use hyper_dpi.Worker.{Arrival, Worker, worker_burst}
use hyper_dpi.Worker.Conserve.{count, count_arrivals}
use hyper_dpi.Worker.Burst.{worker_burst-Counted}

-- A round of the loop that takes packets: what the dequeue returns, and the enqueue's answers.
pub record Round : Type 0 where
  pub arrivals : List Arrival
  pub accepts : ℕ → ℕ

-- The counters, the TX ring and the pool, which outlive the thread.
pub record Shared : Type 0 where
  pub stats : StatsTable
  pub tx_ring : List Mbuf
  pub freed : List Mbuf

module _ (fh : FlowHash) (H : HyperScan) where
  abbrev pub new_worker : FlowTable fh → Shared → Worker fh H
  new_worker ft s = record {
    ft = ft;
    stats = s.stats;
    fwd = [];
    tx_ring = s.tx_ring;
    freed = s.freed;
  }

  abbrev pub shared : Worker fh H → Shared
  shared w = record { stats = w.stats; tx_ring = w.tx_ring; freed = w.freed }

  -- A NULL scratch is no object.
  abbrev pub hold_scratch : Option H.Scratch → Heap → Heap
  hold_scratch none heap = heap
  hold_scratch (some s) heap = scratch_memory ∷ heap

  -- `dpi_engine_free_scratch`.
  abbrev pub free_scratch : Option H.Scratch → Heap → Option Heap
  free_scratch none heap = some heap
  free_scratch (some s) heap = release scratch_memory heap

  module _ (e : Engine H) (lcore : ℕ) where
    -- The loop, on the rounds until the flag is set.
    unfoldable pub worker_rounds : Option H.Scratch → Worker fh H → List Round → Worker fh H
    worker_rounds scratch w [] = w
    worker_rounds scratch w (r ∷ rs) =
        worker_rounds scratch (worker_burst fh H e scratch lcore r.accepts w r.arrivals) rs

    -- From the creation of the table on. The Boolean is whether 0 is returned, and the outer `none`
    -- is a call of a free that is not allowed.
    unfoldable pub with_table :
        Option H.Scratch
        → Shared
        → List Round
        → Option (FlowTable fh) × Heap
        → Option (Bool × Shared × Heap)
    with_table scratch s rounds (none, heap) = do
      heap' ← free_scratch scratch heap
      some (false, s, heap')
    with_table scratch s rounds (some ft, heap) = do
      let w = worker_rounds scratch (new_worker ft s) rounds
      heap' ← flow_table_free fh (some w.ft) heap
      heap'' ← free_scratch scratch heap'
      some (true, shared w, heap'')

    -- A failed `hs_alloc_scratch` leaves no scratch space allocated.
    unfoldable pub with_scratch :
        Bool
        → Option (FlowHash.Hash fh)
        → Bool
        → ℕ
        → Shared
        → List Round
        → Heap
        → Option (Option H.Scratch)
        → Option (Bool × Shared × Heap)
    with_scratch table_ok created states_ok timeout_cycles s rounds heap none =
        some (false, s, heap)
    with_scratch table_ok created states_ok timeout_cycles s rounds heap (some scratch) = do
      made ←
          flow_table_create fh table_ok created states_ok timeout_cycles (hold_scratch scratch heap)
      with_table scratch s rounds made

    unfoldable pub worker_thread :
        Bool
        → Option (FlowHash.Hash fh)
        → Bool
        → ℕ
        → Shared
        → List Round
        → Heap
        → Option (Bool × Shared × Heap)
    worker_thread table_ok created states_ok timeout_cycles s rounds heap =
        with_scratch table_ok created states_ok timeout_cycles s rounds heap (alloc_scratch H e)
