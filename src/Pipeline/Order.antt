-- ===== src/Pipeline/Order.antt =====
-- The packets of a flow leave in the order in which they came.
pub mod Rounds
pub mod Runs
pub mod Fixed
use hyper_dpi.Prelude.{
  ℕ, zero, suc, ◌≤◌, ◌≡◌, ◌≢◌, refl, sym, ap, ap₂, ◌∙◌, subst, Bool, Bool-cases, true, inl, inr,
  ==_ne, ==_iff, List, [], ◌∷◌, ◌++◌, Option, length, get_or, Memory, take, arith, ◌==◌,
}
use mathlib.Core.List.{append-nil, append_assoc}
use hyper_dpi.Prelude.Subsequence.{
  Sub, Sub-refl, Sub-trans, Sub-append, Sub-filter, Sub_nil_inv, filter, filter-append, skip, keep,
  empty,
}
use hyper_dpi.Packet.{FlowKey, Mbuf, flow_rss_hash}
use hyper_dpi.Table.{FlowHash, FlowTable}
use hyper_dpi.Buckets.{bucket_of}
use hyper_dpi.Engine.{HyperScan}
use hyper_dpi.Stats.Double.{Double}
use hyper_dpi.Stats.Thread.{StatsThread}
use hyper_dpi.Startup.{Plan}
use hyper_dpi.Worker.{Arrival, drop_first}
use hyper_dpi.Worker.Order.{packets, worker_burst-Grown}
use hyper_dpi.Rx.{Rx}
use hyper_dpi.Rx.Steer.{packets_of}
use hyper_dpi.Rx.Order.{rx_burst-Grown}
use hyper_dpi.Tx.{Tx}
use hyper_dpi.Tx.Conserve.{tx_burst-Sent}
use hyper_dpi.Pipeline.{
  Pipeline, receive, work, transmit, report, Step, received, worked, transmitted, reported, Steps,
  done, after, start,
}
use hyper_dpi.Pipeline.Conserved.{drop_first-packets}

pub append-eq-nil : {A : Type 0} (xs ys : List A) → xs ++ ys ≡ [] → (xs ≡ []) × (ys ≡ [])
append-eq-nil [] ys e = (refl, e)
append-eq-nil (x ∷ xs) ys e = absurd cc

Sub-drop_first : (n : ℕ) (xs : List Mbuf) → Sub (drop_first n xs) xs
Sub-drop_first zero xs = Sub-refl xs
Sub-drop_first (suc n) [] = empty
Sub-drop_first (suc n) (x ∷ xs) = skip (Sub-drop_first n xs)

-- Some of what is taken from the front, and then what stays.
pub Sub-split : (k n : ℕ) (xs : List Mbuf) → k ≤ n → Sub (take k xs ++ drop_first n xs) xs
Sub-split zero n xs h = Sub-drop_first n xs
Sub-split (suc k) zero xs h = absurd (omega arith)
Sub-split (suc k) (suc n) [] h = empty
Sub-split (suc k) (suc n) (x ∷ xs) h = keep (Sub-split k n xs (omega arith))

module _ (jhash : FlowKey → ℕ) (worker : Memory) (p : Mbuf → Bool) (b : ℕ)
    (one_bucket : (pkt : Mbuf) → p pkt ≡ true → bucket_of (flow_rss_hash jhash pkt) ≡ b) where
  pub Sub-packets_of : (i : ℕ) (pkts : List Mbuf) → Sub (packets_of jhash worker i pkts) pkts
  Sub-packets_of i [] = empty
  Sub-packets_of i (pkt ∷ pkts) =
      elim (Bool-cases (worker (bucket_of (flow_rss_hash jhash pkt)) == i)) [
        | inl here ↦ rw here (keep (Sub-packets_of i pkts))
        | inr other ↦ rw other (skip (Sub-packets_of i pkts))
      ]

  pub packets_of-elsewhere :
      (i : ℕ) (pkts : List Mbuf) → i ≢ worker b → filter p (packets_of jhash worker i pkts) ≡ []
  packets_of-elsewhere i [] ne = refl
  packets_of-elsewhere i (pkt ∷ pkts) ne =
      let ih = packets_of-elsewhere i pkts ne in
      elim (Bool-cases (worker (bucket_of (flow_rss_hash jhash pkt)) == i)) [
        | inr other ↦ rw other ih
        | inl here ↦ elim (Bool-cases (p pkt)) [
          | inr foreign ↦ rw (here, foreign) ih
          | inl flow ↦ absurd (ne (sym ((==_iff _ i).0 here) ∙ ap worker (one_bucket pkt flow)))
        ]
      ]

module _ (fh : FlowHash) (H : HyperScan) (jhash : FlowKey → ℕ) (plan : Plan H) (p : Mbuf → Bool)
    (b w₀ : ℕ)
    (one_bucket : (pkt : Mbuf) → p pkt ≡ true → bucket_of (flow_rss_hash jhash pkt) ≡ b) where
  -- The packets of the flow are in the rings of one worker; on the wire, in the TX ring and in this
  -- ring, one after the other, they are in the order in which they came.
  pub record Ordered (s : Pipeline fh H) : Type 0 where
    pub elsewhere : (i : ℕ) → i ≢ w₀ → filter p (s.rings i) ≡ []
    pub in_order :
        Sub (filter p s.wire ++ (filter p s.tx_ring ++ filter p (s.rings w₀))) (filter p s.received)
