-- ===== src/Pipeline/Order/Fixed.antt =====
-- The order of a flow's packets when rebalancing is disabled.
use hyper_dpi.Prelude.{
  ℕ, ◌≡◌, refl, ap, ◌∙◌, Bool, true, inl, inr, List, [], ◌∷◌, ◌++◌, Option, Memory,
}
use hyper_dpi.Prelude.Subsequence.{Sub, Sub-nil, Sub-trans, filter, keep}
use hyper_dpi.Packet.{FlowKey, Mbuf, flow_rss_hash}
use hyper_dpi.Table.{FlowHash, FlowTable}
use hyper_dpi.Buckets.{bucket_of}
use hyper_dpi.Engine.{HyperScan}
use hyper_dpi.Stats.Double.{Double}
use hyper_dpi.Stats.Thread.{StatsThread}
use hyper_dpi.Startup.{Plan}
use hyper_dpi.Pipeline.{
  Pipeline, receive, work, transmit, report, Step, received, worked, transmitted, reported, Steps,
  done, after, start,
}
use hyper_dpi.Pipeline.Order.Runs.{StaysOn, Steps-Ordered_launched}
use hyper_dpi.Packet.{L2L4Result, parse_l2_l4}
use hyper_dpi.Packet.Classify.{flow_rss_hash-parse_l2_l4}
use hyper_dpi.Rx.Frame.{rx_burst-frame}
use hyper_dpi.Stats.Double.{IsOrdered}
use hyper_dpi.Stats.Thread.Balance.{report_round-Balanced}
use hyper_dpi.Pipeline.{stats_args_of}
use hyper_dpi.Prelude.{false, some}

module _ (fh : FlowHash) (H : HyperScan) (jhash : FlowKey → ℕ) (plan : Plan H) (W : Type 0)
    ⦃d : Double W⦄ (o : IsOrdered W) (fixed : plan.rebalance_enabled ≡ false) where
  receive-worker :
      (accepts : ℕ → ℕ → ℕ) (now : ℕ) (pkts : List Mbuf) (s : Pipeline fh H)
      → (receive fh H jhash plan accepts now pkts s).buckets.worker ≡ s.buckets.worker
  unfolding receive
  receive-worker accepts now pkts s =
      (rx_burst-frame jhash plan.rx_lcore accepts plan.num_workers now
        (record {
          buckets = s.buckets;
          stats = s.stats;
          dest = λ _. [];
          rings = s.rings;
          freed = s.freed;
        })
        pkts).0

  Step-worker :
      {s s' : Pipeline fh H} → Step fh H jhash plan W s s' → s'.buckets.worker ≡ s.buckets.worker
  unfolding work transmit report
  Step-worker (received {s} accepts now pkts) = receive-worker accepts now pkts s
  Step-worker (worked {s} w accepts arrivals rest in_system fits front) = refl
  Step-worker (transmitted {s} accepts n fits h) = refl
  Step-worker (reported {s} lcores hz now seen worker_pps bucket_counts t) =
      elim (report_round-Balanced o (stats_args_of plan) lcores hz now s.stats seen worker_pps
        bucket_counts s.buckets s.reporter) [
          | inl same ↦ ap (λ b. b.worker) same
          | inr moved ↦ absurd (let e = moved.enabled in cc)
        ]

  Steps-worker :
      {s s' : Pipeline fh H} → Steps fh H jhash plan W s s' → s'.buckets.worker ≡ s.buckets.worker
  Steps-worker done = refl
  Steps-worker (after r step) = Step-worker step ∙ Steps-worker r

  Steps-StaysOn :
      (p : Mbuf → Bool) (b w₀ : ℕ)
      (one_bucket : (pkt : Mbuf) → p pkt ≡ true → bucket_of (flow_rss_hash jhash pkt) ≡ b)
      {s s' : Pipeline fh H} (r : Steps fh H jhash plan W s s')
      → s.buckets.worker b ≡ w₀
      → StaysOn fh H jhash plan p b w₀ one_bucket W r
  Steps-StaysOn p b w₀ one_bucket done home = home
  Steps-StaysOn p b w₀ one_bucket (after r step) home = (
    Steps-StaysOn p b w₀ one_bucket r home,
    ap (λ (f : Memory). f b) (Step-worker step ∙ Steps-worker r) ∙ home,
  )

Sub-left : (xs ys : List Mbuf) → Sub xs (xs ++ ys)
Sub-left [] ys = Sub-nil ys
Sub-left (x ∷ xs) ys = keep (Sub-left xs ys)

-- With `-B`, the packets of a flow leave on the wire in the order in which they were received,
-- whatever rounds the threads make and however they interleave: those on the wire are a subsequence
-- of those received, since some may be dropped. The packets of the flow are those that the parser
-- accepts with its key.
pub Steps-Sub :
    (fh : FlowHash) (H : HyperScan) (jhash : FlowKey → ℕ) (plan : Plan H) (W : Type 0)
    ⦃d : Double W⦄ (o : IsOrdered W) (tables : ℕ → FlowTable fh) (scratches : ℕ → Option H.Scratch)
    (reporter : StatsThread) (s : Pipeline fh H) (key : FlowKey) (p : Mbuf → Bool)
    → plan.rebalance_enabled ≡ false
    → ((pkt : Mbuf) → p pkt ≡ true → (r : L2L4Result) × (parse_l2_l4 pkt ≡ some r) × (r.key ≡ key))
    → Steps fh H jhash plan W (start fh H plan tables scratches reporter) s
    → Sub (filter p s.wire) (filter p s.received)
Steps-Sub fh H jhash plan W o tables scratches reporter s key p fixed of_flow steps =
    let b = bucket_of (jhash key) in
    let one_bucket : (pkt : Mbuf) → p pkt ≡ true → bucket_of (flow_rss_hash jhash pkt) ≡ b =
      λ pkt e.
        let (r, parsed, same) = of_flow pkt e in
        ap bucket_of ((flow_rss_hash-parse_l2_l4 jhash pkt).0 r parsed ∙ ap jhash same) in
    let w₀ = plan.buckets.worker b in
    let ordered =
      Steps-Ordered_launched fh H jhash W plan tables scratches reporter s p b w₀ one_bucket steps
        (Steps-StaysOn fh H jhash plan W o fixed p b w₀ one_bucket steps refl) in
    Sub-trans ordered.in_order (filter p s.wire)
      (Sub-left (filter p s.wire) (filter p s.tx_ring ++ filter p (s.rings w₀)))
