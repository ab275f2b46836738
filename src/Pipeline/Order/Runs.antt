-- ===== src/Pipeline/Order/Runs.antt =====
-- Any number of rounds.
use hyper_dpi.Prelude.{ℕ, ◌≡◌, refl, Bool, true, Option}
use hyper_dpi.Prelude.Subsequence.{empty}
use hyper_dpi.Packet.{FlowKey, Mbuf, flow_rss_hash}
use hyper_dpi.Table.{FlowHash, FlowTable}
use hyper_dpi.Buckets.{bucket_of}
use hyper_dpi.Engine.{HyperScan}
use hyper_dpi.Stats.Double.{Double}
use hyper_dpi.Stats.Thread.{StatsThread}
use hyper_dpi.Startup.{Plan}
use hyper_dpi.Pipeline.{
  Pipeline, report, Step, received, worked, transmitted, reported, Steps, done, after, start,
}
use hyper_dpi.Pipeline.Order.{Ordered}
use hyper_dpi.Pipeline.Order.Rounds.{receive-Ordered, work-Ordered, transmit-Ordered}

module _ (fh : FlowHash) (H : HyperScan) (jhash : FlowKey → ℕ) (plan : Plan H) (p : Mbuf → Bool)
    (b w₀ : ℕ)
    (one_bucket : (pkt : Mbuf) → p pkt ≡ true → bucket_of (flow_rss_hash jhash pkt) ≡ b) where
  module _ (W : Type 0) ⦃d : Double W⦄ where
    -- The bucket is on the worker at each moment.
    abbrev pub StaysOn : {s s' : Pipeline fh H} → Steps fh H jhash plan W s s' → Type 0
    StaysOn (done {s}) = s.buckets.worker b ≡ w₀
    StaysOn (after {s'' = s''} r step) = StaysOn r × (s''.buckets.worker b ≡ w₀)

    StaysOn-last :
        {s s' : Pipeline fh H} (r : Steps fh H jhash plan W s s')
        → StaysOn r
        → s'.buckets.worker b ≡ w₀
    StaysOn-last done home = home
    StaysOn-last (after r step) (_, home) = home

    Step-Ordered :
        {s s' : Pipeline fh H}
        → Step fh H jhash plan W s s'
        → s.buckets.worker b ≡ w₀
        → Ordered fh H jhash plan p b w₀ one_bucket s
        → Ordered fh H jhash plan p b w₀ one_bucket s'
    unfolding report
    Step-Ordered (received {s} accepts now pkts) home o =
        receive-Ordered fh H jhash plan p b w₀ one_bucket accepts now pkts s home o
    Step-Ordered (worked {s} w accepts arrivals rest in_system fits front) home o =
        work-Ordered fh H jhash plan p b w₀ one_bucket w accepts arrivals rest s front o
    Step-Ordered (transmitted {s} accepts n fits h) home o =
        transmit-Ordered fh H jhash plan p b w₀ one_bucket accepts n s fits h o
    Step-Ordered (reported {s} lcores hz now seen worker_pps bucket_counts t) home o = record {
      elsewhere = o.elsewhere;
      in_order = o.in_order;
    }

    Steps-Ordered :
        {s s' : Pipeline fh H} (r : Steps fh H jhash plan W s s')
        → StaysOn r
        → Ordered fh H jhash plan p b w₀ one_bucket s
        → Ordered fh H jhash plan p b w₀ one_bucket s'
    Steps-Ordered done stays o = o
    Steps-Ordered (after r step) (stays, home) o =
        Step-Ordered step (StaysOn-last r stays) (Steps-Ordered r stays o)

-- Whatever rounds the threads make and however they interleave, the packets of one bucket, or of
-- one flow of it, leave on the wire in the order in which they were received, as long as the bucket
-- stays on its worker: those on the wire are a subsequence of those received, as some are dropped,
-- and so are those on the wire, in the TX ring and in this worker's ring, one after the other. No
-- other ring holds any of them.
pub Steps-Ordered_launched :
    (fh : FlowHash) (H : HyperScan) (jhash : FlowKey → ℕ) (W : Type 0) ⦃d : Double W⦄
    (plan : Plan H) (tables : ℕ → FlowTable fh) (scratches : ℕ → Option H.Scratch)
    (reporter : StatsThread) (s : Pipeline fh H) (p : Mbuf → Bool) (b w₀ : ℕ)
    → (one_bucket : (pkt : Mbuf) → p pkt ≡ true → bucket_of (flow_rss_hash jhash pkt) ≡ b)
    → (r : Steps fh H jhash plan W (start fh H plan tables scratches reporter) s)
    → StaysOn fh H jhash plan p b w₀ one_bucket W r
    → Ordered fh H jhash plan p b w₀ one_bucket s
Steps-Ordered_launched fh H jhash W plan tables scratches reporter s p b w₀ one_bucket r stays =
    Steps-Ordered fh H jhash plan p b w₀ one_bucket W r stays
      (record { elsewhere = λ i ne. refl; in_order = empty })
