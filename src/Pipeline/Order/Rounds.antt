-- ===== src/Pipeline/Order/Rounds.antt =====
-- A round of each thread keeps the packets of a bucket in order.
use hyper_dpi.Prelude.{
  ℕ, ◌≤◌, ◌≡◌, sym, ap, ap₂, ◌∙◌, subst, Bool, Bool-cases, true, inl, inr, ==_ne, ==_iff, List, [],
  ◌++◌, length, get_or, take, arith, ◌==◌,
}
use mathlib.Core.List.{append-nil, append_assoc}
use hyper_dpi.Prelude.Subsequence.{
  Sub, Sub-refl, Sub-trans, Sub-append, Sub-filter, Sub_nil_inv, filter, filter-append,
}
use hyper_dpi.Packet.{FlowKey, Mbuf, flow_rss_hash}
use hyper_dpi.Table.{FlowHash}
use hyper_dpi.Buckets.{bucket_of}
use hyper_dpi.Engine.{HyperScan}
use hyper_dpi.Startup.{Plan}
use hyper_dpi.Worker.{Arrival, drop_first}
use hyper_dpi.Worker.Order.{packets, worker_burst-Grown}
use hyper_dpi.Rx.{Rx}
use hyper_dpi.Rx.Order.{rx_burst-Grown}
use hyper_dpi.Tx.{Tx}
use hyper_dpi.Tx.Conserve.{tx_burst-Sent}
use hyper_dpi.Pipeline.{Pipeline, receive, work, transmit}
use hyper_dpi.Pipeline.Conserved.{drop_first-packets}
use hyper_dpi.Pipeline.Order.{
  append-eq-nil, Sub-split, Sub-packets_of, packets_of-elsewhere, Ordered,
}

module _ (fh : FlowHash) (H : HyperScan) (jhash : FlowKey → ℕ) (plan : Plan H) (p : Mbuf → Bool)
    (b w₀ : ℕ)
    (one_bucket : (pkt : Mbuf) → p pkt ≡ true → bucket_of (flow_rss_hash jhash pkt) ≡ b) where
  pub receive-Ordered :
      (accepts : ℕ → ℕ → ℕ) (now : ℕ) (pkts : List Mbuf) (s : Pipeline fh H)
      → s.buckets.worker b ≡ w₀
      → Ordered fh H jhash plan p b w₀ one_bucket s
      → Ordered fh H jhash plan p b w₀ one_bucket (receive fh H jhash plan accepts now pkts s)
  unfolding receive
  receive-Ordered accepts now pkts s home o =
      let rx : Rx = record {
        buckets = s.buckets;
        stats = s.stats;
        dest = λ _. [];
        rings = s.rings;
        freed = s.freed;
      } in
      let grown =
        λ (i : ℕ). rx_burst-Grown jhash plan.rx_lcore accepts plan.num_workers now rx pkts i in
      let ring =
        λ (i : ℕ). ap (filter p) (grown i).at_end ∙ filter-append p (s.rings i) (grown i).added in
      record {
        elsewhere = λ i ne.
            let none_added = Sub_nil_inv (
              subst (Sub (filter p (grown i).added))
                (packets_of-elsewhere jhash s.buckets.worker p b one_bucket i pkts
                  (λ e. ne (e ∙ home)))
                (Sub-filter p (grown i).in_order)) in
            ring i ∙ ap₂ ◌++◌ (o.elsewhere i ne) none_added;
        in_order =
            let fw = filter p s.wire in
            let ft = filter p s.tx_ring in
            let fr = filter p (s.rings w₀) in
            let fa = filter p (grown w₀).added in
            let more : Sub fa (filter p pkts) = Sub-filter p (
              Sub-trans (Sub-packets_of jhash s.buckets.worker p b one_bucket w₀ pkts)
                (grown w₀).added (grown w₀).in_order) in
            let shape : fw
                  ++ (ft ++ filter p ((receive fh H jhash plan accepts now pkts s).rings w₀))
                ≡ (fw ++ (ft ++ fr)) ++ fa =
              ap (λ t. fw ++ (ft ++ t)) (ring w₀)
              ∙ ap (λ t. fw ++ t) (sym (append_assoc ft fr fa))
              ∙ sym (append_assoc fw (ft ++ fr) fa) in
            subst (λ t. Sub t (filter p (s.received ++ pkts))) (sym shape)
              (subst (Sub ((fw ++ (ft ++ fr)) ++ fa)) (sym (filter-append p s.received pkts))
                (Sub-append o.in_order more));
      }

  pub work-Ordered :
      (w : ℕ) (accepts : ℕ → ℕ) (arrivals : List Arrival) (rest : List Mbuf) (s : Pipeline fh H)
      → s.rings w ≡ packets arrivals ++ rest
      → Ordered fh H jhash plan p b w₀ one_bucket s
      → Ordered fh H jhash plan p b w₀ one_bucket (work fh H jhash plan w accepts arrivals s)
  unfolding work
  work-Ordered w accepts arrivals rest s front o =
      let g =
        worker_burst-Grown fh H plan.engine (s.scratches w) (get_or plan.worker_lcores w 0) accepts
          (record {
            ft = s.tables w;
            stats = s.stats;
            fwd = [];
            tx_ring = s.tx_ring;
            freed = s.freed;
          })
          arrivals in
      let left : drop_first (length arrivals) (s.rings w) ≡ rest =
        rw front (drop_first-packets arrivals rest) in
      let fw = filter p s.wire in
      let ft = filter p s.tx_ring in
      let fa = filter p g.added in
      let fp = filter p (packets arrivals) in
      let taken : filter p (s.rings w) ≡ fp ++ filter p rest =
        ap (filter p) front ∙ filter-append p (packets arrivals) rest in
      let less : Sub fa fp = Sub-filter p g.in_order in
      let tx = ap (filter p) g.at_end ∙ filter-append p s.tx_ring g.added in
      elim (Bool-cases (w == w₀)) [
        | inl home ↦
            let at = (==_iff w w₀).0 home in
            let fr = filter p rest in
            let before : Sub (fw ++ (ft ++ (fp ++ fr))) (filter p s.received) =
              subst (λ t. Sub (fw ++ (ft ++ t)) (filter p s.received))
                (ap (λ i. filter p (s.rings i)) (sym at) ∙ taken) o.in_order in
            let fewer : Sub (fw ++ ((ft ++ fa) ++ fr)) (fw ++ (ft ++ (fp ++ fr))) =
              Sub-append (Sub-refl fw) (
                subst (λ t. Sub t (ft ++ (fp ++ fr))) (sym (append_assoc ft fa fr))
                  (Sub-append (Sub-refl ft) (Sub-append less (Sub-refl fr)))) in
            record {
              elsewhere = λ i ne. rw (==_ne w i (λ e. ne (sym e ∙ at))) (o.elsewhere i ne);
              in_order = rw (home, left, tx) (Sub-trans before (fw ++ ((ft ++ fa) ++ fr)) fewer);
            }
        | inr away ↦
            let (none_taken, none_left) =
              append-eq-nil fp (filter p rest)
                (sym taken ∙ o.elsewhere w (λ e. absurd (ground (arith, e, away)))) in
            let none_added : fa ≡ [] = Sub_nil_inv (subst (Sub fa) none_taken less) in
            record {
              elsewhere = λ i ne. elim (Bool-cases (w == i)) [
                | inl here ↦ rw (here, left) none_left
                | inr other ↦ rw other (o.elsewhere i ne)
              ];
              in_order = rw (away, tx, none_added, append-nil ft) o.in_order;
            }
      ]

  pub transmit-Ordered :
      (accepts : ℕ → ℕ) (n : ℕ) (s : Pipeline fh H)
      → ((k : ℕ) → accepts k ≤ k)
      → n ≤ length s.tx_ring
      → Ordered fh H jhash plan p b w₀ one_bucket s
      → Ordered fh H jhash plan p b w₀ one_bucket (transmit fh H jhash plan accepts n s)
  unfolding transmit
  transmit-Ordered accepts n s fits h o =
      let tx : Tx = record {
        stats = s.stats;
        tx_ring = s.tx_ring;
        wire = s.wire;
        freed = s.freed;
      } in
      let sent = tx_burst-Sent plan.tx_lcore accepts n tx fits h in
      let out = take sent.count_sent s.tx_ring in
      let kept = drop_first sent.count_taken s.tx_ring in
      let fr = filter p (s.rings w₀) in
      let less : Sub (filter p out ++ filter p kept) (filter p s.tx_ring) =
        subst (λ t. Sub t (filter p s.tx_ring)) (filter-append p out kept)
          (Sub-filter p (Sub-split sent.count_sent sent.count_taken s.tx_ring sent.sent_le)) in
      let fw = filter p s.wire in
      let shape : (fw ++ filter p out) ++ (filter p kept ++ fr)
          ≡ fw ++ ((filter p out ++ filter p kept) ++ fr) =
        append_assoc fw (filter p out) (filter p kept ++ fr)
        ∙ ap (λ t. fw ++ t) (sym (append_assoc (filter p out) (filter p kept) fr)) in
      record {
        elsewhere = o.elsewhere;
        in_order =
            rw (sent.in_order, sent.left, filter-append p s.wire out, shape)
              (Sub-trans o.in_order (fw ++ ((filter p out ++ filter p kept) ++ fr))
                (Sub-append (Sub-refl fw) (Sub-append less (Sub-refl fr))));
      }
