-- ===== src/Rx/Order.antt =====
-- A burst of the RX thread keeps the order of the packets of each ring.
use hyper_dpi.Prelude.{
  ℕ, zero, suc, ◌+◌, ◌≡◌, ◌≢◌, refl, sym, ap, ◌∙◌, Bool-cases, inl, inr, List, [], ◌∷◌, ◌++◌,
  length, leb, arith, update, ==_self, ==_ne, take, ◌==◌, ==_iff, subst, ◌<◌,
}
use hyper_dpi.Prelude.Subsequence.{Sub, Sub-take, Grown, Grown-none}
use hyper_dpi.Packet.{FlowKey, Mbuf}
use hyper_dpi.Stats.{stats_add_rx}
use hyper_dpi.Worker.{drop_first}
use hyper_dpi.Rx.{
  Rx, drop_one, steer_packets, drop_packets, enqueue_one, enqueue_all, sum_bytes, rx_burst,
}
use hyper_dpi.Rx.Steer.{packets_of, steer_packets_lem, steer_packets-rings}

module _ (jhash : FlowKey → ℕ) (lcore : ℕ) where
  drop_packets-rings :
      (rx : Rx) (pkts : List Mbuf)
      → let rx' = drop_packets jhash lcore rx pkts in (rx'.rings ≡ rx.rings) × (rx'.dest ≡ rx.dest)
  unfolding drop_packets
  drop_packets-rings rx [] = (refl, refl)
  drop_packets-rings rx (pkt ∷ pkts) = drop_packets-rings (drop_one jhash lcore rx pkt) pkts

  enqueue_one-rings :
      (accepts : ℕ → ℕ → ℕ) (w : ℕ) (rx : Rx)
      → let rx' = enqueue_one jhash lcore accepts w rx in
        Grown (rx.rings w) (rx'.rings w) (rx.dest w)
        × ((i : ℕ) → i ≢ w → rx'.rings i ≡ rx.rings i)
        × (rx'.dest ≡ rx.dest)
  unfolding enqueue_one
  enqueue_one-rings accepts w rx = elim (Bool-cases (leb (length (rx.dest w)) 0)) [
    | inl idle ↦ rw idle (Grown-none (rx.rings w) (rx.dest w), λ i ne. refl, refl)
    | inr busy ↦
        let sent = accepts w (length (rx.dest w)) in
        let rx₁ : Rx = record rx {
          rings = update rx.rings w (rx.rings w ++ take sent (rx.dest w));
        } in
        let d = drop_packets-rings rx₁ (drop_first sent (rx.dest w)) in
        rw busy (
          record {
            added = take sent (rx.dest w);
            at_end = ap (λ (f : ℕ → List Mbuf). f w) d.0 ∙ rw (==_self w) refl;
            in_order = Sub-take sent (rx.dest w);
          },
          λ i ne. ap (λ (f : ℕ → List Mbuf). f i) d.0 ∙ rw (==_ne w i (λ e. ne (sym e))) refl,
          d.1,
        )
  ]

  enqueue_all-rings :
      (accepts : ℕ → ℕ → ℕ) (n w : ℕ) (rx : Rx) (i : ℕ)
      → let rx' = enqueue_all jhash lcore accepts n w rx in
        Grown (rx.rings i) (rx'.rings i) (rx.dest i) × (i < w → rx'.rings i ≡ rx.rings i)
  unfolding enqueue_all
  enqueue_all-rings accepts zero w rx i = (Grown-none (rx.rings i) (rx.dest i), λ h. refl)
  enqueue_all-rings accepts (suc n) w rx i =
      let rx₁ = enqueue_one jhash lcore accepts w rx in
      let (grown, others, dest) = enqueue_one-rings accepts w rx in
      let ih = enqueue_all-rings accepts n (w + 1) rx₁ i in
      (
        elim (Bool-cases (i == w)) [
          | inl here ↦
              let at = (==_iff i w).0 here in
              let rest = ih.1 (omega (arith, at)) in
              let moved = λ (x : ℕ). Grown (rx.rings x) (rx₁.rings x) (rx.dest x) in
              let g = subst moved (sym at) grown in
              record { added = g.added; at_end = rest ∙ g.at_end; in_order = g.in_order }
          | inr other ↦
              let same = others i (λ e. absurd (ground (arith, e, other))) in
              record {
                added = ih.0.added;
                at_end = ih.0.at_end ∙ ap (λ r. r ++ ih.0.added) same;
                in_order = subst (λ (f : ℕ → List Mbuf). Sub ih.0.added (f i)) dest ih.0.in_order;
              }
        ],
        λ h. ih.1 (omega arith) ∙ others i (λ e. absurd (omega (arith, e))),
      )

  -- A burst adds to the end of each ring packets of the burst whose bucket is on this worker, in
  -- the order in which they came.
  pub rx_burst-Grown :
      (accepts : ℕ → ℕ → ℕ) (num_workers now : ℕ) (rx : Rx) (pkts : List Mbuf) (i : ℕ)
      → Grown
          (rx.rings i)
          ((rx_burst jhash lcore accepts num_workers now rx pkts).rings i)
          (packets_of jhash rx.buckets.worker i pkts)
  unfolding rx_burst
  rx_burst-Grown accepts num_workers now rx pkts i =
      let rx₀ : Rx = record rx { dest = λ _. [] } in
      let rx₁ = steer_packets jhash lcore now rx₀ pkts in
      let rx₂ : Rx = record rx₁ {
        stats = stats_add_rx rx.stats lcore (length pkts) (sum_bytes jhash lcore 0 pkts);
      } in
      let s = steer_packets_lem jhash lcore now rx₀ pkts in
      let k = steer_packets-rings jhash lcore now rx₀ pkts in
      let g = (enqueue_all-rings accepts num_workers 0 rx₂ i).0 in
      record {
        added = g.added;
        at_end = g.at_end ∙ ap (λ (f : ℕ → List Mbuf). f i ++ g.added) k.0;
        in_order = subst (Sub g.added) (s.1 i) g.in_order;
      }
