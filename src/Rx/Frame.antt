-- ===== src/Rx/Frame.antt =====
-- What a burst of the RX thread leaves alone, and what it counts.
use hyper_dpi.Prelude.{
  ℕ, zero, suc, ◌+◌, ◌≡◌, ◌≢◌, refl, sym, ap, ◌∙◌, Bool-cases, inl, inr, List, [], ◌∷◌, ◌++◌,
  length, leb, add64, update, ==_self, ==_ne, take,
}
use hyper_dpi.Packet.{FlowKey, Mbuf}
use hyper_dpi.Stats.{stats_add_rx, stats_count_dropped}
use hyper_dpi.Worker.{drop_first}
use hyper_dpi.Rx.{
  Rx, drop_one, steer_packets, drop_packets, enqueue_one, enqueue_all, sum_bytes, rx_burst,
}
use hyper_dpi.Rx.Steer.{steer_packets_lem}

module _ (jhash : FlowKey → ℕ) (lcore : ℕ) where
  -- The buckets stay, and the only counter written is the lcore's count of dropped packets.
  pub record OnlyDrops (rx rx' : Rx) : Type 0 where
    pub buckets : rx'.buckets ≡ rx.buckets
    pub received : (rx'.stats lcore).rx_packets ≡ (rx.stats lcore).rx_packets
    pub others : (j : ℕ) → j ≢ lcore → rx'.stats j ≡ rx.stats j

  OnlyDrops-refl : (rx : Rx) → OnlyDrops rx rx
  OnlyDrops-refl rx = record { buckets = refl; received = refl; others = λ j ne. refl }

  OnlyDrops-trans : (rx rx' rx'' : Rx) → OnlyDrops rx rx' → OnlyDrops rx' rx'' → OnlyDrops rx rx''
  OnlyDrops-trans rx rx' rx'' h k = record {
    buckets = k.buckets ∙ h.buckets;
    received = k.received ∙ h.received;
    others = λ j ne. k.others j ne ∙ h.others j ne;
  }

  drop_packets-OnlyDrops :
      (rx : Rx) (pkts : List Mbuf) → OnlyDrops rx (drop_packets jhash lcore rx pkts)
  unfolding drop_packets stats_count_dropped
  drop_packets-OnlyDrops rx [] = OnlyDrops-refl rx
  drop_packets-OnlyDrops rx (pkt ∷ pkts) =
      let one : OnlyDrops rx (drop_one jhash lcore rx pkt) = record {
        buckets = refl;
        received = rw (==_self lcore) refl;
        others = λ j ne. rw (==_ne lcore j (λ e. ne (sym e))) refl;
      } in
      OnlyDrops-trans rx (drop_one jhash lcore rx pkt) _ one
        (drop_packets-OnlyDrops (drop_one jhash lcore rx pkt) pkts)

  enqueue_one-OnlyDrops :
      (accepts : ℕ → ℕ → ℕ) (w : ℕ) (rx : Rx) → OnlyDrops rx (enqueue_one jhash lcore accepts w rx)
  unfolding enqueue_one
  enqueue_one-OnlyDrops accepts w rx = elim (Bool-cases (leb (length (rx.dest w)) 0)) [
    | inl idle ↦ rw idle (OnlyDrops-refl rx)
    | inr busy ↦ rw busy (
        let sent = accepts w (length (rx.dest w)) in
        let d =
          drop_packets-OnlyDrops
            (record rx { rings = update rx.rings w (rx.rings w ++ take sent (rx.dest w)) })
            (drop_first sent (rx.dest w)) in
        record { buckets = d.buckets; received = d.received; others = d.others })
  ]

  enqueue_all-OnlyDrops :
      (accepts : ℕ → ℕ → ℕ) (n w : ℕ) (rx : Rx)
      → OnlyDrops rx (enqueue_all jhash lcore accepts n w rx)
  unfolding enqueue_all
  enqueue_all-OnlyDrops accepts zero w rx = OnlyDrops-refl rx
  enqueue_all-OnlyDrops accepts (suc n) w rx =
      let rx₁ = enqueue_one jhash lcore accepts w rx in
      OnlyDrops-trans rx rx₁ _ (enqueue_one-OnlyDrops accepts w rx)
        (enqueue_all-OnlyDrops accepts n (w + 1) rx₁)

  -- A burst moves no bucket, counts its packets as received in the lcore's own slot, and writes no
  -- other slot.
  pub rx_burst-frame :
      (accepts : ℕ → ℕ → ℕ) (num_workers now : ℕ) (rx : Rx) (pkts : List Mbuf)
      → let rx' = rx_burst jhash lcore accepts num_workers now rx pkts in
        (rx'.buckets.worker ≡ rx.buckets.worker)
        × ((rx'.stats lcore).rx_packets ≡ add64 (rx.stats lcore).rx_packets (length pkts))
        × ((j : ℕ) → j ≢ lcore → rx'.stats j ≡ rx.stats j)
  unfolding rx_burst stats_add_rx
  rx_burst-frame accepts num_workers now rx pkts =
      let rx₀ : Rx = record rx { dest = λ _. [] } in
      let rx₁ = steer_packets jhash lcore now rx₀ pkts in
      let rx₂ : Rx = record rx₁ {
        stats = stats_add_rx rx.stats lcore (length pkts) (sum_bytes jhash lcore 0 pkts);
      } in
      let o = enqueue_all-OnlyDrops accepts num_workers 0 rx₂ in
      (
        ap (λ b. b.worker) o.buckets ∙ (steer_packets_lem jhash lcore now rx₀ pkts).0,
        o.received ∙ rw (==_self lcore) refl,
        λ j ne. o.others j ne ∙ rw (==_ne lcore j (λ e. ne (sym e))) refl,
      )
