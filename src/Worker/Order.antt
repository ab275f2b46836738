-- ===== src/Worker/Order.antt =====
-- A burst of a worker forwards packets in the order in which it takes them.
use hyper_dpi.Prelude.{
  ℕ, ◌≡◌, refl, ap, ◌∙◌, Bool-cases, inl, inr, Option, none, some, List, [], ◌∷◌, ◌++◌, length, leb,
  take, subst,
}
use hyper_dpi.Prelude.Subsequence.{
  Sub, Sub-refl, Sub-take, Sub-trans, Grown, Grown-none, Grown-trans,
}
use hyper_dpi.Traffic.{Action, forward, drop}
use hyper_dpi.Packet.{Mbuf, L2L4Result, parse_l2_l4}
use hyper_dpi.Table.{FlowHash}
use hyper_dpi.Engine.{HyperScan, Engine}
use hyper_dpi.Worker.{
  Arrival, drop_first, Worker, count_dropped, apply, handle_parsed, handle_packet, handle_packets,
  count_sent, drop_unsent, flush, worker_burst,
}

abbrev pub packets : List Arrival → List Mbuf
packets [] = []
packets (a ∷ rest) = a.pkt ∷ packets rest

module _ (fh : FlowHash) (H : HyperScan) (e : Engine H) (scratch : Option H.Scratch)
    (lcore : ℕ) where
  apply-Grown :
      (w : Worker fh H) (pkt : Mbuf) (action : Action)
      → let w' = apply fh H e scratch lcore w pkt action in
        Grown w.fwd w'.fwd (pkt ∷ []) × (w'.tx_ring ≡ w.tx_ring)
  unfolding apply
  apply-Grown w pkt drop = (Grown-none w.fwd (pkt ∷ []), refl)
  apply-Grown w pkt forward =
      (record { added = pkt ∷ []; at_end = refl; in_order = Sub-refl (pkt ∷ []) }, refl)

  pub handle_parsed-Grown :
      (w : Worker fh H) (a : Arrival) (o : Option L2L4Result)
      → let w' = handle_parsed fh H e scratch lcore w a o in
        Grown w.fwd w'.fwd (a.pkt ∷ []) × (w'.tx_ring ≡ w.tx_ring)
  unfolding handle_parsed
  handle_parsed-Grown w a none = (Grown-none w.fwd (a.pkt ∷ []), refl)
  handle_parsed-Grown w a (some l2l4) = apply-Grown _ a.pkt _

  pub handle_packets-Grown :
      (w : Worker fh H) (arrivals : List Arrival)
      → let w' = handle_packets fh H e scratch lcore w arrivals in
        Grown w.fwd w'.fwd (packets arrivals) × (w'.tx_ring ≡ w.tx_ring)
  unfolding handle_packets handle_packet
  handle_packets-Grown w [] = (Grown-none w.fwd [], refl)
  handle_packets-Grown w (a ∷ rest) =
      let w' = handle_packet fh H e scratch lcore w a in
      let (one, ring) = handle_parsed-Grown w a (parse_l2_l4 a.pkt) in
      let (more, ring') = handle_packets-Grown w' rest in
      (Grown-trans w.fwd w'.fwd _ (a.pkt ∷ []) (packets rest) one more, ring' ∙ ring)

  drop_unsent-tx_ring :
      (w : Worker fh H) (pkts : List Mbuf)
      → (drop_unsent fh H e scratch lcore w pkts).tx_ring ≡ w.tx_ring
  unfolding drop_unsent
  drop_unsent-tx_ring w [] = refl
  drop_unsent-tx_ring w (pkt ∷ pkts) =
      drop_unsent-tx_ring (count_dropped fh H e scratch lcore w pkt) pkts

  pub flush-Grown :
      (accepts : ℕ → ℕ) (w : Worker fh H)
      → Grown w.tx_ring (flush fh H e scratch lcore accepts w).tx_ring w.fwd
  unfolding flush
  flush-Grown accepts w = elim (Bool-cases (leb (length w.fwd) 0)) [
    | inl idle ↦ rw idle (Grown-none w.tx_ring w.fwd)
    | inr busy ↦
        let sent = accepts (length w.fwd) in
        let w' : Worker fh H = record w {
          stats = count_sent fh H e scratch lcore sent w.stats;
          tx_ring = w.tx_ring ++ take sent w.fwd;
          fwd = [];
        } in
        rw busy (record {
          added = take sent w.fwd;
          at_end = drop_unsent-tx_ring w' (drop_first sent w.fwd);
          in_order = Sub-take sent w.fwd;
        })
  ]

  -- A burst adds to the end of the TX ring some of the packets it has taken, in the order in which
  -- it took them.
  pub worker_burst-Grown :
      (accepts : ℕ → ℕ) (w : Worker fh H) (arrivals : List Arrival)
      → Grown w.tx_ring
          (worker_burst fh H e scratch lcore accepts w arrivals).tx_ring
          (packets arrivals)
  unfolding worker_burst
  worker_burst-Grown accepts w arrivals =
      let w₀ : Worker fh H = record w { fwd = [] } in
      let w₁ = handle_packets fh H e scratch lcore w₀ arrivals in
      let (handled, ring) = handle_packets-Grown w₀ arrivals in
      let g = flush-Grown accepts w₁ in
      record {
        added = g.added;
        at_end = g.at_end ∙ ap (λ t. t ++ g.added) ring;
        in_order =
            Sub-trans handled.in_order g.added (subst (Sub g.added) handled.at_end g.in_order);
      }
