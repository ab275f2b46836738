-- ===== src/Rx/Steer.antt =====
-- Which packets of a burst go to which worker.
use hyper_dpi.Prelude.{
  ℕ, ◌≡◌, refl, sym, ap, ◌∙◌, ◌==◌, ==_iff, Bool-cases, inl, inr, if◌then◌else◌, List, [], ◌∷◌,
  ◌++◌, update, Memory,
}
use mathlib.Core.List.{append-nil, append_assoc}
use hyper_dpi.Packet.{FlowKey, Mbuf, flow_rss_hash}
use hyper_dpi.Buckets.{bucket_of, select_worker}
use hyper_dpi.Rx.{Rx, put, steer_packets}

module _ (jhash : FlowKey → ℕ) (worker : Memory) where
  -- The packets whose bucket is on worker `w`, in their order.
  abbrev pub packets_of : ℕ → List Mbuf → List Mbuf
  packets_of w [] = []
  packets_of w (pkt ∷ pkts) =
      let rest = packets_of w pkts in
      if worker (bucket_of (flow_rss_hash jhash pkt)) == w then pkt ∷ rest else rest

module _ (jhash : FlowKey → ℕ) (lcore : ℕ) where
  append-put :
      (dest : ℕ → List Mbuf) (b w : ℕ) (pkt : Mbuf) (rest : List Mbuf)
      → update dest b (dest b ++ pkt ∷ []) w ++ rest
        ≡ dest w ++ (if b == w then pkt ∷ rest else rest)
  append-put dest b w pkt rest = elim (Bool-cases (b == w)) [
    | inl here ↦ rw here (
        append_assoc (dest b) (pkt ∷ []) rest
        ∙ ap (λ i. dest i ++ pkt ∷ rest) ((==_iff b w).0 here))
    | inr other ↦ rw other refl
  ]

  -- Steering a burst sorts it by the buckets of the packets' hashes: each worker gets exactly the
  -- packets whose bucket is on it, in the order in which they came, so the packets of one flow stay
  -- together and in order; and no bucket changes its worker.
  pub steer_packets_lem :
      (now : ℕ) (rx : Rx) (pkts : List Mbuf)
      → let rx' = steer_packets jhash lcore now rx pkts in
        (rx'.buckets.worker ≡ rx.buckets.worker)
        × ((w : ℕ) → rx'.dest w ≡ rx.dest w ++ packets_of jhash rx.buckets.worker w pkts)
  unfolding steer_packets select_worker
  steer_packets_lem now rx [] = (refl, λ w. sym (append-nil (rx.dest w)))
  steer_packets_lem now rx (pkt ∷ pkts) =
      let one = put jhash lcore rx pkt (select_worker rx.buckets (flow_rss_hash jhash pkt) now) in
      let ih = steer_packets_lem now one pkts in
      (
        ih.0,
        λ w.
            ih.1 w
            ∙ append-put rx.dest (rx.buckets.worker (bucket_of (flow_rss_hash jhash pkt))) w pkt _,
      )

  pub steer_packets-rings :
      (now : ℕ) (rx : Rx) (pkts : List Mbuf)
      → let rx' = steer_packets jhash lcore now rx pkts in
        (rx'.rings ≡ rx.rings) × (rx'.freed ≡ rx.freed)
  unfolding steer_packets
  steer_packets-rings now rx [] = (refl, refl)
  steer_packets-rings now rx (pkt ∷ pkts) =
      steer_packets-rings now
        (put jhash lcore rx pkt (select_worker rx.buckets (flow_rss_hash jhash pkt) now)) pkts
