-- ===== src/Worker/Tables.antt =====
-- A worker's flows stay well-formed.
use hyper_dpi.Prelude.{
  ℕ, Bool-cases, inl, inr, leb, length, ◌≡◌, refl, sym, subst, Option, none, some, List, [], ◌∷◌,
}
use hyper_dpi.Traffic.{Action, forward, drop}
use hyper_dpi.Packet.{Mbuf, L2L4Result, parse_l2_l4}
use hyper_dpi.Packet.Frames.{IsFrame, AllFrames, parse_l2_l4-IsSegment}
use hyper_dpi.Table.{FlowHash, FlowTable, Status, pending, ready, cached, give_up, no_sni}
use hyper_dpi.Table.Update.{TableOk, flow_update-TableOk}
use hyper_dpi.Engine.{HyperScan, Engine}
use hyper_dpi.Worker.{
  Arrival, Worker, count_dropped, decide, apply, handle_parsed, handle_packet, handle_packets,
  drop_unsent, flush, drop_first, worker_burst,
}
use hyper_dpi.Worker.Order.{packets}

module _ (fh : FlowHash) (H : HyperScan) (e : Engine H) (scratch : Option H.Scratch)
    (lcore : ℕ) where
  decide-TableOk :
      (ft : FlowTable fh) (l2l4 : L2L4Result) (s : Status)
      → TableOk fh ft
      → TableOk fh (decide fh H e scratch lcore ft l2l4 s).1
  unfolding decide
  decide-TableOk ft l2l4 (cached a) ok = ok
  decide-TableOk ft l2l4 pending ok = ok
  decide-TableOk ft l2l4 give_up ok = ok
  decide-TableOk ft l2l4 (ready text) ok = (flow_update-TableOk fh ft ok).1 l2l4.key _
  decide-TableOk ft l2l4 no_sni ok = (flow_update-TableOk fh ft ok).1 l2l4.key _

  apply-TableOk :
      (w : Worker fh H) (pkt : Mbuf) (action : Action)
      → TableOk fh w.ft
      → TableOk fh (apply fh H e scratch lcore w pkt action).ft
  unfolding apply
  apply-TableOk w pkt drop ok = ok
  apply-TableOk w pkt forward ok = ok

  handle_parsed-TableOk :
      (w : Worker fh H) (a : Arrival) (o : Option L2L4Result)
      → parse_l2_l4 a.pkt ≡ o
      → IsFrame a.pkt
      → TableOk fh w.ft
      → TableOk fh (handle_parsed fh H e scratch lcore w a o).ft
  unfolding handle_parsed
  handle_parsed-TableOk w a none at f ok = ok
  handle_parsed-TableOk w a (some l2l4) at f ok = apply-TableOk _ a.pkt _ (
      decide-TableOk _ l2l4 _ (
        (flow_update-TableOk fh w.ft ok).0 l2l4 a.expire_now a.now
          (parse_l2_l4-IsSegment a.pkt l2l4 f at)))

  handle_packets-TableOk :
      (w : Worker fh H) (arrivals : List Arrival)
      → AllFrames (packets arrivals)
      → TableOk fh w.ft
      → TableOk fh (handle_packets fh H e scratch lcore w arrivals).ft
  unfolding handle_packets handle_packet
  handle_packets-TableOk w [] fs ok = ok
  handle_packets-TableOk w (a ∷ rest) (f, fs) ok =
      handle_packets-TableOk (handle_packet fh H e scratch lcore w a) rest fs
        (handle_parsed-TableOk w a (parse_l2_l4 a.pkt) refl f ok)

  drop_unsent-ft :
      (w : Worker fh H) (pkts : List Mbuf) → (drop_unsent fh H e scratch lcore w pkts).ft ≡ w.ft
  unfolding drop_unsent
  drop_unsent-ft w [] = refl
  drop_unsent-ft w (pkt ∷ pkts) = drop_unsent-ft (count_dropped fh H e scratch lcore w pkt) pkts

  pub flush-ft :
      (accepts : ℕ → ℕ) (w : Worker fh H) → (flush fh H e scratch lcore accepts w).ft ≡ w.ft
  unfolding flush
  flush-ft accepts w = elim (Bool-cases (leb (length w.fwd) 0)) [
    | inl idle ↦ rw idle refl
    | inr busy ↦ rw busy (drop_unsent-ft _ (drop_first (accepts (length w.fwd)) w.fwd))
  ]

  -- A burst of frames keeps every flow of the worker's table well-formed.
  pub worker_burst-TableOk :
      (accepts : ℕ → ℕ) (w : Worker fh H) (arrivals : List Arrival)
      → AllFrames (packets arrivals)
      → TableOk fh w.ft
      → TableOk fh (worker_burst fh H e scratch lcore accepts w arrivals).ft
  unfolding worker_burst
  worker_burst-TableOk accepts w arrivals fs ok =
      let w₀ : Worker fh H = record w { fwd = [] } in
      subst (TableOk fh) (sym (flush-ft accepts (handle_packets fh H e scratch lcore w₀ arrivals)))
        (handle_packets-TableOk w₀ arrivals fs ok)
