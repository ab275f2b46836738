-- ===== src/Worker/Blocked.antt =====
-- A flow that is dropped, through whole bursts.
use hyper_dpi.Prelude.{
  ℕ, ◌≤◌, ◌≡◌, ◌≢◌, ◌↔◌, refl, sym, ap, ◌∙◌, subst, Bool, true, Bool-cases, inl, inr, if◌then◌else◌,
  Option, none, some, List, [], ◌∷◌, sub64, arith,
}
use hyper_dpi.Prelude.Subsequence.{Sub, keep, skip, empty, Grown}
use hyper_dpi.Traffic.{drop}
use hyper_dpi.Packet.{FlowKey, Mbuf, L2L4Result, parse_l2_l4}
use hyper_dpi.Flow.{FlowState}
use hyper_dpi.Table.{FlowHash, FlowTable, Outcome, flow_update}
use hyper_dpi.Table.Verdict.{SameFlow, HasVerdict, flow_update_other, flow_update-HasVerdict}
use hyper_dpi.Engine.{HyperScan, Engine}
use hyper_dpi.Worker.{
  Arrival, Worker, decide, handle_parsed, handle_packet, handle_packets, worker_burst,
}
use hyper_dpi.Worker.Conserve.{count, count-append}
use hyper_dpi.Worker.Order.{handle_parsed-Grown, handle_packets-Grown, flush-Grown}
use hyper_dpi.Worker.Tables.{flush-ft}
use hyper_dpi.Worker.Verdicts.{HasVerdict-SameFlow, decide-SameFlow, apply-ft, apply-drop}

-- `p` tells the packets that the parser accepts with key `k`.
abbrev pub IsFlow : FlowKey → (Mbuf → Bool) → Type 0
IsFlow k p =
    (pkt : Mbuf) → (p pkt ≡ true) ↔ ((r : L2L4Result) × (parse_l2_l4 pkt ≡ some r) × (r.key ≡ k))

-- When the flow has sent last, after these packets.
abbrev pub last_after : (Mbuf → Bool) → ℕ → List Arrival → ℕ
last_after p last [] = last
last_after p last (a ∷ rest) = last_after p (if p a.pkt then a.now else last) rest

-- At no packet's sweep has the flow been silent for longer than the timeout.
abbrev pub Awake : (Mbuf → Bool) → ℕ → ℕ → List Arrival → Type 0
Awake p timeout last [] = Unit {0}
Awake p timeout last (a ∷ rest) =
    (sub64 a.expire_now last ≤ timeout) × Awake p timeout (if p a.pkt then a.now else last) rest

count-Sub : (p : Mbuf → Bool) {xs ys : List Mbuf} → Sub xs ys → count p xs ≤ count p ys
count-Sub p empty = omega arith
count-Sub p (keep s) = ground (arith, count-Sub p s)
count-Sub p (skip s) = ground (arith, count-Sub p s)

-- None of the kind is offered, so none is added.
count-Grown :
    (p : Mbuf → Bool) (xs xs' offered : List Mbuf)
    → Grown xs xs' offered
    → count p offered ≡ 0
    → count p xs' ≡ count p xs
count-Grown p xs xs' offered g e =
    ap (count p) g.at_end ∙ omega (arith, count-append p xs g.added, count-Sub p g.in_order)

-- The flow at position `i` has the verdict DROP and sent at `last`.
pub record Held (fh : FlowHash) (k : FlowKey) (i : ℕ) (mark : Bool) (timeout : ℕ)
    (ft : FlowTable fh) (last : ℕ) : Type 0 where
  pub verdict : HasVerdict fh ft k i drop mark
  pub seen : (ft.states i).last_seen_tsc ≡ last
  pub limit : ft.timeout_cycles ≡ timeout

Held-SameFlow :
    (fh : FlowHash) (k : FlowKey) (i : ℕ) (mark : Bool) (timeout last : ℕ) (ft ft' : FlowTable fh)
    → Held fh k i mark timeout ft last
    → SameFlow fh k i ft ft'
    → Held fh k i mark timeout ft' last
Held-SameFlow fh k i mark timeout last ft ft' h s = record {
  verdict = HasVerdict-SameFlow fh ft ft' k i drop mark h.verdict s;
  seen = ap (λ (st : FlowState). st.last_seen_tsc) s.1 ∙ h.seen;
  limit = s.2 ∙ h.limit;
}

module _ (fh : FlowHash) (H : HyperScan) (e : Engine H) (scratch : Option H.Scratch) (lcore : ℕ)
    (k : FlowKey) (i : ℕ) (mark : Bool) (timeout : ℕ) where
  -- A packet of the flow.
  handle_parsed-own :
      (w : Worker fh H) (a : Arrival) (l2l4 : L2L4Result) (last : ℕ)
      → l2l4.key ≡ k
      → Held fh k i mark timeout w.ft last
      → sub64 a.expire_now last ≤ timeout
      → let w' = handle_parsed fh H e scratch lcore w a (some l2l4) in
        Held fh k i mark timeout w'.ft a.now × (w'.fwd ≡ w.fwd)
  unfolding handle_parsed decide
  handle_parsed-own w a l2l4 last same h awake =
      let (out, v, seen, limit) =
        flow_update-HasVerdict fh w.ft l2l4 a.expire_now a.now i drop mark
          (subst (λ x. HasVerdict fh w.ft x i drop mark) (sym same) h.verdict)
          (rw (h.seen, h.limit) awake) in
      let ft' = (flow_update fh w.ft l2l4 a.expire_now a.now).1 in
      let d : decide fh H e scratch lcore ft' l2l4
            (flow_update fh w.ft l2l4 a.expire_now a.now).0.status
          ≡ (drop, ft') =
        ap (λ (o : Outcome). decide fh H e scratch lcore ft' l2l4 o.status) out in
      let held : Held fh k i mark timeout ft' a.now = record {
        verdict = subst (λ x. HasVerdict fh ft' x i drop mark) same v;
        seen = seen;
        limit = limit ∙ h.limit;
      } in
      (
        subst (λ t. Held fh k i mark timeout t a.now)
            (sym (apply-ft fh H e scratch lcore _ a.pkt _ ∙ ap (λ r. r.1) d)) held,
        (apply-drop fh H e scratch lcore _ a.pkt _ (ap (λ r. r.0) d)).0,
      )

  -- Another packet.
  handle_parsed-other :
      (w : Worker fh H) (a : Arrival) (o : Option L2L4Result) (last : ℕ)
      → ((l2l4 : L2L4Result) → o ≡ some l2l4 → k ≢ l2l4.key)
      → Held fh k i mark timeout w.ft last
      → sub64 a.expire_now last ≤ timeout
      → Held fh k i mark timeout (handle_parsed fh H e scratch lcore w a o).ft last
  unfolding handle_parsed
  handle_parsed-other w a none last ne h awake = h
  handle_parsed-other w a (some l2l4) last ne h awake =
      let apart = ne l2l4 refl in
      let ft' = (flow_update fh w.ft l2l4 a.expire_now a.now).1 in
      let h' = Held-SameFlow fh k i mark timeout last w.ft ft' h (
        (flow_update_other fh w.ft k i h.verdict.at).0 l2l4 a.expire_now a.now apart
          (rw (h.seen, h.limit) awake)) in
      subst (λ t. Held fh k i mark timeout t last) (sym (apply-ft fh H e scratch lcore _ a.pkt _))
        (Held-SameFlow fh k i mark timeout last ft' _ h'
          (decide-SameFlow fh H e scratch lcore ft' l2l4 _ k i apart h'.verdict.at))

  module _ (p : Mbuf → Bool) (of_flow : IsFlow k p) where
    handle_packet-Held :
        (w : Worker fh H) (a : Arrival) (last : ℕ)
        → Held fh k i mark timeout w.ft last
        → sub64 a.expire_now last ≤ timeout
        → let w' = handle_packet fh H e scratch lcore w a in
          Held fh k i mark timeout w'.ft (if p a.pkt then a.now else last)
          × (count p w'.fwd ≡ count p w.fwd)
    unfolding handle_packet
    handle_packet-Held w a last h awake = elim (Bool-cases (p a.pkt)) [
      | inl own ↦
          let (r, parsed, same) = (of_flow a.pkt).0 own in
          let (held, fwd) = handle_parsed-own w a r last same h awake in
          rw (own, parsed) (held, ap (count p) fwd)
      | inr other ↦
          let o = parse_l2_l4 a.pkt in
          let apart : (l2l4 : L2L4Result) → o ≡ some l2l4 → k ≢ l2l4.key =
            λ l2l4 parsed same. let own = (of_flow a.pkt).1 (l2l4, parsed, sym same) in cc in
          let grown = (handle_parsed-Grown fh H e scratch lcore w a o).0 in
          (
            rw other (handle_parsed-other w a o last apart h awake),
            count-Grown p w.fwd _ (a.pkt ∷ []) grown (rw other refl),
          )
    ]

    handle_packets-Held :
        (w : Worker fh H) (arrivals : List Arrival) (last : ℕ)
        → Held fh k i mark timeout w.ft last
        → Awake p timeout last arrivals
        → let w' = handle_packets fh H e scratch lcore w arrivals in
          Held fh k i mark timeout w'.ft (last_after p last arrivals)
          × (count p w'.fwd ≡ count p w.fwd)
    unfolding handle_packets
    handle_packets-Held w [] last h awake = (h, refl)
    handle_packets-Held w (a ∷ rest) last h (now_awake, later) =
        let (held, fwd) = handle_packet-Held w a last h now_awake in
        let (held', fwd') =
          handle_packets-Held (handle_packet fh H e scratch lcore w a) rest _ held later in
        (held', fwd' ∙ fwd)

    -- Through a burst, none of the flow's packets is added to the TX ring.
    pub worker_burst-Held :
        (accepts : ℕ → ℕ) (w : Worker fh H) (arrivals : List Arrival) (last : ℕ)
        → Held fh k i mark timeout w.ft last
        → Awake p timeout last arrivals
        → let w' = worker_burst fh H e scratch lcore accepts w arrivals in
          Held fh k i mark timeout w'.ft (last_after p last arrivals)
          × (count p w'.tx_ring ≡ count p w.tx_ring)
    unfolding worker_burst
    worker_burst-Held accepts w arrivals last h awake =
        let w₀ : Worker fh H = record w { fwd = [] } in
        let w₁ = handle_packets fh H e scratch lcore w₀ arrivals in
        let (held, fwd) = handle_packets-Held w₀ arrivals last h awake in
        let ring = (handle_packets-Grown fh H e scratch lcore w₀ arrivals).1 in
        (
          subst (λ t. Held fh k i mark timeout t (last_after p last arrivals))
              (sym (flush-ft fh H e scratch lcore accepts w₁)) held,
          count-Grown p w₁.tx_ring _ w₁.fwd (flush-Grown fh H e scratch lcore accepts w₁) fwd
              ∙ ap (count p) ring,
        )
