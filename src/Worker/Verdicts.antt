-- ===== src/Worker/Verdicts.antt =====
-- A flow that is dropped once stays dropped.
use hyper_dpi.Prelude.{
  ℕ, ◌≡◌, ◌≢◌, refl, sym, ap, subst, ◌∙◌, Bool, Option, none, some, some_inj, [], ◌∷◌, ◌++◌,
}
use hyper_dpi.Traffic.{Action, forward, drop}
use hyper_dpi.Packet.{FlowKey, Mbuf, L2L4Result, parse_l2_l4}
use hyper_dpi.Flow.{FlowState}
use hyper_dpi.Table.{
  FlowHash, FlowTable, Status, pending, ready, cached, give_up, no_sni, Outcome, flow_update,
}
use hyper_dpi.Table.Expire.{FlowKey-discrete, IsLive}
use hyper_dpi.Table.Verdict.{SameFlow, HasVerdict, flow_update_other, flow_update-HasVerdict}
use hyper_dpi.Engine.{HyperScan, Engine}
use hyper_dpi.Worker.{Arrival, Worker, decide, apply, handle_parsed, handle_packet}

pub HasVerdict-SameFlow :
    (fh : FlowHash) (ft ft' : FlowTable fh) (k : FlowKey) (i : ℕ) (action : Action) (mark : Bool)
    → HasVerdict fh ft k i action mark
    → SameFlow fh k i ft ft'
    → HasVerdict fh ft' k i action mark
HasVerdict-SameFlow fh ft ft' k i action mark v (at, same, timeout) = record {
  at = at;
  done = ap (λ (st : FlowState). st.verdict_cached) same ∙ v.done;
  verdict = ap (λ (st : FlowState). st.cached_action) same ∙ v.verdict;
  mark = ap (λ (st : FlowState). st.no_sni_cached) same ∙ v.mark;
}

module _ (fh : FlowHash) (H : HyperScan) (e : Engine H) (scratch : Option H.Scratch)
    (lcore : ℕ) where
  pub decide-SameFlow :
      (ft : FlowTable fh) (l2l4 : L2L4Result) (s : Status) (k : FlowKey) (i : ℕ)
      → k ≢ l2l4.key
      → fh.lookup ft.h k ≡ some i
      → SameFlow fh k i ft (decide fh H e scratch lcore ft l2l4 s).1
  unfolding decide
  decide-SameFlow ft l2l4 (cached a) k i ne at = (at, refl, refl)
  decide-SameFlow ft l2l4 pending k i ne at = (at, refl, refl)
  decide-SameFlow ft l2l4 give_up k i ne at = (at, refl, refl)
  decide-SameFlow ft l2l4 (ready text) k i ne at = (flow_update_other fh ft k i at).1 l2l4.key _ ne
  decide-SameFlow ft l2l4 no_sni k i ne at = (flow_update_other fh ft k i at).1 l2l4.key _ ne

  pub apply-ft :
      (w : Worker fh H) (pkt : Mbuf) (action : Action)
      → (apply fh H e scratch lcore w pkt action).ft ≡ w.ft
  unfolding apply
  apply-ft w pkt drop = refl
  apply-ft w pkt forward = refl

  pub applied :
      (w w' : Worker fh H) (pkt : Mbuf) (action : Action) (k : FlowKey) (i : ℕ) (verdict : Action)
      (mark : Bool)
      → HasVerdict fh w'.ft k i verdict mark
      → HasVerdict fh (apply fh H e scratch lcore w' pkt action).ft k i verdict mark
  applied w w' pkt action k i verdict mark v =
      subst (λ t. HasVerdict fh t k i verdict mark) (sym (apply-ft w' pkt action)) v

  -- The packet is given back to the pool, and is not forwarded.
  abbrev pub Discarded : Worker fh H → Worker fh H → Mbuf → Type 0
  Discarded w w' pkt = (w'.fwd ≡ w.fwd) × (w'.freed ≡ w.freed ++ pkt ∷ [])

  pub apply-drop :
      (w : Worker fh H) (pkt : Mbuf) (action : Action)
      → action ≡ drop
      → Discarded w (apply fh H e scratch lcore w pkt action) pkt
  unfolding apply
  apply-drop w pkt drop h = (refl, refl)
  apply-drop w pkt forward h = cc

  handle_parsed-HasVerdict :
      (w : Worker fh H) (a : Arrival) (o : Option L2L4Result) (k : FlowKey) (i : ℕ) (mark : Bool)
      → HasVerdict fh w.ft k i drop mark
      → IsLive fh w.ft a.expire_now i
      → let w' = handle_parsed fh H e scratch lcore w a o in
        HasVerdict fh w'.ft k i drop mark
        × ((l2l4 : L2L4Result) → o ≡ some l2l4 → l2l4.key ≡ k → Discarded w w' a.pkt)
  unfolding handle_parsed decide
  handle_parsed-HasVerdict w a none k i mark v live = (v, λ l2l4 n s. absurd cc)
  handle_parsed-HasVerdict w a (some l2l4) k i mark v live = elim (FlowKey-discrete k l2l4.key) [
    | yes same ↦
        let u =
          flow_update-HasVerdict fh w.ft l2l4 a.expire_now a.now i drop mark
            (subst (λ x. HasVerdict fh w.ft x i drop mark) same v) live in
        let ft' = (flow_update fh w.ft l2l4 a.expire_now a.now).1 in
        let d : decide fh H e scratch lcore ft' l2l4
              (flow_update fh w.ft l2l4 a.expire_now a.now).0.status
            ≡ (drop, ft') =
          ap (λ (o : Outcome). decide fh H e scratch lcore ft' l2l4 o.status) u.0 in
        (
          applied w _ a.pkt _ k i drop mark (
              subst (λ t. HasVerdict fh t k i drop mark) (sym (ap (λ r. r.1) d))
                (subst (λ x. HasVerdict fh ft' x i drop mark) (sym same) u.1)),
          λ l2l4' eq s. apply-drop _ a.pkt _ (ap (λ r. r.0) d),
        )
    | no ne ↦
        let ft' = (flow_update fh w.ft l2l4 a.expire_now a.now).1 in
        let v' =
          HasVerdict-SameFlow fh w.ft ft' k i drop mark v
            ((flow_update_other fh w.ft k i v.at).0 l2l4 a.expire_now a.now ne live) in
        (
          applied w _ a.pkt _ k i drop mark (
              HasVerdict-SameFlow fh ft' _ k i drop mark v'
                (decide-SameFlow ft' l2l4 _ k i ne v'.at)),
          λ l2l4' eq s. absurd (ne (sym (ap (λ (r : L2L4Result). r.key) (some_inj eq) ∙ s))),
        )
  ]

-- A flow with the verdict DROP stays dropped: whatever packet the worker handles next, while the
-- flow has sent within the timeout, the flow keeps its verdict, and a packet of the flow itself is
-- given back to the pool and not forwarded, whatever its payload.
pub handle_packet-HasVerdict :
    (fh : FlowHash) (H : HyperScan) (e : Engine H) (scratch : Option H.Scratch) (lcore : ℕ)
    (w : Worker fh H) (a : Arrival) (k : FlowKey) (i : ℕ) (mark : Bool)
    → HasVerdict fh w.ft k i drop mark
    → IsLive fh w.ft a.expire_now i
    → let w' = handle_packet fh H e scratch lcore w a in
      HasVerdict fh w'.ft k i drop mark
      × ((l2l4 : L2L4Result)
          → parse_l2_l4 a.pkt ≡ some l2l4
          → l2l4.key ≡ k
          → Discarded fh H e scratch lcore w w' a.pkt)
unfolding handle_packet
handle_packet-HasVerdict fh H e scratch lcore w a k i mark v live =
    handle_parsed-HasVerdict fh H e scratch lcore w a (parse_l2_l4 a.pkt) k i mark v live
