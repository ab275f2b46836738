-- ===== src/Table/Update.antt =====
-- What a call of `parser_flow_update` does to the table: well-formedness, and the other flows.
use hyper_dpi.Prelude.{
  ℕ, ◌%◌, ◌≡◌, ◌≢◌, refl, sym, ap, subst, ◌∙◌, ◌==◌, Bool-cases, inl, inr, Option, none, some,
  some_inj, add64, update, arith, ==_self, ==_ne,
}
use hyper_dpi.Traffic.{Action}
use hyper_dpi.Packet.{FlowKey, L2L4Result}
use hyper_dpi.Flow.{FlowState, new_state}
use hyper_dpi.Flow.Invariant.{IsValid-other, new_state-IsValid}
use hyper_dpi.Table.{
  FlowHash, FlowTable, inspect_at, with_added, with_lookup, tick, flow_update, cache_at,
  cache_verdict, flow_expiry_scan_interval,
}
use hyper_dpi.Packet.Frames.{IsSegment}
use hyper_dpi.Table.Inspect.{FlowOk, inspect-FlowOk}
use hyper_dpi.Table.Expire.{FlowKey-discrete, IsLive, expire-Swept}

-- A time stamp does not matter.
stamp-FlowOk : (st : FlowState) (now : ℕ) → FlowOk st → FlowOk (record st { last_seen_tsc = now })
stamp-FlowOk st now ok e =
    IsValid-other st st.buf st.scan_buf now st.verdict_cached st.no_sni_cached (ok e)

module _ (fh : FlowHash) where
  open fh use {Hash, lookup, add_key, lookup_inj, lookup-add_self, lookup-add_ne}

  -- Every flow in the table is well-formed.
  abbrev pub TableOk : FlowTable fh → Type 0
  TableOk ft = (k : FlowKey) (i : ℕ) → lookup ft.h k ≡ some i → FlowOk (ft.states i)

  -- The sweep or its absence: no flow is added, and a live one stays.
  pub tick-lookup :
      (ft : FlowTable fh) (now : ℕ) (k : FlowKey) (i : ℕ)
      → let ft' = tick fh ft now in
        (ft'.states ≡ ft.states)
        × (ft'.timeout_cycles ≡ ft.timeout_cycles)
        × (lookup ft'.h k ≡ some i → lookup ft.h k ≡ some i)
        × (lookup ft.h k ≡ some i → IsLive fh ft now i → lookup ft'.h k ≡ some i)
  unfolding tick
  tick-lookup ft now k i =
      let ft0 = record ft { call_count = add64 ft.call_count 1 } in
      let s = expire-Swept fh ft0 now in
      elim (Bool-cases (ft0.call_count % flow_expiry_scan_interval == 0)) [
        | inl due ↦ rw due (s.same.0, s.same.1, s.no_new k i, s.live_stay k i)
        | inr not_due ↦ rw not_due (refl, refl, λ e. e, λ e l. e)
      ]

  inspect_at-TableOk :
      (ft : FlowTable fh) (l2l4 : L2L4Result) (now idx : ℕ)
      → IsSegment l2l4
      → FlowOk (ft.states idx)
      → ((k : FlowKey) (i : ℕ) → lookup ft.h k ≡ some i → i ≢ idx → FlowOk (ft.states i))
      → TableOk (inspect_at fh ft l2l4 now idx).1
  unfolding inspect_at
  inspect_at-TableOk ft l2l4 now idx seg here others k i e =
      let st = record (ft.states idx) { last_seen_tsc = now } in
      let ok = (inspect-FlowOk st l2l4 seg (stamp-FlowOk (ft.states idx) now here)).0 in
      elim (Bool-cases (idx == i)) [
        | inl same ↦ rw same ok
        | inr differs ↦ rw differs (others k i e (ground arith))
      ]

  with_added-TableOk :
      (ft : FlowTable fh) (l2l4 : L2L4Result) (now : ℕ) (r : Hash × Option ℕ)
      → IsSegment l2l4
      → ((j : FlowKey) → j ≢ l2l4.key → lookup r.0 j ≡ lookup ft.h j)
      → lookup r.0 l2l4.key ≡ r.1
      → TableOk ft
      → TableOk (with_added fh ft l2l4 now r).1
  unfolding with_added
  with_added-TableOk ft l2l4 now (h, none) seg others self ok k i e =
      elim (FlowKey-discrete k l2l4.key) [
        | yes same ↦ absurd (none-ne-some (sym self ∙ ap (lookup h) (sym same) ∙ e))
        | no other ↦ ok k i (sym (others k other) ∙ e)
      ]
    where
      none-ne-some : {i : ℕ} → none ≡ some i → ⊥
      none-ne-some p = cc
  with_added-TableOk ft l2l4 now (h, some idx) seg others self ok k i e =
      inspect_at-TableOk (record ft { h = h; states = update ft.states idx (new_state l2l4.type) })
        l2l4 now idx seg (rw (==_self idx) (λ p. new_state-IsValid l2l4.type))
        (λ j p q ne.
          rw (==_ne idx p (λ same. ne (sym same))) (
            ok j p
              (sym (others j (λ same. ne (some_inj (sym q ∙ ap (lookup h) same ∙ self)))) ∙ q)))
        k i e

  with_lookup-TableOk :
      (ft : FlowTable fh) (l2l4 : L2L4Result) (now : ℕ) (o : Option ℕ)
      → IsSegment l2l4
      → lookup ft.h l2l4.key ≡ o
      → TableOk ft
      → TableOk (with_lookup fh ft l2l4 now o).1
  unfolding with_lookup
  with_lookup-TableOk ft l2l4 now none seg at ok =
      with_added-TableOk ft l2l4 now (add_key ft.h l2l4.key) seg
        (λ j ne. lookup-add_ne ft.h j l2l4.key ne) (lookup-add_self ft.h l2l4.key) ok
  with_lookup-TableOk ft l2l4 now (some idx) seg at ok =
      inspect_at-TableOk ft l2l4 now idx seg (ok l2l4.key idx at) (λ k i e ne. ok k i e)

  cache_at-TableOk :
      (ft : FlowTable fh) (action : Action) (o : Option ℕ)
      → TableOk ft
      → TableOk (cache_at fh ft action o)
  unfolding cache_at
  cache_at-TableOk ft action none ok k i e = ok k i e
  cache_at-TableOk ft action (some idx) ok k i e = elim (Bool-cases (idx == i)) [
    | inl same ↦ rw same (λ p. cc)
    | inr differs ↦ rw differs (ok k i e)
  ]

  tick-TableOk : (ft : FlowTable fh) (now : ℕ) → TableOk ft → TableOk (tick fh ft now)
  tick-TableOk ft now ok k i e =
      let t = tick-lookup ft now k i in
      subst (λ (f : ℕ → FlowState). FlowOk (f i)) (sym t.0) (ok k i (t.2 e))

-- Every call keeps every flow of the table well-formed: an update for any segment, the sweep that
-- it may start and the flow that it may add included, and the caching of a verdict. A new table,
-- which holds no flow, is well-formed, so the flows of a worker always are.
pub flow_update-TableOk :
    (fh : FlowHash) (ft : FlowTable fh)
    → TableOk fh ft
    → ((l2l4 : L2L4Result) (expire_now now : ℕ)
        → IsSegment l2l4
        → TableOk fh (flow_update fh ft l2l4 expire_now now).1)
      × ((key : FlowKey) (action : Action) → TableOk fh (cache_verdict fh ft key action))
unfolding flow_update cache_verdict
flow_update-TableOk fh ft ok = (
  λ l2l4 expire_now now seg.
      let ft' = tick fh ft expire_now in
      with_lookup-TableOk fh ft' l2l4 now (fh.lookup ft'.h l2l4.key) seg refl
        (tick-TableOk fh ft expire_now ok),
  λ key action. cache_at-TableOk fh ft action (fh.lookup ft.h key) ok,
)
