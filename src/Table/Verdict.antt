-- ===== src/Table/Verdict.antt =====
-- A verdict that is cached stays with its flow, and a call for one flow leaves the others alone.
use hyper_dpi.Prelude.{
  ℕ, ◌≡◌, ◌≢◌, refl, ap, ◌∙◌, Bool, true, Option, none, some, update, ==_self, ==_ne,
}
use hyper_dpi.Traffic.{Action}
use hyper_dpi.Packet.{FlowKey, L2L4Result}
use hyper_dpi.Flow.{FlowState, new_state}
use hyper_dpi.Table.{
  FlowHash, FlowTable, cached, give_up, outcome, inspect, inspect_at, with_added, with_lookup, tick,
  flow_update, cache_at, cache_verdict,
}
use hyper_dpi.Table.Expire.{IsLive}
use hyper_dpi.Table.Update.{tick-lookup}

module _ (fh : FlowHash) where
  open fh use {Hash, lookup, add_key, lookup_inj, lookup-add_self, lookup-add_ne}

  -- Flow `k` is at position `i` in both tables, with the same state.
  abbrev pub SameFlow : FlowKey → ℕ → FlowTable fh → FlowTable fh → Type 0
  SameFlow k i ft ft' =
      (lookup ft'.h k ≡ some i)
      × (ft'.states i ≡ ft.states i)
      × (ft'.timeout_cycles ≡ ft.timeout_cycles)

  inspect_at-SameFlow :
      (ft : FlowTable fh) (l2l4 : L2L4Result) (now idx : ℕ) (k : FlowKey) (i : ℕ)
      → lookup ft.h k ≡ some i
      → idx ≢ i
      → SameFlow k i ft (inspect_at fh ft l2l4 now idx).1
  unfolding inspect_at
  inspect_at-SameFlow ft l2l4 now idx k i at ne = (at, rw (==_ne idx i ne), refl)

  with_added-SameFlow :
      (ft : FlowTable fh) (l2l4 : L2L4Result) (now : ℕ) (r : Hash × Option ℕ) (k : FlowKey) (i : ℕ)
      → lookup r.0 k ≡ some i
      → lookup r.0 l2l4.key ≡ r.1
      → k ≢ l2l4.key
      → SameFlow k i ft (with_added fh ft l2l4 now r).1
  unfolding with_added
  with_added-SameFlow ft l2l4 now (h, none) k i at self ne = (at, refl, refl)
  with_added-SameFlow ft l2l4 now (h, some idx) k i at self ne =
      let apart : idx ≢ i = λ same. ne (lookup_inj h k l2l4.key i at (self ∙ ap some same)) in
      let s =
        inspect_at-SameFlow
          (record ft { h = h; states = update ft.states idx (new_state l2l4.type) }) l2l4 now idx k
          i at apart in
      (s.0, s.1 ∙ rw (==_ne idx i apart), s.2)

  with_lookup-SameFlow :
      (ft : FlowTable fh) (l2l4 : L2L4Result) (now : ℕ) (o : Option ℕ) (k : FlowKey) (i : ℕ)
      → lookup ft.h k ≡ some i
      → lookup ft.h l2l4.key ≡ o
      → k ≢ l2l4.key
      → SameFlow k i ft (with_lookup fh ft l2l4 now o).1
  unfolding with_lookup
  with_lookup-SameFlow ft l2l4 now none k i at self ne =
      with_added-SameFlow ft l2l4 now (add_key ft.h l2l4.key) k i
        (lookup-add_ne ft.h k l2l4.key ne ∙ at) (lookup-add_self ft.h l2l4.key) ne
  with_lookup-SameFlow ft l2l4 now (some idx) k i at self ne =
      inspect_at-SameFlow ft l2l4 now idx k i at
        (λ same. ne (lookup_inj ft.h k l2l4.key i at (self ∙ ap some same)))

  cache_at-SameFlow :
      (ft : FlowTable fh) (key : FlowKey) (action : Action) (o : Option ℕ) (k : FlowKey) (i : ℕ)
      → lookup ft.h k ≡ some i
      → lookup ft.h key ≡ o
      → k ≢ key
      → SameFlow k i ft (cache_at fh ft action o)
  unfolding cache_at
  cache_at-SameFlow ft key action none k i at self ne = (at, refl, refl)
  cache_at-SameFlow ft key action (some idx) k i at self ne =
      let apart : idx ≢ i = λ same. ne (lookup_inj ft.h k key i at (self ∙ ap some same)) in
      (at, rw (==_ne idx i apart), refl)

-- A call for one flow leaves every other alone: a flow of another key keeps its place and its whole
-- state, verdict and stream included, through an update, if it sent within the timeout when the
-- call's sweep looks at it, and through the caching of a verdict.
pub flow_update_other :
    (fh : FlowHash) (ft : FlowTable fh) (k : FlowKey) (i : ℕ)
    → fh.lookup ft.h k ≡ some i
    → ((l2l4 : L2L4Result) (expire_now now : ℕ)
        → k ≢ l2l4.key
        → IsLive fh ft expire_now i
        → SameFlow fh k i ft (flow_update fh ft l2l4 expire_now now).1)
      × ((key : FlowKey) (action : Action)
          → k ≢ key
          → SameFlow fh k i ft (cache_verdict fh ft key action))
unfolding flow_update cache_verdict
flow_update_other fh ft k i at = (
  λ l2l4 expire_now now ne live.
      let ft' = tick fh ft expire_now in
      let t = tick-lookup fh ft expire_now k i in
      let s =
        with_lookup-SameFlow fh ft' l2l4 now (fh.lookup ft'.h l2l4.key) k i (t.3 at live) refl ne in
      (s.0, s.1 ∙ ap (λ (f : ℕ → FlowState). f i) t.0, s.2 ∙ t.1),
  λ key action ne. cache_at-SameFlow fh ft key action (fh.lookup ft.h key) k i at refl ne,
)

module _ (fh : FlowHash) where
  open fh use {lookup, add_key, lookup-add_self}

  -- Flow `k` is in the table with verdict `action`, and with this mark of a missing server name.
  pub record HasVerdict (ft : FlowTable fh) (k : FlowKey) (i : ℕ) (action : Action) (no_sni : Bool)
      : Type 0 where
    pub at : lookup ft.h k ≡ some i
    pub done : (ft.states i).verdict_cached ≡ true
    pub verdict : (ft.states i).cached_action ≡ action
    pub mark : (ft.states i).no_sni_cached ≡ no_sni

  inspect_at-HasVerdict :
      (ft : FlowTable fh) (l2l4 : L2L4Result) (now i : ℕ) (action : Action) (mark : Bool)
      → HasVerdict ft l2l4.key i action mark
      → let r = inspect_at fh ft l2l4 now i in
        (r.0 ≡ record { status = cached action; out_no_sni = mark })
        × HasVerdict r.1 l2l4.key i action mark
        × ((r.1.states i).last_seen_tsc ≡ now)
  unfolding inspect_at inspect
  inspect_at-HasVerdict ft l2l4 now i action mark v = simp v.done (
    λ j. record { status = cached (v.verdict j); out_no_sni = v.mark j },
    record {
      at = v.at;
      done = rw (==_self i) refl;
      verdict = rw (==_self i) v.verdict;
      mark = rw (==_self i) v.mark;
    },
    rw (==_self i) refl,
  )

  cache_at-HasVerdict :
      (ft : FlowTable fh) (k : FlowKey) (i : ℕ) (action : Action)
      → lookup ft.h k ≡ some i
      → HasVerdict (cache_at fh ft action (some i)) k i action (ft.states i).no_sni_cached
  unfolding cache_at
  cache_at-HasVerdict ft k i action at = record {
    at = at;
    done = rw (==_self i) refl;
    verdict = rw (==_self i) refl;
    mark = rw (==_self i) refl;
  }

with_added-full :
    (fh : FlowHash) (ft : FlowTable fh) (l2l4 : L2L4Result) (now : ℕ) (r : fh.Hash × Option ℕ)
    → r.1 ≡ none
    → ((with_added fh ft l2l4 now r).0 ≡ outcome give_up)
      × ((with_added fh ft l2l4 now r).1.states ≡ ft.states)
unfolding with_added
with_added-full fh ft l2l4 now (h, none) e = (refl, refl)
with_added-full fh ft l2l4 now (h, some i) e = cc

-- Caching a verdict for a flow of the table records it.
pub cache_verdict-HasVerdict :
    (fh : FlowHash) (ft : FlowTable fh) (k : FlowKey) (i : ℕ) (action : Action)
    → fh.lookup ft.h k ≡ some i
    → HasVerdict fh (cache_verdict fh ft k action) k i action (ft.states i).no_sni_cached
unfolding cache_verdict
cache_verdict-HasVerdict fh ft k i action at = rw at (cache_at-HasVerdict fh ft k i action at)

-- A packet of a flow with a verdict, which sent within the timeout, gets that verdict with the
-- flow's mark of a missing server name; the verdict stays, the flow's time stamp is renewed, and
-- the timeout is the same.
pub flow_update-HasVerdict :
    (fh : FlowHash) (ft : FlowTable fh) (l2l4 : L2L4Result) (expire_now now i : ℕ) (action : Action)
    (mark : Bool)
    → HasVerdict fh ft l2l4.key i action mark
    → IsLive fh ft expire_now i
    → let (out, ft') = flow_update fh ft l2l4 expire_now now in
      (out ≡ record { status = cached action; out_no_sni = mark })
      × HasVerdict fh ft' l2l4.key i action mark
      × ((ft'.states i).last_seen_tsc ≡ now)
      × (ft'.timeout_cycles ≡ ft.timeout_cycles)
unfolding flow_update with_lookup
flow_update-HasVerdict fh ft l2l4 expire_now now i action mark v live =
    let t = tick-lookup fh ft expire_now l2l4.key i in
    let at = t.3 v.at live in
    let same = ap (λ (f : ℕ → FlowState). f i) t.0 in
    let v' : HasVerdict fh (tick fh ft expire_now) l2l4.key i action mark = record {
      at = at;
      done = ap (λ (st : FlowState). st.verdict_cached) same ∙ v.done;
      verdict = ap (λ (st : FlowState). st.cached_action) same ∙ v.verdict;
      mark = ap (λ (st : FlowState). st.no_sni_cached) same ∙ v.mark;
    } in
    let r = inspect_at-HasVerdict fh (tick fh ft expire_now) l2l4 now i action mark v' in
    rw at (r.0, r.1, r.2, unfold inspect_at in t.1)

-- When the table has no room for a new flow the call reports so, and the caller lets the packet
-- pass: no flow's state changes, the sweep that the call may start apart.
flow_update-full :
    (fh : FlowHash) (ft : FlowTable fh) (l2l4 : L2L4Result) (expire_now now : ℕ)
    → fh.lookup (tick fh ft expire_now).h l2l4.key ≡ none
    → (fh.add_key (tick fh ft expire_now).h l2l4.key).1 ≡ none
    → let r = flow_update fh ft l2l4 expire_now now in
      (r.0 ≡ outcome give_up) × (r.1.states ≡ ft.states)
unfolding flow_update with_lookup
flow_update-full fh ft l2l4 expire_now now absent full =
    let ft' = tick fh ft expire_now in
    let t = tick-lookup fh ft expire_now l2l4.key 0 in
    let r = with_added-full fh ft' l2l4 now (fh.add_key ft'.h l2l4.key) full in
    rw absent (r.0, r.1 ∙ t.0)
