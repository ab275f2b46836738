-- ===== src/Worker/Scanned.antt =====
-- The packet that completes a flow's request or server name.
use hyper_dpi.Prelude.{ℕ, ◌≡◌, refl, Bool, Option, none, some, Bytes}
use hyper_dpi.Traffic.{drop}
use hyper_dpi.Packet.{L2L4Result, parse_l2_l4}
use hyper_dpi.Table.{
  FlowHash, FlowTable, ready, flow_update, tick, with_lookup, with_added, inspect_at,
}
use hyper_dpi.Table.Verdict.{HasVerdict, cache_verdict-HasVerdict}
use hyper_dpi.Engine.{HyperScan, Engine, dpi_engine_scan}
use hyper_dpi.Worker.{Arrival, Worker, decide, handle_parsed, handle_packet}
use hyper_dpi.Worker.Verdicts.{applied, apply-drop, Discarded}

module _ (fh : FlowHash) where
  open fh use {Hash, lookup, add_key, lookup-add_self}

  with_added-ready :
      (ft : FlowTable fh) (l2l4 : L2L4Result) (now : ℕ) (r : Hash × Option ℕ) (text : Bytes)
      → lookup r.0 l2l4.key ≡ r.1
      → (with_added fh ft l2l4 now r).0.status ≡ ready text
      → (i : ℕ) × (lookup (with_added fh ft l2l4 now r).1.h l2l4.key ≡ some i)
  unfolding with_added inspect_at
  with_added-ready ft l2l4 now (h, none) text at s = absurd cc
  with_added-ready ft l2l4 now (h, some idx) text at s = (idx, at)

  with_lookup-ready :
      (ft : FlowTable fh) (l2l4 : L2L4Result) (now : ℕ) (o : Option ℕ) (text : Bytes)
      → lookup ft.h l2l4.key ≡ o
      → (with_lookup fh ft l2l4 now o).0.status ≡ ready text
      → (i : ℕ) × (lookup (with_lookup fh ft l2l4 now o).1.h l2l4.key ≡ some i)
  unfolding with_lookup inspect_at
  with_lookup-ready ft l2l4 now none text at s =
      with_added-ready ft l2l4 now (add_key ft.h l2l4.key) text (lookup-add_self ft.h l2l4.key) s
  with_lookup-ready ft l2l4 now (some idx) text at s = (idx, at)

  -- A flow whose text is ready is in the table.
  flow_update-ready :
      (ft : FlowTable fh) (l2l4 : L2L4Result) (expire_now now : ℕ) (text : Bytes)
      → (flow_update fh ft l2l4 expire_now now).0.status ≡ ready text
      → (i : ℕ) × (lookup (flow_update fh ft l2l4 expire_now now).1.h l2l4.key ≡ some i)
  unfolding flow_update
  flow_update-ready ft l2l4 expire_now now text s =
      let ft' = tick fh ft expire_now in
      with_lookup-ready ft' l2l4 now (lookup ft'.h l2l4.key) text refl s

-- The packet that completes the text of a flow is scanned, and the flow keeps what the scan
-- decides: afterwards the flow is in the table with that action as its verdict, and the packet is
-- given back to the pool and not forwarded where the action is DROP.
pub handle_packet-ready :
    (fh : FlowHash) (H : HyperScan) (e : Engine H) (scratch : Option H.Scratch) (lcore : ℕ)
    (w : Worker fh H) (a : Arrival) (l2l4 : L2L4Result) (text : Bytes)
    → parse_l2_l4 a.pkt ≡ some l2l4
    → (flow_update fh w.ft l2l4 a.expire_now a.now).0.status ≡ ready text
    → let action = dpi_engine_scan H e scratch l2l4.type text in
      let w' = handle_packet fh H e scratch lcore w a in
      ((i : ℕ) × ((mark : Bool) × HasVerdict fh w'.ft l2l4.key i action mark))
      × (action ≡ drop → Discarded fh H e scratch lcore w w' a.pkt)
unfolding handle_packet handle_parsed decide
handle_packet-ready fh H e scratch lcore w a l2l4 text parsed s =
    let action = dpi_engine_scan H e scratch l2l4.type text in
    let ft' = (flow_update fh w.ft l2l4 a.expire_now a.now).1 in
    let (i, at) = flow_update-ready fh w.ft l2l4 a.expire_now a.now text s in
    let v = cache_verdict-HasVerdict fh ft' l2l4.key i action at in
    rw (parsed, s)
      (
        (
          i,
          (
            (ft'.states i).no_sni_cached,
            applied fh H e scratch lcore w _ a.pkt _ l2l4.key i action _ v,
          ),
        ),
        λ d. apply-drop fh H e scratch lcore _ a.pkt _ d,
      )
