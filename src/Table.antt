-- ===== src/Table.antt =====
-- src/parser.c, `struct flow_table`, `parser_flow_update`, `flow_table_expire` and
-- `parser_flow_cache_verdict`: the flows of one worker.
--
-- The hash table is DPDK's `rte_hash`: it is the record `FlowHash`, whose laws are what the
-- documentation of its calls says. The clock is an argument of each call.
pub mod Inspect
pub mod Expire
pub mod Update
pub mod Verdict
pub mod Lifetime
pub mod Delivered
use hyper_dpi.Prelude.{
  ℕ, zero, suc, ◌+◌, ◌%◌, ◌≤◌, ◌<◌, ◌≡◌, ◌≢◌, Bool, true, false, ◌==◌, ltb, leb, if◌then◌else◌,
  Option, none, some, Bytes, update, add64, sub64,
}
use hyper_dpi.Traffic.{TrafficType, non_dpi, http, https, Action}
use hyper_dpi.Packet.{FlowKey, L2L4Result}
use hyper_dpi.Flow.{FlowState, new_state, window}
use hyper_dpi.Flow.Place.{place}
use hyper_dpi.Http.{try_extract_http}
use hyper_dpi.Tls.{SniResult, found, try_extract_tls_sni}

abbrev pub flow_table_capacity : ℕ
flow_table_capacity = 1024

abbrev pub flow_expiry_scan_interval : ℕ
flow_expiry_scan_interval = 256

-- `struct rte_hash`. A negative position is `none`. `iterate` takes the cursor and returns the
-- position, the key and the new cursor, which grows up to `slots`.
pub record FlowHash : Type 1 where
  pub Hash : Type 0
  pub lookup : Hash → FlowKey → Option ℕ
  pub add_key : Hash → FlowKey → Hash × Option ℕ
  pub del_key : Hash → FlowKey → Hash
  pub iterate : Hash → ℕ → Option (ℕ × FlowKey × ℕ)
  pub slots : ℕ
  -- A position is the key's own, and is below the number of entries.
  pub lookup-lt : (h : Hash) (k : FlowKey) (i : ℕ) → lookup h k ≡ some i → i < flow_table_capacity
  pub lookup_inj :
      (h : Hash) (j k : FlowKey) (i : ℕ) → lookup h j ≡ some i → lookup h k ≡ some i → j ≡ k
  -- Adding a key and deleting one touch no other.
  pub lookup-add_self : (h : Hash) (k : FlowKey) → lookup (add_key h k).0 k ≡ (add_key h k).1
  pub lookup-add_ne : (h : Hash) (j k : FlowKey) → j ≢ k → lookup (add_key h k).0 j ≡ lookup h j
  pub lookup-del_self : (h : Hash) (k : FlowKey) → lookup (del_key h k) k ≡ none
  pub lookup-del_ne : (h : Hash) (j k : FlowKey) → j ≢ k → lookup (del_key h k) j ≡ lookup h j
  pub iterate_lem :
      (h : Hash) (next i : ℕ) (k : FlowKey) (next' : ℕ)
      → iterate h next ≡ some (i, k, next')
      → (lookup h k ≡ some i) × (next < next') × (next' ≤ slots)

-- `enum reassembly_status`, with what the out parameters then hold.
pub data Status : Type 0 where
  pending : Status
  ready : Bytes → Status
  cached : Action → Status
  give_up : Status
  no_sni : Status

-- The status and `*out_no_sni`.
pub record Outcome : Type 0 where
  pub status : Status
  pub out_no_sni : Bool

abbrev pub outcome : Status → Outcome
outcome s = record { status = s; out_no_sni = false }

-- The last check: the gap-free prefix fills the window.
abbrev pub give_up_check : FlowState → Outcome × FlowState
give_up_check st = (outcome (if leb window st.contig_len then give_up else pending), st)

-- The branch for HTTP, on the result of the extraction.
unfoldable pub after_http : Option Bytes × FlowState → Outcome × FlowState
after_http (some text, st) = (outcome (ready text), st)
after_http (none, st) = give_up_check st

-- The branch for HTTPS.
unfoldable pub after_tls : SniResult × FlowState → Outcome × FlowState
after_tls (SniResult.found text, st) = (outcome (ready text), st)
after_tls (SniResult.not_present, st) =
    (record { status = no_sni; out_no_sni = true }, record st { no_sni_cached = true })
after_tls (SniResult.pending, st) = give_up_check st

unfoldable pub extract : TrafficType → FlowState → Outcome × FlowState
extract http st = after_http (try_extract_http st)
extract non_dpi st = after_tls (try_extract_tls_sni st)
extract https st = after_tls (try_extract_tls_sni st)

-- What `parser_flow_update` does with the flow's state once it is found.
unfoldable pub inspect : FlowState → L2L4Result → Outcome × FlowState
inspect st l2l4 =
    if st.verdict_cached
    then (record { status = cached st.cached_action; out_no_sni = st.no_sni_cached }, st)
    else extract l2l4.type (place st l2l4.seq l2l4.payload l2l4.payload_len)

module _ (fh : FlowHash) where
  open fh use {Hash, lookup, add_key, del_key, iterate, slots}

  -- `struct flow_table`.
  pub record FlowTable : Type 0 where
    pub h : Hash
    pub states : ℕ → FlowState
    pub timeout_cycles : ℕ
    pub call_count : ℕ

  -- The test of one entry of the sweep.
  unfoldable pub expire_entry : FlowTable → ℕ → ℕ → FlowKey → FlowTable
  expire_entry ft now idx key =
      if ltb ft.timeout_cycles (sub64 now (ft.states idx).last_seen_tsc)
      then record ft { h = del_key ft.h key }
      else ft

  -- The body of the sweep on what the iterator returns; `continue_at` makes the next round.
  unfoldable pub on_entry :
      (ℕ → FlowTable → FlowTable) → FlowTable → ℕ → Option (ℕ × FlowKey × ℕ) → FlowTable
  on_entry continue_at ft now none = ft
  on_entry continue_at ft now (some (idx, key, next)) =
      continue_at next (expire_entry ft now idx key)

  -- The sweep from a cursor on, with a bound on its rounds.
  unfoldable pub expire_loop : ℕ → ℕ → ℕ → FlowTable → FlowTable
  expire_loop zero now next ft = ft
  expire_loop (suc n) now next ft = on_entry (expire_loop n now) ft now (iterate ft.h next)

  unfoldable pub expire : FlowTable → ℕ → FlowTable
  expire ft now = expire_loop (suc slots) now 0 ft

  -- The flow's state is inspected in place, after its time stamp.
  unfoldable pub inspect_at : FlowTable → L2L4Result → ℕ → ℕ → Outcome × FlowTable
  inspect_at ft l2l4 now idx =
      let (out, st) = inspect (record (ft.states idx) { last_seen_tsc = now }) l2l4 in
      (out, record ft { states = update ft.states idx st })

  -- A new flow: its state is cleared, if the table has room.
  unfoldable pub with_added : FlowTable → L2L4Result → ℕ → Hash × Option ℕ → Outcome × FlowTable
  with_added ft l2l4 now (h, none) = (outcome give_up, record ft { h = h })
  with_added ft l2l4 now (h, some idx) =
      inspect_at (record ft { h = h; states = update ft.states idx (new_state l2l4.type) }) l2l4 now
        idx

  unfoldable pub with_lookup : FlowTable → L2L4Result → ℕ → Option ℕ → Outcome × FlowTable
  with_lookup ft l2l4 now none = with_added ft l2l4 now (add_key ft.h l2l4.key)
  with_lookup ft l2l4 now (some idx) = inspect_at ft l2l4 now idx

  -- The call counter, and the sweep on every 256th call.
  unfoldable pub tick : FlowTable → ℕ → FlowTable
  tick ft expire_now =
      let ft' = record ft { call_count = add64 ft.call_count 1 } in
      if ft'.call_count % flow_expiry_scan_interval == 0 then expire ft' expire_now else ft'

  -- `expire_now` and `now` are the clock as the sweep and as the call itself reads it.
  unfoldable pub flow_update : FlowTable → L2L4Result → ℕ → ℕ → Outcome × FlowTable
  flow_update ft l2l4 expire_now now =
      let ft' = tick ft expire_now in with_lookup ft' l2l4 now (lookup ft'.h l2l4.key)

  unfoldable pub cache_at : FlowTable → Action → Option ℕ → FlowTable
  cache_at ft action none = ft
  cache_at ft action (some idx) = record ft {
    states =
        update ft.states idx (record (ft.states idx) {
          verdict_cached = true;
          cached_action = action;
          contig_len = 0;
        });
  }

  unfoldable pub cache_verdict : FlowTable → FlowKey → Action → FlowTable
  cache_verdict ft key action = cache_at ft action (lookup ft.h key)
