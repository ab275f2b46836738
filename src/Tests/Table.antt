-- ===== src/Tests/Table.antt =====
-- A table with two flows: the one from port 7 has the verdict DROP.
use hyper_dpi.Prelude.{
  ℕ, ◌≡◌, ◌≢◌, ◌==◌, refl, ap, ◌||◌, true, false, Bool-cases, inl, inr, some, codes, arith,
  if◌then◌else◌,
}
use hyper_dpi.Traffic.{http, drop}
use hyper_dpi.Packet.{FlowKey, L2L4Result}
use hyper_dpi.Flow.{FlowState, new_state}
use hyper_dpi.Flow.Invariant.{new_state-IsValid}
use hyper_dpi.Table.{FlowTable, expire, flow_update}
use hyper_dpi.Table.Inspect.{FlowOk}
use hyper_dpi.Table.Expire.{expire-IsLive}
use hyper_dpi.Table.Verdict.{SameFlow, HasVerdict, flow_update_other}
use hyper_dpi.Tests.Hash.{key_of, server_hash}

abbrev dropped : FlowState
dropped = record (new_state http) {
  verdict_cached = true;
  cached_action = drop;
  last_seen_tsc = 950;
}

-- The next call is the 256th.
abbrev pub two_flows : FlowTable server_hash
two_flows = record {
  h = λ i. i == 7 || i == 8;
  states = λ i. if i == 7 then dropped else new_state http;
  timeout_cycles = 100;
  call_count = 255;
}

abbrev pub segment : FlowKey → L2L4Result
segment key = record { type = http; key = key; payload = codes "GET"; payload_len = 3; seq = 100 }

abbrev unknown_key : FlowKey
unknown_key = record { src_ip = 1; dst_ip = 1; src_port = 9; dst_port = 443; proto = 6 }

seven_ne_eight : key_of 7 ≢ key_of 8
seven_ne_eight e = let p : ◌≡◌ {A = ℕ} 7 8 = ap (λ (k : FlowKey). k.src_port) e in omega arith

pub two_flows-HasVerdict : HasVerdict server_hash two_flows (key_of 7) 7 drop false
two_flows-HasVerdict = record { at = refl; done = refl; verdict = refl; mark = refl }

state-FlowOk : (i : ℕ) → FlowOk (two_flows.states i)
state-FlowOk i = elim (Bool-cases (i == 7)) [
  | inl seven ↦ rw seven (λ e. cc)
  | inr other ↦ rw other (λ e. new_state-IsValid http)
]

expire-IsLive_example : server_hash.lookup (expire server_hash two_flows 1000).h (key_of 7) ≡ some 7
expire-IsLive_example = (expire-IsLive server_hash two_flows 1000 (key_of 7) 7).0 refl (omega arith)

flow_update_other_example :
    SameFlow server_hash
      (key_of 7)
      7
      two_flows
      (flow_update server_hash two_flows (segment (key_of 8)) 1000 1000).1
flow_update_other_example =
    (flow_update_other server_hash two_flows (key_of 7) 7 refl).0 (segment (key_of 8)) 1000 1000
      seven_ne_eight (omega arith)
