-- ===== src/Flow.antt =====
-- src/parser.c, `struct flow_state` and the placement of a TCP segment in its reassembly buffer,
-- the middle part of `parser_flow_update`.
pub mod Place
pub mod Write
pub mod Invariant
pub mod View
pub mod Stream
use hyper_dpi.Prelude.{ℕ, Bool, false, [], Bytes, Memory}
use hyper_dpi.Traffic.{TrafficType, Action, forward}

abbrev pub buf_cap : ℕ
buf_cap = 4096

abbrev pub scan_buf_cap : ℕ
scan_buf_cap = 512

-- The last index of the buffer, which is kept for a NUL: the size of the reassembly window.
abbrev pub window : ℕ
window = 4095

-- `struct flow_state`. `filled` holds the flags 0 and 1 as truth values; `scan_buf` is the C string
-- in it.
pub record FlowState : Type 0 where
  pub buf : Memory
  pub filled : ℕ → Bool
  pub contig_len : ℕ
  pub hwm : ℕ
  pub first_seq : ℕ
  pub first_seq_set : Bool
  pub scan_buf : Bytes
  pub type : TrafficType
  pub last_seen_tsc : ℕ
  pub verdict_cached : Bool
  pub cached_action : Action
  pub no_sni_cached : Bool

-- `memset(st, 0, sizeof(*st)); st->type = type`.
abbrev pub new_state : TrafficType → FlowState
new_state type = record {
  buf = λ _. 0;
  filled = λ _. false;
  contig_len = 0;
  hwm = 0;
  first_seq = 0;
  first_seq_set = false;
  scan_buf = [];
  type = type;
  last_seen_tsc = 0;
  verdict_cached = false;
  cached_action = forward;
  no_sni_cached = false;
}
