-- ===== src/Table/Delivered.antt =====
-- What a flow's inspection reports, packet after packet, when the segments of a stream arrive.
pub mod Keeps
pub mod Requests
pub mod Hellos
use hyper_dpi.Prelude.{List, [], ◌∷◌}
use hyper_dpi.Traffic.{TrafficType}
use hyper_dpi.Packet.{FlowKey, L2L4Result}
use hyper_dpi.Flow.{FlowState}
use hyper_dpi.Flow.Stream.{Segment}
use hyper_dpi.Table.{inspect}

-- A segment as the parser returns it.
abbrev pub packet_of : TrafficType → FlowKey → Segment → L2L4Result
packet_of type key s = record {
  type = type;
  key = key;
  payload = s.payload;
  payload_len = s.len;
  seq = s.seq;
}

-- The flow's state after these packets.
abbrev pub inspect_all : TrafficType → FlowKey → FlowState → List Segment → FlowState
inspect_all type key st [] = st
inspect_all type key st (s ∷ ss) = inspect_all type key (inspect st (packet_of type key s)).1 ss
