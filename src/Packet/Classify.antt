-- ===== src/Packet/Classify.antt =====
-- What `parser_parse_l2_l4` accepts, against a description of the frame that follows the layout
-- of Ethernet, IPv4 and TCP, and what it never looks at.
use hyper_dpi.Prelude.{
  ℕ, ◌+◌, ◌-◌, ◌*◌, ◌/◌, ◌%◌, ◌≤◌, ◌<◌, ◌≡◌, refl, sym, ap, ◌∙◌, ◌↔◌, ◌⊎◌, none, some, some_inj,
  ◌==◌, if◌then◌else◌, slice, Memory, be16, be32, le32, arith,
}
use hyper_dpi.Traffic.{http, https}
use hyper_dpi.Packet.{
  Mbuf, FlowKey, L2L4Result, ipv4_fields, layer4, finish, extract_headers, parse_l2_l4,
  flow_rss_hash,
}

-- Bytes of the header length fields.
abbrev pub ip_len : Memory → ℕ
ip_len base = base 14 % 16 * 4

abbrev pub tcp_off : Memory → ℕ
tcp_off base = 14 + ip_len base

abbrev pub tcp_len : Memory → ℕ
tcp_len base = base (tcp_off base + 12) / 16 * 4

abbrev pub dst_port_of : Memory → ℕ
dst_port_of base = be16 base (tcp_off base + 2)

-- A memory of bytes.
abbrev pub IsBytes : Memory → Type 0
IsBytes m = (i : ℕ) → m i < 256

-- An IPv4 frame that carries TCP to port 80 or 443, with both headers whole.
pub record IsInspectable (pkt : Mbuf) : Type 0 where
  pub ipv4 : be16 pkt.base 12 ≡ 0x0800
  pub ip_header : 20 ≤ ip_len pkt.base
  pub tcp : pkt.base 23 ≡ 6
  pub tcp_header : 20 ≤ tcp_len pkt.base
  pub fits : tcp_off pkt.base + tcp_len pkt.base ≤ pkt.data_len
  pub port : (dst_port_of pkt.base ≡ 80) ⊎ (dst_port_of pkt.base ≡ 443)

-- The fields of such a frame.
abbrev pub result_of : Mbuf → L2L4Result
result_of pkt =
    let m = pkt.base in
    let off = tcp_off m + tcp_len m in
    record {
      type = if dst_port_of m == 80 then http else https;
      key = record {
        src_ip = le32 m 26;
        dst_ip = le32 m 30;
        src_port = be16 m (tcp_off m);
        dst_port = dst_port_of m;
        proto = 6;
      };
      payload = slice m off (pkt.data_len - off);
      payload_len = pkt.data_len - off;
      seq = be32 m (tcp_off m + 4);
    }

inspectable-parse_l2_l4 :
    (pkt : Mbuf)
    → pkt.base (tcp_off pkt.base + 12) < 256
    → IsInspectable pkt
    → parse_l2_l4 pkt ≡ some (result_of pkt)
unfolding parse_l2_l4 extract_headers ipv4_fields layer4 finish
inspectable-parse_l2_l4 pkt b v = ground arith

parse_l2_l4-IsInspectable :
    (pkt : Mbuf) {r : L2L4Result}
    → pkt.base (tcp_off pkt.base + 12) < 256
    → parse_l2_l4 pkt ≡ some r
    → IsInspectable pkt
unfolding parse_l2_l4 extract_headers ipv4_fields layer4 finish
parse_l2_l4-IsInspectable pkt b e = ground arith

-- The parse accepts a frame exactly when it is an IPv4 frame whose TCP header and IPv4 header lie
-- whole in the first segment, addressed to port 80 or 443, and then returns the frame's fields:
-- the traffic type by the port, the key, the sequence number, and as payload all bytes behind the
-- TCP header. The byte that holds the TCP data offset is a byte.
pub parse_l2_l4_iff :
    (pkt : Mbuf) (r : L2L4Result)
    → pkt.base (tcp_off pkt.base + 12) < 256
    → (parse_l2_l4 pkt ≡ some r) ↔ (IsInspectable pkt × (r ≡ result_of pkt))
parse_l2_l4_iff pkt r b = (accepted, λ h. complete h.0 ∙ ap some (sym h.1))
  where
    complete : IsInspectable pkt → parse_l2_l4 pkt ≡ some (result_of pkt)
    complete v = inspectable-parse_l2_l4 pkt b v

    accepted : parse_l2_l4 pkt ≡ some r → IsInspectable pkt × (r ≡ result_of pkt)
    accepted e = let v = parse_l2_l4-IsInspectable pkt b e in (v, some_inj (sym e ∙ complete v))

-- The RX thread steers by the key that the worker will parse: a packet that the worker accepts
-- hashes to the hash of its key, and any other packet hashes to 0.
pub flow_rss_hash-parse_l2_l4 :
    (jhash : FlowKey → ℕ) (pkt : Mbuf)
    → ((r : L2L4Result) → parse_l2_l4 pkt ≡ some r → flow_rss_hash jhash pkt ≡ jhash r.key)
      × (parse_l2_l4 pkt ≡ none → flow_rss_hash jhash pkt ≡ 0)
unfolding flow_rss_hash parse_l2_l4
flow_rss_hash-parse_l2_l4 jhash pkt =
    (λ r e. rw (e, flow_rss_hash) refl, λ e. rw (e, flow_rss_hash) refl)

-- Bytes behind the datagram's end, such as the padding of a short Ethernet frame, count as
-- payload: a segment that is empty by the length in its IPv4 header, in a longer frame, is
-- accepted with a payload that is not empty.
pub parse_l2_l4_padding :
    (pkt : Mbuf)
    → pkt.base (tcp_off pkt.base + 12) < 256
    → IsInspectable pkt
    → be16 pkt.base 16 ≡ ip_len pkt.base + tcp_len pkt.base
    → 14 + be16 pkt.base 16 < pkt.data_len
    → (r : L2L4Result) × (parse_l2_l4 pkt ≡ some r) × (0 < r.payload_len)
parse_l2_l4_padding pkt b v total longer =
    (result_of pkt, inspectable-parse_l2_l4 pkt b v, omega arith)
