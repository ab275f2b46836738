-- ===== src/Packet.antt =====
-- src/parser.c, `extract_headers`, and the two functions on top of it: the L2 to L4 parse of a
-- packet that the worker makes (`parser_parse_l2_l4`) and the flow hash of the RX thread
-- (`parser_flow_rss_hash`).
pub mod Classify
pub mod Bounds
pub mod Frames
use hyper_dpi.Prelude.{
  ℕ, ◌+◌, ◌-◌, ◌*◌, ◌/◌, ◌%◌, Bool, true, false, not, ◌||◌, Option, none, some, ◌==◌, ltb, leb,
  if◌then◌else◌, ◌>>=◌, ◌>>◌, require, Bytes, slice, Memory, be16, be32, le32, u8, u16,
}
use hyper_dpi.Traffic.{TrafficType, http, https, http_port, https_port}

-- `struct flow_key`.
pub record FlowKey : Type 0 where
  pub src_ip : ℕ
  pub dst_ip : ℕ
  pub src_port : ℕ
  pub dst_port : ℕ
  pub proto : ℕ

-- The fields of `struct rte_mbuf` that the program reads: `pkt_len`, and the first segment's
-- length and bytes.
pub record Mbuf : Type 0 where
  pub pkt_len : ℕ
  pub data_len : ℕ
  pub base : Memory

-- `struct l2l4_result`. The payload is the bytes that `payload` and `payload_len` delimit.
pub record L2L4Result : Type 0 where
  pub type : TrafficType
  pub key : FlowKey
  pub payload : Bytes
  pub payload_len : ℕ
  pub seq : ℕ

-- `sizeof` of the headers, and the numbers of the protocols.
abbrev pub ether_hdr_len : ℕ
ether_hdr_len = 14

abbrev pub ipv4_hdr_len : ℕ
ipv4_hdr_len = 20

abbrev pub tcp_hdr_len : ℕ
tcp_hdr_len = 20

abbrev pub udp_hdr_len : ℕ
udp_hdr_len = 8

abbrev pub ether_type_ipv4 : ℕ
ether_type_ipv4 = 0x0800

abbrev pub ipproto_tcp : ℕ
ipproto_tcp = 6

abbrev pub ipproto_udp : ℕ
ipproto_udp = 17

-- What the branch on the protocol leaves behind.
pub record Layer4 : Type 0 where
  pub src_port : ℕ
  pub dst_port : ℕ
  pub data_off : ℕ
  pub seq : ℕ

-- The TCP branch: `doff` is the header length in bytes.
tcp_fields : Memory → ℕ → ℕ → Option Layer4
tcp_fields base data_len l4_off =
    if ltb data_len (l4_off + tcp_hdr_len)
    then none
    else let doff = u8 (base (l4_off + 12) / 16 * 4) in
      if ltb doff tcp_hdr_len
      then none
      else some (record {
        src_port = be16 base l4_off;
        dst_port = be16 base (l4_off + 2);
        data_off = u16 (l4_off + doff);
        seq = be32 base (l4_off + 4);
      })

-- The UDP branch leaves `*seq` alone.
udp_fields : Memory → ℕ → ℕ → ℕ → Option Layer4
udp_fields base data_len l4_off seq =
    if ltb data_len (l4_off + udp_hdr_len)
    then none
    else some (record {
      src_port = be16 base l4_off;
      dst_port = be16 base (l4_off + 2);
      data_off = u16 (l4_off + udp_hdr_len);
      seq = seq;
    })

-- The test of the destination port.
port_type : ℕ → Option TrafficType
port_type dst_port =
    if dst_port == http_port then some http else if dst_port == https_port then some https else none

-- What the checks of the Ethernet and IPv4 headers leave behind.
pub record Layer3 : Type 0 where
  pub src_ip : ℕ
  pub dst_ip : ℕ
  pub proto : ℕ
  pub l4_off : ℕ

ipv4_fields : Memory → ℕ → Option Layer3
ipv4_fields base data_len = do
  require (not (ltb data_len ether_hdr_len))
  require (be16 base 12 == ether_type_ipv4)
  let l3_off = ether_hdr_len
  require (not (ltb data_len (l3_off + ipv4_hdr_len)))
  let ihl = u8 (base l3_off % 16 * 4)
  require (not (ltb ihl ipv4_hdr_len || ltb data_len (l3_off + ihl)))
  let proto = base (l3_off + 9)
  require (proto == ipproto_tcp || proto == ipproto_udp)
  some (record {
    src_ip = le32 base (l3_off + 12);
    dst_ip = le32 base (l3_off + 16);
    proto = proto;
    l4_off = u16 (l3_off + ihl);
  })

-- The branch on the protocol.
layer4 : Memory → ℕ → Layer3 → ℕ → Option Layer4
unfolding tcp_fields udp_fields
layer4 base data_len l3 seq =
    if l3.proto == ipproto_tcp
    then tcp_fields base data_len l3.l4_off
    else udp_fields base data_len l3.l4_off seq

-- The decision on what the headers hold.
finish : Memory → ℕ → Layer3 → Layer4 → Option L2L4Result
unfolding port_type
finish base data_len l3 l4 = do
  require (l3.proto == ipproto_tcp)
  type ← port_type l4.dst_port
  require (leb l4.data_off data_len)
  let key : FlowKey = record {
    src_ip = l3.src_ip;
    dst_ip = l3.dst_ip;
    src_port = l4.src_port;
    dst_port = l4.dst_port;
    proto = l3.proto;
  }
  some (record {
    type = type;
    key = key;
    payload = slice base l4.data_off (data_len - l4.data_off);
    payload_len = data_len - l4.data_off;
    seq = l4.seq;
  })

-- `none` is `return false`. What the source has written through its out parameters by then is
-- read by neither caller.
pub extract_headers : Mbuf → ℕ → Option L2L4Result
extract_headers pkt seq = do
  l3 ← ipv4_fields pkt.base pkt.data_len
  l4 ← layer4 pkt.base pkt.data_len l3 seq
  finish pkt.base pkt.data_len l3 l4

pub parse_l2_l4 : Mbuf → Option L2L4Result
parse_l2_l4 pkt = extract_headers pkt 0

-- `rte_jhash` of the key bytes is DPDK's: it is the argument `jhash`.
pub flow_rss_hash : (FlowKey → ℕ) → Mbuf → ℕ
flow_rss_hash jhash pkt = elim (extract_headers pkt 0) [ none ↦ 0 | some r ↦ jhash r.key ]
