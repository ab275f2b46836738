-- ===== src/Tests/Packet.antt =====
-- Frames.
use hyper_dpi.Prelude.{
  ℕ, ◌≡◌, ◌<◌, ◌↔◌, refl, inl, some, Bytes, [], ◌∷◌, ◌++◌, get_or, Memory, arith, ltb,
  if◌then◌else◌, codes, length,
}
use hyper_dpi.Packet.{Mbuf, L2L4Result, extract_headers, parse_l2_l4}
use hyper_dpi.Packet.Classify.{IsInspectable, result_of, parse_l2_l4_iff, parse_l2_l4_padding}
use hyper_dpi.Packet.Bounds.{extract_headers-AgreeBelow}

-- An Ethernet and an IPv4 header with this total length and protocol, and a TCP header from this
-- port to port 80.
abbrev pub headers : ℕ → ℕ → ℕ → Bytes
headers total proto port =
    0 ∷ 0 ∷ 0 ∷ 0 ∷ 0 ∷ 1 ∷ 0 ∷ 0 ∷ 0 ∷ 0 ∷ 0 ∷ 2 ∷ 8 ∷ 0 ∷ 0x45 ∷ 0 ∷ 0 ∷ total ∷ 0 ∷ 0 ∷ 0 ∷ 0
    ∷ 64 ∷ proto ∷ 0 ∷ 0 ∷ 0 ∷ 0 ∷ 0 ∷ 0 ∷ 0 ∷ 0 ∷ 0 ∷ 0 ∷ 0 ∷ port ∷ 0 ∷ 80 ∷ 0 ∷ 0 ∷ 0 ∷ 100 ∷ 0
    ∷ 0 ∷ 0 ∷ 0 ∷ 0x50 ∷ 24 ∷ 1 ∷ 0 ∷ 0 ∷ 0 ∷ 0 ∷ 0 ∷ []

abbrev pub frame : Bytes → Mbuf
frame bytes = record {
  pkt_len = length bytes;
  data_len = length bytes;
  base = λ i. get_or bytes i 0;
}

abbrev pub get_frame : Mbuf
get_frame = frame (headers 43 6 7 ++ codes "GET")

abbrev padded_frame : Mbuf
padded_frame = frame (headers 40 6 7 ++ 0 ∷ 0 ∷ 0 ∷ 0 ∷ 0 ∷ 0 ∷ [])

get_frame-IsInspectable : IsInspectable get_frame
get_frame-IsInspectable = record {
  ipv4 = refl;
  ip_header = omega arith;
  tcp = refl;
  tcp_header = omega arith;
  fits = omega arith;
  port = inl refl;
}

padded_frame-IsInspectable : IsInspectable padded_frame
padded_frame-IsInspectable = record {
  ipv4 = refl;
  ip_header = omega arith;
  tcp = refl;
  tcp_header = omega arith;
  fits = omega arith;
  port = inl refl;
}

parse_l2_l4_iff_example :
    (parse_l2_l4 get_frame ≡ some (result_of get_frame))
    ↔ (IsInspectable get_frame × (result_of get_frame ≡ result_of get_frame))
parse_l2_l4_iff_example = parse_l2_l4_iff get_frame (result_of get_frame) (omega arith)

pub parse_get_frame : parse_l2_l4 get_frame ≡ some (result_of get_frame)
parse_get_frame =
    (parse_l2_l4_iff get_frame (result_of get_frame) (omega arith)).1
      (get_frame-IsInspectable, refl)

parse_l2_l4_padding_example :
    (r : L2L4Result) × (parse_l2_l4 padded_frame ≡ some r) × (0 < r.payload_len)
parse_l2_l4_padding_example =
    parse_l2_l4_padding padded_frame (omega arith) padded_frame-IsInspectable refl (omega arith)

-- A frame in a buffer whose memory behind the frame was used before.
abbrev reused : Memory
reused i = if ltb i 57 then get_or (headers 43 6 7 ++ codes "GET") i 0 else 9

extract_headers-AgreeBelow_example :
    extract_headers get_frame 0
    ≡ extract_headers (record { pkt_len = 57; data_len = 57; base = reused }) 0
extract_headers-AgreeBelow_example = extract_headers-AgreeBelow 57 57 0 (λ i h. ground arith)
