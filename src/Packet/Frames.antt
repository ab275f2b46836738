-- ===== src/Packet/Frames.antt =====
-- Frames as a port delivers them, and the segments that the parser makes of them.
use hyper_dpi.Prelude.{◌+◌, ◌<◌, ◌^◌, ◌≡◌, sym, subst, List, [], ◌∷◌, ◌++◌, some, arith}
use hyper_dpi.Prelude.Subsequence.{Sub, empty, keep, skip}
use hyper_dpi.Packet.{Mbuf, L2L4Result, parse_l2_l4}
use hyper_dpi.Packet.Classify.{IsBytes, tcp_off, parse_l2_l4_iff}

-- A segment's sequence number and length fit their fields.
abbrev pub IsSegment : L2L4Result → Type 0
IsSegment l2l4 = (l2l4.seq < 2 ^ 32) × (l2l4.payload_len < 2 ^ 16)

-- The first segment of an mbuf: bytes, and a 16-bit length.
abbrev pub IsFrame : Mbuf → Type 0
IsFrame pkt = IsBytes pkt.base × (pkt.data_len < 2 ^ 16)

abbrev pub AllFrames : List Mbuf → Type 0
AllFrames [] = Unit {0}
AllFrames (pkt ∷ pkts) = IsFrame pkt × AllFrames pkts

pub parse_l2_l4-IsSegment :
    (pkt : Mbuf) (r : L2L4Result) → IsFrame pkt → parse_l2_l4 pkt ≡ some r → IsSegment r
parse_l2_l4-IsSegment pkt r (bytes, small) e =
    let (v, same) = (parse_l2_l4_iff pkt r (bytes (tcp_off pkt.base + 12))).0 e in
    let at = tcp_off pkt.base + 4 in
    subst IsSegment (sym same)
      (omega (arith, bytes at, bytes (at + 1), bytes (at + 2), bytes (at + 2 + 1)), omega arith)

pub AllFrames-append : (xs ys : List Mbuf) → AllFrames xs → AllFrames ys → AllFrames (xs ++ ys)
AllFrames-append [] ys h k = k
AllFrames-append (x ∷ xs) ys (f, h) k = (f, AllFrames-append xs ys h k)

pub append-AllFrames : (xs ys : List Mbuf) → AllFrames (xs ++ ys) → AllFrames xs × AllFrames ys
append-AllFrames [] ys h = (tt, h)
append-AllFrames (x ∷ xs) ys (f, h) = let (a, b) = append-AllFrames xs ys h in ((f, a), b)

pub AllFrames-Sub : {xs ys : List Mbuf} → Sub xs ys → AllFrames ys → AllFrames xs
AllFrames-Sub empty h = tt
AllFrames-Sub (keep s) (f, h) = (f, AllFrames-Sub s h)
AllFrames-Sub (skip s) (f, h) = AllFrames-Sub s h
