-- ===== src/Flow/Place.antt =====
-- src/parser.c, lines 557 to 624: where the bytes of a segment go.
use hyper_dpi.Prelude.{
  ℕ, zero, suc, ◌+◌, ◌-◌, ◌^◌, Bool, true, false, not, ◌&&◌, ltb, leb, if◌then◌else◌, u16, u32,
  sub32, Bytes, get_or, update, memmove, memset,
}
use hyper_dpi.Flow.{FlowState, window}

-- The first data segment anchors the stream.
unfoldable pub anchor : FlowState → ℕ → FlowState
anchor st seq = if st.first_seq_set then st else record st { first_seq = seq; first_seq_set = true }

-- `(int32_t)(seq - first_seq)` as its bit pattern; it is negative from 2^31 on.
abbrev pub offset_of : FlowState → ℕ → ℕ
offset_of st seq = sub32 seq st.first_seq

abbrev pub is_negative : ℕ → Bool
is_negative diff = leb (2 ^ 31) diff

-- `(uint32_t)(-diff)`.
abbrev pub negated : ℕ → ℕ
negated diff = sub32 0 diff

-- The test that the buffer has room for what it holds, `shift` further on.
abbrev pub shift_fits : FlowState → ℕ → Bool
shift_fits st shift = leb shift window && leb (u32 (st.hwm + shift)) window

-- The buffer moves right, and its front is free for an earlier segment.
unfoldable pub shift_right : FlowState → ℕ → ℕ → FlowState
shift_right st seq shift = record st {
  buf = memmove st.buf shift st.hwm;
  filled = memset (memmove st.filled shift st.hwm) false shift;
  hwm = u16 (st.hwm + u16 shift);
  first_seq = seq;
  contig_len = 0;
}

-- The writing loop, from offset `off` on for the rounds that are left: first wins.
unfoldable pub write_loop : ℕ → ℕ → ℕ → Bytes → FlowState → FlowState
write_loop zero off rel payload st = st
write_loop (suc n) off rel payload st = write_loop n (off + 1) rel payload (
    if not (st.filled off)
    then record st {
      buf = update st.buf off (get_or payload (off - rel) 0);
      filled = update st.filled off true;
    }
    else st)

-- `while (contig_len < hwm && filled[contig_len]) contig_len++`, with a bound on its rounds.
unfoldable pub advance : ℕ → (ℕ → Bool) → ℕ → ℕ → ℕ
advance zero filled hwm contig = contig
advance (suc n) filled hwm contig =
    let next = advance n filled hwm (contig + 1) in
    if ltb contig hwm && filled contig then next else contig

-- `write_end`, clipped to the window.
abbrev pub write_end_of : ℕ → ℕ → ℕ
write_end_of rel len = if ltb window (u32 (rel + len)) then window else u32 (rel + len)

-- The update of the high-water mark and of the gap-free prefix.
unfoldable pub settle : FlowState → ℕ → FlowState
settle st write_end =
    let hwm = if ltb st.hwm write_end then u16 write_end else st.hwm in
    record st { hwm = hwm; contig_len = advance hwm st.filled hwm st.contig_len }

-- The branch for a segment that starts at or behind the anchor.
unfoldable pub write_segment : FlowState → ℕ → Bytes → ℕ → FlowState
write_segment st rel payload len =
    let write_end = write_end_of rel len in
    if ltb rel window
    then settle (write_loop (write_end - rel) rel rel payload st) write_end
    else st

-- After the anchor: shift if the segment starts before it, and write.
unfoldable pub place_at : FlowState → ℕ → Bytes → ℕ → FlowState
place_at st seq payload len =
    let diff = offset_of st seq in
    if is_negative diff
    then if shift_fits st (negated diff)
      then write_segment (shift_right st seq (negated diff)) 0 payload len
      else st
    else write_segment st diff payload len

-- A packet with no payload leaves the reassembly state as it is.
unfoldable pub place : FlowState → ℕ → Bytes → ℕ → FlowState
place st seq payload len = if ltb 0 len then place_at (anchor st seq) seq payload len else st
