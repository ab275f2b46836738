-- ===== src/Flow/Stream/Octets.antt =====
-- The reassembly buffer holds bytes when the segments do.
use hyper_dpi.Prelude.{
  ℕ, ◌+◌, ◌-◌, ◌^◌, ◌<◌, ◌≡◌, ltb, arith, Bytes, Memory, get_or, sub32, Bool-cases, inl, inr,
}
use hyper_dpi.Packet.Classify.{IsBytes}
use hyper_dpi.Flow.{FlowState}
use hyper_dpi.Flow.Write.{write_loop-buf}
use hyper_dpi.Flow.Place.{
  anchor, offset_of, is_negative, negated, shift_fits, shift_right, settle, write_end_of,
  write_segment, place_at, place,
}
use hyper_dpi.Flow.Stream.{Segment, IsPiece}

module _ (payload : Bytes) (len : ℕ) (small : len < 2 ^ 16)
    (octets : (j : ℕ) → j < len → get_or payload j 0 < 256) where
  write_segment-IsBytes :
      (st : FlowState) (rel : ℕ)
      → rel < 2 ^ 31
      → IsBytes st.buf
      → IsBytes (write_segment st rel payload len).buf
  unfolding write_segment settle
  write_segment-IsBytes st rel r h i =
      let e = write_end_of rel len in
      ground (arith, write_loop-buf rel payload (e - rel) rel st i, h i, octets (i - rel))

  shift_right-IsBytes :
      (st : FlowState) (seq shift : ℕ) → IsBytes st.buf → IsBytes (shift_right st seq shift).buf
  unfolding shift_right
  shift_right-IsBytes st seq shift h i = ground (arith, h i, h (i - shift))

  place_at-IsBytes :
      (st : FlowState) (seq : ℕ) → IsBytes st.buf → IsBytes (place_at st seq payload len).buf
  unfolding place_at
  place_at-IsBytes st seq h =
      let diff = offset_of st seq in
      elim (Bool-cases (is_negative diff)) [
        | inr ahead ↦ rw ahead (write_segment-IsBytes st diff (ground arith) h)
        | inl behind ↦ elim (Bool-cases (shift_fits st (negated diff))) [
          | inr no_room ↦ rw (behind, no_room) h
          | inl room ↦
              rw (behind, room)
                (write_segment-IsBytes (shift_right st seq (negated diff)) 0 (omega arith)
                  (shift_right-IsBytes st seq (negated diff) h))
        ]
      ]

  anchor-buf : (st : FlowState) (seq : ℕ) → (anchor st seq).buf ≡ st.buf
  unfolding anchor
  anchor-buf st seq = ground arith

  place-IsBytes :
      (st : FlowState) (seq : ℕ) → IsBytes st.buf → IsBytes (place st seq payload len).buf
  unfolding place
  place-IsBytes st seq h = elim (Bool-cases (ltb 0 len)) [
    | inr empty ↦ rw empty h
    | inl carries ↦ rw carries (place_at-IsBytes (anchor st seq) seq (rw (anchor-buf st seq) h))
  ]

pub piece-IsBytes :
    (start n : ℕ) (stream : Memory) (st : FlowState) (s : Segment)
    → IsBytes stream
    → IsPiece start n stream s
    → IsBytes st.buf
    → IsBytes (place st s.seq s.payload s.len).buf
piece-IsBytes start n stream st s b p h =
    place-IsBytes s.payload s.len p.len_word (λ j l. rw (p.carries j l) (b (sub32 s.seq start + j)))
      st s.seq h
