-- ===== src/Flow/Stream/Step.antt =====
-- One segment of a stream after another: what the buffer holds, and where it ends.
use hyper_dpi.Prelude.{
  ℕ, ◌+◌, ◌-◌, ◌^◌, ◌≤◌, ◌<◌, ◌≡◌, Bool, true, ◌||◌, ltb, arith, some, List, [], ◌∷◌, Bytes, sub32,
  Bool-cases, inl, inr, ◌∙◌, ap,
}
use hyper_dpi.Flow.{FlowState, window}
use hyper_dpi.Flow.Invariant.{IsValid, anchor-IsValid, place-IsValid}
use hyper_dpi.Flow.Write.{write_loop-frame}
use hyper_dpi.Flow.Place.{
  anchor, offset_of, is_negative, negated, shift_fits, shift_right, settle, write_end_of,
  write_segment, place_at, place,
}
use hyper_dpi.Flow.View.{byte_of, reaches, view-place}
use hyper_dpi.Flow.Stream.{Segment, place_all, seq_of, covers, covered, IsPiece, ArePieces, Holds}

-- Where the buffer ends after a segment at or behind its start.
write_segment-within :
    (start n : ℕ) (st : FlowState) (rel : ℕ) (payload : Bytes) (len : ℕ)
    → start < 2 ^ 32
    → n ≤ window
    → len < 2 ^ 16
    → sub32 st.first_seq start + st.hwm ≤ n
    → sub32 st.first_seq start + rel + len ≤ n
    → let st' = write_segment st rel payload len in sub32 st'.first_seq start + st'.hwm ≤ n
unfolding write_segment settle
write_segment-within start n st rel payload len s w l h k =
    let e = write_end_of rel len in ground (arith, write_loop-frame rel payload (e - rel) rel st)

place_at-within :
    (start n : ℕ) (st : FlowState) (seq : ℕ) (payload : Bytes) (len : ℕ)
    → start < 2 ^ 32
    → n ≤ window
    → seq < 2 ^ 32
    → len < 2 ^ 16
    → sub32 seq start + len ≤ n
    → st.first_seq < 2 ^ 32
    → sub32 st.first_seq start + st.hwm ≤ n
    → let st' = place_at st seq payload len in sub32 st'.first_seq start + st'.hwm ≤ n
unfolding place_at
place_at-within start n st seq payload len s w q l inside f h =
    let diff = offset_of st seq in
    elim (Bool-cases (is_negative diff)) [
      | inr ahead ↦
          rw ahead (write_segment-within start n st diff payload len s w l h (ground arith))
      | inl behind ↦ elim (Bool-cases (shift_fits st (negated diff))) [
        | inr no_room ↦ rw (behind, no_room) h
        | inl room ↦
            rw (behind, room)
              (write_segment-within start n (shift_right st seq (negated diff)) 0 payload len s w l
                (unfold shift_right in ground arith) (unfold shift_right in omega arith))
      ]
    ]

anchor-within :
    (start n : ℕ) (st : FlowState) (seq : ℕ)
    → sub32 seq start ≤ n
    → IsValid st
    → (st.first_seq_set ≡ true → sub32 st.first_seq start + st.hwm ≤ n)
    → sub32 (anchor st seq).first_seq start + (anchor st seq).hwm ≤ n
unfolding anchor
anchor-within start n st seq inside v h = ground (arith, v.unanchored)

place-within :
    (start n : ℕ) (st : FlowState) (seq : ℕ) (payload : Bytes) (len : ℕ)
    → start < 2 ^ 32
    → n ≤ window
    → seq < 2 ^ 32
    → len < 2 ^ 16
    → sub32 seq start + len ≤ n
    → IsValid st
    → (st.first_seq_set ≡ true → sub32 st.first_seq start + st.hwm ≤ n)
    → let st' = place st seq payload len in
      st'.first_seq_set ≡ true → sub32 st'.first_seq start + st'.hwm ≤ n
unfolding place
place-within start n st seq payload len s w q l inside v h = elim (Bool-cases (ltb 0 len)) [
  | inr empty ↦ rw empty h
  | inl carries ↦ rw carries (λ _.
      place_at-within start n (anchor st seq) seq payload len s w q l inside
        (anchor-IsValid st seq q v).first_seq_word (anchor-within start n st seq (omega arith) v h))
]

-- A piece of the stream is placed wherever it starts.
Holds-reaches :
    (start n : ℕ) (stream : ℕ → ℕ) (arrived : ℕ → Bool) (st : FlowState) (s : Segment) (i : ℕ)
    → start < 2 ^ 32
    → n ≤ window
    → i < n
    → IsPiece start n stream s
    → Holds start n stream arrived st
    → covers start s i ≡ true
    → reaches st s.seq (seq_of start i) ≡ true
unfolding anchor
Holds-reaches start n stream arrived st s i w k l p h c =
    ground (
      arith, p.seq_word, p.len_word, p.inside, h.within, h.valid.first_seq_word, h.valid.unanchored,
    )

byte_of-piece :
    (start n : ℕ) (stream : ℕ → ℕ) (s : Segment) (i : ℕ)
    → start < 2 ^ 32
    → n ≤ window
    → i < n
    → IsPiece start n stream s
    → covers start s i ≡ true
    → byte_of s.seq s.payload s.len (seq_of start i) ≡ some (stream i)
byte_of-piece start n stream s i w k l p c =
    let j = sub32 (seq_of start i) s.seq in
    let at : sub32 s.seq start + j ≡ i = ground (arith, p.seq_word, p.inside) in
    rw c (ap some (p.carries j (ground arith) ∙ ap stream at))

-- A segment adds the bytes that it carries.
pub place-Holds :
    (start n : ℕ) (stream : ℕ → ℕ) (arrived : ℕ → Bool) (st : FlowState) (s : Segment)
    → start < 2 ^ 32
    → n ≤ window
    → IsPiece start n stream s
    → Holds start n stream arrived st
    → Holds start n stream (λ i. arrived i || covers start s i) (place st s.seq s.payload s.len)
place-Holds start n stream arrived st s w k p h = record {
  valid = place-IsValid st s.seq s.payload s.len p.seq_word p.len_word h.valid;
  within =
      place-within start n st s.seq s.payload s.len w k p.seq_word p.len_word p.inside h.valid
        h.within;
  bytes = λ i l.
      view-place st s.seq s.payload s.len (seq_of start i) h.valid p.seq_word (omega arith)
        p.len_word
      ∙ elim (Bool-cases (covers start s i)) [
        | inl c ↦
            rw
              (
                h.bytes i l,
                Holds-reaches start n stream arrived st s i w k l p h c,
                byte_of-piece start n stream s i w k l p c,
              )
              (ground arith)
        | inr c ↦ rw (h.bytes i l, c) (ground arith)
      ];
}

pub place_all-Holds :
    (start n : ℕ) (stream : ℕ → ℕ) (arrived : ℕ → Bool) (st : FlowState) (ss : List Segment)
    → start < 2 ^ 32
    → n ≤ window
    → ArePieces start n stream ss
    → Holds start n stream arrived st
    → Holds start n stream (λ i. arrived i || covered start ss i) (place_all st ss)
place_all-Holds start n stream arrived st [] w k ps h = record {
  valid = h.valid;
  within = h.within;
  bytes = λ i l. h.bytes i l ∙ ground arith;
}
place_all-Holds start n stream arrived st (s ∷ ss) w k (p, ps) h =
    let ih =
      place_all-Holds start n stream (λ i. arrived i || covers start s i)
        (place st s.seq s.payload s.len) ss w k ps
        (place-Holds start n stream arrived st s w k p h) in
    record { valid = ih.valid; within = ih.within; bytes = λ i l. ih.bytes i l ∙ ground arith }
