-- ===== src/Flow/View.antt =====
-- The reassembly buffer as a map from TCP sequence numbers to bytes, and placement as its
-- first-wins extension: the map does not show where the buffer starts.
use hyper_dpi.Prelude.{
  ℕ, ◌-◌, ◌^◌, ◌<◌, ◌≡◌, refl, Bool, true, false, not, ◌&&◌, ◌||◌, ltb, arith, Option, none, some,
  Bytes, get_or, if◌then◌else◌, sub32, Bool-cases, inl, inr, ◌∙◌, ap, sym, ◌⊎◌,
}
use hyper_dpi.Flow.{FlowState, window}
use hyper_dpi.Flow.Invariant.{IsValid, anchor-IsValid, place-IsValid}
use hyper_dpi.Flow.Write.{write_loop-filled, write_loop-buf, write_loop-frame}
use hyper_dpi.Flow.Place.{
  anchor, offset_of, is_negative, negated, shift_fits, shift_right, settle, write_end_of,
  write_segment, place_at, place,
}

-- The byte that the buffer holds for sequence number `q`.
abbrev pub view : FlowState → ℕ → Option ℕ
view st q = let off = sub32 q st.first_seq in if st.filled off then some (st.buf off) else none

abbrev pub or_else : Option ℕ → Option ℕ → Option ℕ
or_else (some a) _ = some a
or_else none o = o

-- The byte that a segment carries for `q`.
abbrev pub byte_of : ℕ → Bytes → ℕ → ℕ → Option ℕ
byte_of seq payload len q =
    if ltb (sub32 q seq) len then some (get_or payload (sub32 q seq) 0) else none

-- Is the segment placed at all, and where does the buffer start when it is?
abbrev pub accepts : FlowState → ℕ → Bool
accepts st seq = not (is_negative (offset_of st seq)) || shift_fits st (negated (offset_of st seq))

abbrev pub start_after : FlowState → ℕ → ℕ
start_after st seq =
    if is_negative (offset_of st seq) && shift_fits st (negated (offset_of st seq))
    then seq
    else st.first_seq

-- A segment at `seq` may fill `q`: the segment is placed, and `q` then lies in the window.
abbrev pub reaches : FlowState → ℕ → ℕ → Bool
reaches st seq q =
    accepts (anchor st seq) seq && ltb (sub32 q (start_after (anchor st seq) seq)) window

view-shift_right :
    (st : FlowState) (seq q : ℕ)
    → seq < 2 ^ 32
    → q < 2 ^ 32
    → is_negative (offset_of st seq) ≡ true
    → shift_fits st (negated (offset_of st seq)) ≡ true
    → IsValid st
    → view (shift_right st seq (negated (offset_of st seq))) q ≡ view st q
unfolding shift_right
view-shift_right st seq q s h neg room v =
    ground
      (arith, v.hwm_le, v.first_seq_word, v.beyond (sub32 q seq), v.beyond (sub32 q st.first_seq))

view-write_segment :
    (st : FlowState) (seq rel : ℕ) (payload : Bytes) (len q : ℕ)
    → st.first_seq < 2 ^ 32
    → seq < 2 ^ 32
    → q < 2 ^ 32
    → len < 2 ^ 16
    → rel ≡ offset_of st seq
    → is_negative rel ≡ false
    → view (write_segment st rel payload len) q
      ≡ or_else
          (view st q)
          (if ltb (sub32 q st.first_seq) window then byte_of seq payload len q else none)
unfolding write_segment settle
view-write_segment st seq rel payload len q f s h small at pos =
    let e = write_end_of rel len in
    ground (
      arith,
      write_loop-frame rel payload (e - rel) rel st,
      write_loop-filled rel payload (e - rel) rel st (sub32 q st.first_seq),
      write_loop-buf rel payload (e - rel) rel st (sub32 q st.first_seq),
    )

view-write_shifted :
    (st : FlowState) (seq : ℕ) (payload : Bytes) (len q : ℕ)
    → seq < 2 ^ 32
    → q < 2 ^ 32
    → len < 2 ^ 16
    → is_negative (offset_of st seq) ≡ true
    → shift_fits st (negated (offset_of st seq)) ≡ true
    → IsValid st
    → view (write_segment (shift_right st seq (negated (offset_of st seq))) 0 payload len) q
      ≡ or_else (view st q) (if ltb (sub32 q seq) window then byte_of seq payload len q else none)
view-write_shifted st seq payload len q s h small behind room v =
    let st' = shift_right st seq (negated (offset_of st seq)) in
    view-write_segment st' seq 0 payload len q (unfold shift_right in s) s h small
      (unfold shift_right in omega arith) refl
    ∙ unfold shift_right in
      ap (λ o. or_else o (if ltb (sub32 q seq) window then byte_of seq payload len q else none))
        (view-shift_right st seq q s h behind room v)

view-anchor : (st : FlowState) (seq q : ℕ) → IsValid st → view (anchor st seq) q ≡ view st q
unfolding anchor
view-anchor st seq q v =
    ground (arith, v.unanchored, v.beyond (sub32 q seq), v.beyond (sub32 q st.first_seq))

view-place_at :
    (st : FlowState) (seq : ℕ) (payload : Bytes) (len q : ℕ)
    → seq < 2 ^ 32
    → q < 2 ^ 32
    → len < 2 ^ 16
    → IsValid st
    → view (place_at st seq payload len) q
      ≡ or_else (view st q) (
          if accepts st seq && ltb (sub32 q (start_after st seq)) window
          then byte_of seq payload len q
          else none)
unfolding place_at
view-place_at st seq payload len q s h small v =
    elim (Bool-cases (is_negative (offset_of st seq))) [
      | inr ahead ↦ rw (
        ahead,
        view-write_segment st seq (offset_of st seq) payload len q v.first_seq_word s h small refl
            ahead,
      )
      | inl behind ↦ elim (Bool-cases (shift_fits st (negated (offset_of st seq)))) [
        | inr no_room ↦ rw (behind, no_room) (ground arith)
        | inl room ↦
            rw (behind, room) (view-write_shifted st seq payload len q s h small behind room v)
      ]
    ]

-- Placing a segment extends the map from sequence numbers to bytes, and the first byte received
-- for a number wins: a number that has a byte keeps it, and one that has none gets the segment's
-- byte for it, if the segment carries one, is placed (it starts at or behind the buffer's start, or
-- the buffer has room to move right) and the number then lies in the window of 4095 bytes. This
-- holds whatever order the segments come in and however the buffer moves.
pub view-place :
    (st : FlowState) (seq : ℕ) (payload : Bytes) (len q : ℕ)
    → IsValid st
    → seq < 2 ^ 32
    → q < 2 ^ 32
    → len < 2 ^ 16
    → view (place st seq payload len) q
      ≡ or_else (view st q) (if reaches st seq q then byte_of seq payload len q else none)
unfolding place
view-place st seq payload len q v s h small = elim (Bool-cases (ltb 0 len)) [
  | inr empty ↦ rw empty (ground arith)
  | inl carries ↦ rw carries (
      view-place_at (anchor st seq) seq payload len q s h small (anchor-IsValid st seq s v)
      ∙ ap (λ o. or_else o (if reaches st seq q then byte_of seq payload len q else none))
          (view-anchor st seq q v))
]

or_else_comm :
    (o a b : Option ℕ)
    → (a ≡ none) ⊎ (b ≡ none) ⊎ (a ≡ b)
    → or_else (or_else o a) b ≡ or_else (or_else o b) a
or_else_comm (some x) a b h = refl
or_else_comm none a b h = ground arith

-- Two segments, one after the other, at a number that both may fill.
view-place_twice :
    (st : FlowState) (seq : ℕ) (payload : Bytes) (len seq' : ℕ) (payload' : Bytes) (len' q : ℕ)
    → IsValid st
    → seq < 2 ^ 32
    → seq' < 2 ^ 32
    → q < 2 ^ 32
    → len < 2 ^ 16
    → len' < 2 ^ 16
    → reaches st seq q ≡ true
    → reaches (place st seq payload len) seq' q ≡ true
    → view (place (place st seq payload len) seq' payload' len') q
      ≡ or_else (or_else (view st q) (byte_of seq payload len q)) (byte_of seq' payload' len' q)
view-place_twice st seq payload len seq' payload' len' q v s s' h k k' r r' =
    let then_ = byte_of seq' payload' len' q in
    view-place (place st seq payload len) seq' payload' len' q
      (place-IsValid st seq payload len s k v) s' h k'
    ∙ ap (λ b. or_else (view (place st seq payload len) q) (if b then then_ else none)) r'
    ∙ ap (λ o. or_else o then_) (view-place st seq payload len q v s h k)
    ∙ ap (λ b. or_else (or_else (view st q) (if b then byte_of seq payload len q else none)) then_)
        r

-- The order of two segments does not matter where they agree: a number that each of them may fill,
-- before and after the other, ends with the same byte in either order, if the two do not carry
-- different bytes for it.
view-place_comm :
    (st : FlowState) (seq : ℕ) (payload : Bytes) (len seq' : ℕ) (payload' : Bytes) (len' q : ℕ)
    → IsValid st
    → seq < 2 ^ 32
    → seq' < 2 ^ 32
    → q < 2 ^ 32
    → len < 2 ^ 16
    → len' < 2 ^ 16
    → reaches st seq q ≡ true
    → reaches st seq' q ≡ true
    → reaches (place st seq payload len) seq' q ≡ true
    → reaches (place st seq' payload' len') seq q ≡ true
    → (byte_of seq payload len q ≡ none)
      ⊎ (byte_of seq' payload' len' q ≡ none)
      ⊎ (byte_of seq payload len q ≡ byte_of seq' payload' len' q)
    → view (place (place st seq payload len) seq' payload' len') q
      ≡ view (place (place st seq' payload' len') seq payload len) q
view-place_comm st seq payload len seq' payload' len' q v s s' h k k' r1 r2 r3 r4 agree =
    view-place_twice st seq payload len seq' payload' len' q v s s' h k k' r1 r3
    ∙ or_else_comm (view st q) (byte_of seq payload len q) (byte_of seq' payload' len' q) agree
    ∙ sym (view-place_twice st seq' payload' len' seq payload len q v s' s h k' k r2 r4)
