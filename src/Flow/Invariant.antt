-- ===== src/Flow/Invariant.antt =====
-- What every reassembly buffer satisfies, and that placing a segment keeps it.
use hyper_dpi.Prelude.{
  ℕ, zero, suc, ◌+◌, ◌-◌, ◌^◌, ◌≤◌, ◌<◌, ◌≡◌, refl, Bool, true, false, ◌&&◌, ltb, arith, Bytes,
  Memory, if◌then◌else◌, Bool-cases, inl, inr, u16, ◌∙◌,
}
use hyper_dpi.Traffic.{TrafficType}
use hyper_dpi.Flow.{FlowState, new_state, window}
use hyper_dpi.Flow.Place.{
  anchor, offset_of, is_negative, negated, shift_fits, shift_right, write_loop, advance, settle,
  write_end_of, write_segment, place_at, place,
}
use hyper_dpi.Flow.Write.{write_loop-filled, write_loop-frame}

-- The prefix below `contig_len` is gap-free and ends at a gap, nothing is filled from the
-- high-water mark on, and that lies in the window. Before the anchor nothing is filled.
pub record IsValid (st : FlowState) : Type 0 where
  pub contig_le : st.contig_len ≤ st.hwm
  pub hwm_le : st.hwm ≤ window
  pub prefix : (i : ℕ) → i < st.contig_len → st.filled i ≡ true
  pub gap : st.filled st.contig_len ≡ false
  pub beyond : (i : ℕ) → st.hwm ≤ i → st.filled i ≡ false
  pub unanchored : st.first_seq_set ≡ false → st.hwm ≡ 0
  pub first_seq_word : st.first_seq < 2 ^ 32

pub new_state-IsValid : (type : TrafficType) → IsValid (new_state type)
new_state-IsValid type = record {
  contig_le = omega arith;
  hwm_le = omega arith;
  prefix = λ i h. absurd (omega arith);
  gap = refl;
  beyond = λ i h. refl;
  unanchored = λ e. refl;
  first_seq_word = omega arith;
}

-- The other fields do not matter.
pub IsValid-other :
    (st : FlowState) (buf : Memory) (scan_buf : Bytes) (last_seen_tsc : ℕ)
    (verdict_cached no_sni_cached : Bool)
    → IsValid st
    → IsValid (record st {
      buf = buf;
      scan_buf = scan_buf;
      last_seen_tsc = last_seen_tsc;
      verdict_cached = verdict_cached;
      no_sni_cached = no_sni_cached;
    })
IsValid-other st buf scan_buf last_seen_tsc verdict_cached no_sni_cached v = record {
  contig_le = v.contig_le;
  hwm_le = v.hwm_le;
  prefix = v.prefix;
  gap = v.gap;
  beyond = v.beyond;
  unanchored = v.unanchored;
  first_seq_word = v.first_seq_word;
}

-- The bound on the rounds of the counting loop is enough: it ends at a gap or at the mark.
pub advance_lem :
    (n : ℕ) (filled : ℕ → Bool) (hwm contig : ℕ)
    → contig ≤ hwm
    → hwm ≤ contig + n
    → let r = advance n filled hwm contig in
      (contig ≤ r)
      × (r ≤ hwm)
      × ((i : ℕ) → contig ≤ i → i < r → filled i ≡ true)
      × (r < hwm → filled r ≡ false)
unfolding advance
advance_lem zero filled hwm contig h k =
    (omega arith, omega arith, λ i p q. absurd (omega arith), λ p. absurd (omega arith))
advance_lem (suc n) filled hwm contig h k = elim (Bool-cases (ltb contig hwm && filled contig)) [
  | inl more ↦
      let ih = advance_lem n filled hwm (contig + 1) (ground arith) (omega arith) in
      rw more (omega (arith, ih.0), ih.1, λ i p q. ground (arith, ih.2 i), ih.3)
  | inr stop ↦ rw stop (omega arith, h, λ i p q. absurd (omega arith), λ p. ground arith)
]

shift_right-IsValid :
    (st : FlowState) (seq shift : ℕ)
    → seq < 2 ^ 32
    → 0 < shift
    → shift_fits st shift ≡ true
    → st.first_seq_set ≡ true
    → IsValid st
    → IsValid (shift_right st seq shift)
unfolding shift_right
shift_right-IsValid st seq shift word pos fits set v = record {
  contig_le = omega arith;
  hwm_le = ground arith;
  prefix = λ i h. absurd (omega arith);
  gap = ground arith;
  beyond = λ i h. ground (arith, v.beyond i);
  unanchored = λ e. cc;
  first_seq_word = word;
}

settle-IsValid :
    (st : FlowState) (write_end : ℕ)
    → write_end ≤ window
    → st.contig_len ≤ st.hwm
    → st.hwm ≤ window
    → ((i : ℕ) → i < st.contig_len → st.filled i ≡ true)
    → ((i : ℕ) → st.hwm ≤ i → write_end ≤ i → st.filled i ≡ false)
    → st.first_seq_set ≡ true
    → st.first_seq < 2 ^ 32
    → IsValid (settle st write_end)
unfolding settle
settle-IsValid st write_end w c h pre beyond set word =
    let hwm = if ltb st.hwm write_end then u16 write_end else st.hwm in
    let lem = advance_lem hwm st.filled hwm st.contig_len (ground arith) (ground arith) in
    record {
      contig_le = lem.1;
      hwm_le = ground arith;
      prefix = λ i k. ground (arith, lem.2 i, pre i);
      gap = ground (arith, lem, beyond (advance hwm st.filled hwm st.contig_len));
      beyond = λ i k. ground (arith, beyond i);
      unanchored = λ e. cc;
      first_seq_word = word;
    }

pub write_segment-IsValid :
    (st : FlowState) (rel : ℕ) (payload : Bytes) (len : ℕ)
    → len < 2 ^ 16
    → st.first_seq_set ≡ true
    → IsValid st
    → IsValid (write_segment st rel payload len)
unfolding write_segment
write_segment-IsValid st rel payload len small set v = elim (Bool-cases (ltb rel window)) [
  | inr out ↦ rw out v
  | inl within ↦
      let e = write_end_of rel len in
      let st' = write_loop (e - rel) rel rel payload st in
      let fr = write_loop-frame rel payload (e - rel) rel st in
      rw within (
        settle-IsValid st' e (ground arith) (omega (arith, fr.0, fr.1, v.contig_le))
          (omega (arith, fr.1, v.hwm_le))
          (λ i h.
            ground (arith, write_loop-filled rel payload (e - rel) rel st i, v.prefix i, fr.0))
          (λ i h k.
            ground (arith, write_loop-filled rel payload (e - rel) rel st i, v.beyond i, fr.1))
          (fr.3 ∙ set) (omega (arith, fr.2, v.first_seq_word)))
]

place_at-IsValid :
    (st : FlowState) (seq : ℕ) (payload : Bytes) (len : ℕ)
    → seq < 2 ^ 32
    → len < 2 ^ 16
    → st.first_seq_set ≡ true
    → IsValid st
    → IsValid (place_at st seq payload len)
unfolding place_at
place_at-IsValid st seq payload len word small set v =
    let diff = offset_of st seq in
    elim (Bool-cases (is_negative diff)) [
      | inr ahead ↦ rw ahead (write_segment-IsValid st diff payload len small set v)
      | inl behind ↦ elim (Bool-cases (shift_fits st (negated diff))) [
        | inr no_room ↦ rw (behind, no_room) v
        | inl room ↦
            rw (behind, room)
              (write_segment-IsValid (shift_right st seq (negated diff)) 0 payload len small
                (unfold shift_right in set)
                (shift_right-IsValid st seq (negated diff) word (ground arith) room set v))
      ]
    ]

pub anchor-IsValid :
    (st : FlowState) (seq : ℕ) → seq < 2 ^ 32 → IsValid st → IsValid (anchor st seq)
unfolding anchor
anchor-IsValid st seq word v = elim (Bool-cases st.first_seq_set) [
  | inl set ↦ simp set v
  | inr fresh ↦ simp fresh (record {
    contig_le = v.contig_le;
    hwm_le = v.hwm_le;
    prefix = v.prefix;
    gap = v.gap;
    beyond = v.beyond;
    unanchored = λ e. cc;
    first_seq_word = word;
  })
]

-- Placing a segment keeps the invariant, whatever its sequence number and its bytes.
pub place-IsValid :
    (st : FlowState) (seq : ℕ) (payload : Bytes) (len : ℕ)
    → seq < 2 ^ 32
    → len < 2 ^ 16
    → IsValid st
    → IsValid (place st seq payload len)
unfolding place
place-IsValid st seq payload len word small v = elim (Bool-cases (ltb 0 len)) [
  | inr empty ↦ rw empty v
  | inl some_bytes ↦ rw some_bytes (
      place_at-IsValid (anchor st seq) seq payload len word small (unfold anchor in ground arith)
        (anchor-IsValid st seq word v))
]
