-- ===== src/Flow/Stream.antt =====
-- A whole stream through the reassembly buffer: its segments in any order, with overlaps and
-- retransmissions.
pub mod Octets
pub mod Step
pub mod Delivered
use hyper_dpi.Prelude.{
  ℕ, ◌+◌, ◌-◌, ◌^◌, ◌≤◌, ◌<◌, ◌≡◌, Bool, true, false, ◌||◌, ltb, leb, arith, Option, none, some,
  List, [], ◌∷◌, Bytes, get_or, if◌then◌else◌, u16, u32, sub32, Bool-cases, inl, inr, ◌∙◌, refl, ap,
}
use hyper_dpi.Flow.{FlowState, window}
use hyper_dpi.Flow.Invariant.{IsValid, anchor-IsValid, place-IsValid}
use hyper_dpi.Flow.Write.{write_loop-frame}
use hyper_dpi.Flow.Place.{
  anchor, offset_of, is_negative, negated, shift_fits, shift_right, settle, write_end_of,
  write_segment, place_at, place,
}
use hyper_dpi.Flow.View.{view, or_else, byte_of, reaches, view-place}

pub record Segment : Type 0 where
  pub seq : ℕ
  pub payload : Bytes
  pub len : ℕ

abbrev pub place_all : FlowState → List Segment → FlowState
place_all st [] = st
place_all st (s ∷ ss) = place_all (place st s.seq s.payload s.len) ss

module _ (start : ℕ) where
  -- The sequence number of byte `i` of the stream.
  abbrev pub seq_of : ℕ → ℕ
  seq_of i = u32 (start + i)

  abbrev pub covers : Segment → ℕ → Bool
  covers s i = ltb (sub32 (seq_of i) s.seq) s.len

  -- Some segment carries byte `i`.
  abbrev pub covered : List Segment → ℕ → Bool
  covered [] i = false
  covered (s ∷ ss) i = covers s i || covered ss i

module _ (start n : ℕ) (stream : ℕ → ℕ) where
  -- The segment is a piece of the stream.
  pub record IsPiece (s : Segment) : Type 0 where
    pub seq_word : s.seq < 2 ^ 32
    pub len_word : s.len < 2 ^ 16
    pub inside : sub32 s.seq start + s.len ≤ n
    pub carries : (j : ℕ) → j < s.len → get_or s.payload j 0 ≡ stream (sub32 s.seq start + j)

  abbrev pub ArePieces : List Segment → Type 0
  ArePieces [] = Unit {0}
  ArePieces (s ∷ ss) = IsPiece s × ArePieces ss

  -- The buffer holds the bytes that have arrived and lies within the stream.
  pub record Holds (arrived : ℕ → Bool) (st : FlowState) : Type 0 where
    pub valid : IsValid st
    pub within : st.first_seq_set ≡ true → sub32 st.first_seq start + st.hwm ≤ n
    pub bytes :
        (i : ℕ) → i < n → view st (seq_of start i) ≡ (if arrived i then some (stream i) else none)

-- What the reassembled prefix is: its start, its length and its bytes.
pub record IsPrefix (start m : ℕ) (stream : ℕ → ℕ) (st : FlowState) : Type 0 where
  pub starts : st.first_seq ≡ start
  pub counts : st.contig_len ≡ m
  pub agrees : (i : ℕ) → i < m → st.buf i ≡ stream i
