-- ===== src/Flow/Stream/Delivered.antt =====
-- What the buffer holds when the start of a stream has arrived.
use hyper_dpi.Prelude.{
  ℕ, ◌^◌, ◌≤◌, ◌<◌, ◌≡◌, Bool, true, false, arith, none, some, List, subst, if◌then◌else◌, sub32,
  refl,
}
use hyper_dpi.Flow.{FlowState, window}
use hyper_dpi.Traffic.{TrafficType}
use hyper_dpi.Flow.{new_state}
use hyper_dpi.Flow.Invariant.{new_state-IsValid}
use hyper_dpi.Flow.Stream.{Segment, place_all, seq_of, covered, ArePieces, Holds, IsPrefix}
use hyper_dpi.Flow.Stream.Step.{place_all-Holds}

pub Holds-start :
    (start n : ℕ) (stream : ℕ → ℕ) (arrived : ℕ → Bool) (st : FlowState)
    → start < 2 ^ 32
    → n ≤ window
    → 0 < n
    → arrived 0 ≡ true
    → Holds start n stream arrived st
    → st.first_seq ≡ start
Holds-start start n stream arrived st w k pos first h =
    let here = h.bytes 0 pos in
    ground (
      arith,
      here,
      first,
      h.within,
      h.valid.first_seq_word,
      h.valid.beyond (sub32 (seq_of start 0) st.first_seq),
      h.valid.unanchored,
      h.valid.hwm_le,
    )

pub new_state-Holds :
    (start n : ℕ) (stream : ℕ → ℕ) (type : TrafficType)
    → Holds start n stream (λ i. false) (new_state type)
new_state-Holds start n stream type = record {
  valid = new_state-IsValid type;
  within = λ e. absurd (ground arith);
  bytes = λ i l. refl;
}

pub Holds-cell :
    (start n : ℕ) (stream : ℕ → ℕ) (arrived : ℕ → Bool) (st : FlowState) (i : ℕ)
    → start < 2 ^ 32
    → n ≤ window
    → i < n
    → st.first_seq ≡ start
    → Holds start n stream arrived st
    → (st.filled i ≡ arrived i) × (arrived i ≡ true → st.buf i ≡ stream i)
Holds-cell start n stream arrived st i w k l e h =
    let at : sub32 (seq_of start i) st.first_seq ≡ i = omega arith in
    let here : (if st.filled i then some (st.buf i) else none)
        ≡ (if arrived i then some (stream i) else none) =
      subst
        (λ j.
          (if st.filled j then some (st.buf j) else none)
          ≡ (if arrived i then some (stream i) else none))
        at (h.bytes i l) in
    (ground (arith, here), λ a. ground (arith, here, a))

pub Holds-IsPrefix :
    (start n m : ℕ) (stream : ℕ → ℕ) (arrived : ℕ → Bool) (st : FlowState)
    → start < 2 ^ 32
    → n ≤ window
    → 0 < m
    → m ≤ n
    → ((i : ℕ) → i < m → arrived i ≡ true)
    → (m < n → arrived m ≡ false)
    → Holds start n stream arrived st
    → IsPrefix start m stream st
Holds-IsPrefix start n m stream arrived st w k pos le all end h =
    let starts = Holds-start start n stream arrived st w k (omega arith) (all 0 pos) h in
    let cell = λ (i : ℕ) (l : i < n). Holds-cell start n stream arrived st i w k l starts h in
    record {
      starts = starts;
      counts = ground (
        arith,
        λ (l : m < n). (cell m l).0,
        λ (l : st.contig_len < n). (cell st.contig_len l).0,
        all st.contig_len,
        end,
        h.within,
        h.valid.contig_le,
        h.valid.gap,
        h.valid.prefix m,
        h.valid.unanchored,
      );
      agrees = λ i l. (cell i (omega arith)).1 (all i l);
    }

-- The segments of a stream of at most 4095 bytes come in any order, may overlap and may come more
-- than once, and each carries bytes of the stream. When the first m bytes have arrived and the next
-- has not, or the stream ends there, the buffer starts at the stream's start, the length of its
-- gap-free prefix is m and the prefix is the first m bytes of the stream.
pub place_all-IsPrefix :
    (start n m : ℕ) (stream : ℕ → ℕ) (type : TrafficType) (ss : List Segment)
    → start < 2 ^ 32
    → n ≤ window
    → 0 < m
    → m ≤ n
    → ArePieces start n stream ss
    → ((i : ℕ) → i < m → covered start ss i ≡ true)
    → (m < n → covered start ss m ≡ false)
    → IsPrefix start m stream (place_all (new_state type) ss)
place_all-IsPrefix start n m stream type ss w k pos le ps all end =
    Holds-IsPrefix start n m stream (covered start ss) (place_all (new_state type) ss) w k pos le
      all end
      (place_all-Holds start n stream (λ i. false) (new_state type) ss w k ps
        (new_state-Holds start n stream type))
