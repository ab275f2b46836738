-- ===== src/Table/Delivered/Keeps.antt =====
-- Inspecting a piece of a stream keeps what the buffer holds of the stream.
use hyper_dpi.Prelude.{
  ℕ, suc, update, ◌-◌, ◌^◌, ◌≤◌, ◌<◌, ◌≡◌, refl, sym, ◌∙◌, Bool, false, ◌||◌, Option, none, some,
  List, [], ◌∷◌, Bytes, arith,
}
use hyper_dpi.Traffic.{TrafficType, http, https, non_dpi}
use hyper_dpi.Packet.{FlowKey}
use hyper_dpi.Flow.{FlowState, window}
use hyper_dpi.Flow.Place.{
  anchor, place, place_at, shift_right, settle, write_segment, write_end_of, offset_of, negated,
}
use hyper_dpi.Flow.Write.{write_loop-frame}
use hyper_dpi.Flow.Stream.{Segment, covers, covered, IsPiece, ArePieces, Holds}
use hyper_dpi.Flow.Stream.Step.{place-Holds}
use hyper_dpi.Http.{c_string, with_text, try_extract_http, extract_http}
use hyper_dpi.Tls.{SniResult, with_sni, extract_tls_sni, try_extract_tls_sni}
use hyper_dpi.Table.{extract, after_http, after_tls, inspect}
use hyper_dpi.Table.Inspect.{extract-keeps}
use hyper_dpi.Table.Delivered.{packet_of, inspect_all}

-- The fields that an extraction leaves alone.
abbrev pub SameMarks : FlowState → FlowState → Type 0
SameMarks st st' =
    (st'.first_seq ≡ st.first_seq)
    × (st'.hwm ≡ st.hwm)
    × (st'.first_seq_set ≡ st.first_seq_set)
    × (st'.verdict_cached ≡ st.verdict_cached)

after_http-marks : (r : Option Bytes × FlowState) → SameMarks r.1 (after_http r).1
unfolding after_http
after_http-marks (some text, st) = (refl, refl, refl, refl)
after_http-marks (none, st) = (refl, refl, refl, refl)

after_tls-marks : (r : SniResult × FlowState) → SameMarks r.1 (after_tls r).1
unfolding after_tls
after_tls-marks (SniResult.found text, st) = (refl, refl, refl, refl)
after_tls-marks (SniResult.not_present, st) = (refl, refl, refl, refl)
after_tls-marks (SniResult.pending, st) = (refl, refl, refl, refl)

with_text-marks : (st : FlowState) (o : Option Bytes) → SameMarks st (with_text st o).1
unfolding with_text
with_text-marks st (some text) = (refl, refl, refl, refl)
with_text-marks st none = (refl, refl, refl, refl)

with_sni-marks : (st : FlowState) (r : SniResult) → SameMarks st (with_sni st r).1
unfolding with_sni
with_sni-marks st (SniResult.found text) = (refl, refl, refl, refl)
with_sni-marks st SniResult.not_present = (refl, refl, refl, refl)
with_sni-marks st SniResult.pending = (refl, refl, refl, refl)

SameMarks-trans : (a b c : FlowState) → SameMarks a b → SameMarks b c → SameMarks a c
SameMarks-trans a b c h k = (k.0 ∙ h.0, k.1 ∙ h.1, k.2 ∙ h.2, k.3 ∙ h.3)

try_extract_http-marks : (st : FlowState) → SameMarks st (try_extract_http st).1
unfolding try_extract_http
try_extract_http-marks st =
    let st' = record st { buf = update st.buf st.contig_len 0 } in
    with_text-marks st' (extract_http (c_string st'.buf 0 (suc st.contig_len)))

try_extract_tls_sni-marks : (st : FlowState) → SameMarks st (try_extract_tls_sni st).1
unfolding try_extract_tls_sni
try_extract_tls_sni-marks st = with_sni-marks st (extract_tls_sni st.buf st.contig_len)

after_tls_sni-marks : (st : FlowState) → SameMarks st (after_tls (try_extract_tls_sni st)).1
after_tls_sni-marks st =
    SameMarks-trans st (try_extract_tls_sni st).1 (after_tls (try_extract_tls_sni st)).1
      (try_extract_tls_sni-marks st) (after_tls-marks (try_extract_tls_sni st))

extract-marks : (type : TrafficType) (st : FlowState) → SameMarks st (extract type st).1
unfolding extract
extract-marks http st =
    SameMarks-trans st (try_extract_http st).1 (after_http (try_extract_http st)).1
      (try_extract_http-marks st) (after_http-marks (try_extract_http st))
extract-marks non_dpi st = after_tls_sni-marks st
extract-marks https st = after_tls_sni-marks st

write_segment-verdict :
    (st : FlowState) (rel : ℕ) (payload : Bytes) (len : ℕ)
    → (write_segment st rel payload len).verdict_cached ≡ st.verdict_cached
unfolding write_segment settle
write_segment-verdict st rel payload len =
    let e = write_end_of rel len in ground (arith, write_loop-frame rel payload (e - rel) rel st)

place_at-verdict :
    (st : FlowState) (seq : ℕ) (payload : Bytes) (len : ℕ)
    → (place_at st seq payload len).verdict_cached ≡ st.verdict_cached
unfolding place_at shift_right
place_at-verdict st seq payload len =
    let diff = offset_of st seq in
    ground (
      arith,
      write_segment-verdict st diff payload len,
      write_segment-verdict (shift_right st seq (negated diff)) 0 payload len,
    )

pub place-verdict :
    (st : FlowState) (seq : ℕ) (payload : Bytes) (len : ℕ)
    → (place st seq payload len).verdict_cached ≡ st.verdict_cached
unfolding place anchor
place-verdict st seq payload len = ground (arith, place_at-verdict (anchor st seq) seq payload len)

pub extract-Holds :
    (start n : ℕ) (stream : ℕ → ℕ) (arrived : ℕ → Bool) (type : TrafficType) (st : FlowState)
    → Holds start n stream arrived st
    → Holds start n stream arrived (extract type st).1
extract-Holds start n stream arrived type st h =
    let (valid, same) = extract-keeps type st h.valid in
    let (starts, ends, set, _) = extract-marks type st in
    record {
      valid = valid;
      within = λ e. omega (arith, h.within (sym set ∙ e), starts, ends);
      bytes = λ i l. same _ ∙ h.bytes i l;
    }

-- What is kept of a flow that has no verdict.
pub record Open (start n : ℕ) (stream : ℕ → ℕ) (arrived : ℕ → Bool) (st : FlowState) : Type 0 where
  pub undecided : st.verdict_cached ≡ false
  pub holds : Holds start n stream arrived st

module _ (start n : ℕ) (stream : ℕ → ℕ) (w : start < 2 ^ 32) (k : n ≤ window) (type : TrafficType)
    (key : FlowKey) where
  inspect-Open :
      (arrived : ℕ → Bool) (st : FlowState) (s : Segment)
      → IsPiece start n stream s
      → Open start n stream arrived st
      → Open start n stream
          (λ i. arrived i || covers start s i)
          (inspect st (packet_of type key s)).1
  unfolding inspect
  inspect-Open arrived st s p o =
      let st' = place st s.seq s.payload s.len in
      simp o.undecided (record {
        undecided =
            (extract-marks type st').3 ∙ place-verdict st s.seq s.payload s.len ∙ o.undecided;
        holds =
            extract-Holds start n stream (λ i. arrived i || covers start s i) type st'
              (place-Holds start n stream arrived st s w k p o.holds);
      })

  pub inspect_all-Open :
      (arrived : ℕ → Bool) (st : FlowState) (ss : List Segment)
      → ArePieces start n stream ss
      → Open start n stream arrived st
      → Open start n stream (λ i. arrived i || covered start ss i) (inspect_all type key st ss)
  inspect_all-Open arrived st [] ps o = record {
    undecided = o.undecided;
    holds = record {
      valid = o.holds.valid;
      within = o.holds.within;
      bytes = λ i l. o.holds.bytes i l ∙ ground arith;
    };
  }
  inspect_all-Open arrived st (s ∷ ss) (p, ps) o =
      let ih =
        inspect_all-Open (λ i. arrived i || covers start s i) (inspect st (packet_of type key s)).1
          ss ps (inspect-Open arrived st s p o) in
      record {
        undecided = ih.undecided;
        holds = record {
          valid = ih.holds.valid;
          within = ih.holds.within;
          bytes = λ i l. ih.holds.bytes i l ∙ ground arith;
        };
      }
