-- ===== src/Http/Keeps.antt =====
-- The NUL that `try_extract_http` writes into the reassembly buffer does no harm.
use hyper_dpi.Prelude.{
  ℕ, ◌≡◌, ◌<◌, some, none, Option, Bytes, arith, sub32, ap, Bool, refl, update, suc,
}
use hyper_dpi.Flow.{FlowState, window}
use hyper_dpi.Flow.Invariant.{IsValid, IsValid-other}
use hyper_dpi.Flow.View.{view}
use hyper_dpi.Http.{c_string, extract_http, with_text, try_extract_http}

with_text-IsValid : (st : FlowState) (o : Option Bytes) → IsValid st → IsValid (with_text st o).1
unfolding with_text
with_text-IsValid st none v = v
with_text-IsValid st (some text) v =
    IsValid-other st st.buf text st.last_seen_tsc st.verdict_cached st.no_sni_cached v

with_text-buf :
    (st : FlowState) (o : Option Bytes)
    → let st' = (with_text st o).1 in
      (st'.buf ≡ st.buf) × (st'.filled ≡ st.filled) × (st'.first_seq ≡ st.first_seq)
unfolding with_text
with_text-buf st none = (refl, refl, refl)
with_text-buf st (some text) = (refl, refl, refl)

-- It fills the first gap of the stream: every byte received stays where it is, the invariant
-- holds on, and nothing is written past index 4095, the last of the buffer.
pub try_extract_http-view :
    (st : FlowState)
    → IsValid st
    → let st' = (try_extract_http st).1 in
      IsValid st'
      × ((q : ℕ) → view st' q ≡ view st q)
      × ((j : ℕ) → window < j → st'.buf j ≡ st.buf j)
unfolding try_extract_http
try_extract_http-view st v =
    let st0 = record st { buf = update st.buf st.contig_len 0 } in
    let o = extract_http (c_string st0.buf 0 (suc st.contig_len)) in
    let same = with_text-buf st0 o in
    (
      with_text-IsValid st0 o (
          IsValid-other st st0.buf st.scan_buf st.last_seen_tsc st.verdict_cached st.no_sni_cached
            v),
      λ q. ground (
        arith,
        ap (λ (f : ℕ → ℕ). f (sub32 q st.first_seq)) same.0,
        ap (λ (f : ℕ → Bool). f (sub32 q st.first_seq)) same.1,
        same.2,
        v.gap,
      ),
      λ j h. ground (arith, ap (λ (f : ℕ → ℕ). f j) same.0, v.contig_le, v.hwm_le),
    )
