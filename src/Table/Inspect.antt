-- ===== src/Table/Inspect.antt =====
-- What `parser_flow_update` does to the state of one flow.
use hyper_dpi.Prelude.{ℕ, ◌≡◌, refl, true, false, Bool-cases, inl, inr, Option, none, some, Bytes}
use hyper_dpi.Traffic.{TrafficType, non_dpi, http, https}
use hyper_dpi.Packet.{L2L4Result}
use hyper_dpi.Packet.Frames.{IsSegment}
use hyper_dpi.Flow.{FlowState}
use hyper_dpi.Flow.Place.{place}
use hyper_dpi.Flow.Invariant.{IsValid, IsValid-other, place-IsValid}
use hyper_dpi.Flow.View.{view}
use hyper_dpi.Http.{try_extract_http}
use hyper_dpi.Http.Keeps.{try_extract_http-view}
use hyper_dpi.Tls.{SniResult, try_extract_tls_sni, with_sni, extract_tls_sni}
use hyper_dpi.Table.{after_http, after_tls, extract, inspect}

-- A flow with no verdict has a valid reassembly buffer; one with a verdict has no use for it.
abbrev pub FlowOk : FlowState → Type 0
FlowOk st = st.verdict_cached ≡ false → IsValid st

-- The same stream of bytes.
abbrev pub SameView : FlowState → FlowState → Type 0
SameView st st' = (q : ℕ) → view st' q ≡ view st q

after_http-keeps :
    (st : FlowState) (r : Option Bytes × FlowState)
    → IsValid r.1
    → SameView st r.1
    → IsValid (after_http r).1 × SameView st (after_http r).1
unfolding after_http
after_http-keeps st (none, st') v s = (v, s)
after_http-keeps st (some text, st') v s = (v, s)

after_tls-keeps :
    (st : FlowState) (r : SniResult × FlowState)
    → IsValid r.1
    → SameView st r.1
    → IsValid (after_tls r).1 × SameView st (after_tls r).1
unfolding after_tls
after_tls-keeps st (SniResult.pending, st') v s = (v, s)
after_tls-keeps st (SniResult.found text, st') v s = (v, s)
after_tls-keeps st (SniResult.not_present, st') v s =
    (IsValid-other st' st'.buf st'.scan_buf st'.last_seen_tsc st'.verdict_cached true v, s)

with_sni-keeps :
    (st : FlowState) (r : SniResult)
    → IsValid st
    → IsValid (with_sni st r).1 × SameView st (with_sni st r).1
unfolding with_sni
with_sni-keeps st SniResult.pending v = (v, λ q. refl)
with_sni-keeps st SniResult.not_present v = (v, λ q. refl)
with_sni-keeps st (SniResult.found text) v =
    (IsValid-other st st.buf text st.last_seen_tsc st.verdict_cached st.no_sni_cached v, λ q. refl)

pub extract-keeps :
    (type : TrafficType) (st : FlowState)
    → IsValid st
    → IsValid (extract type st).1 × SameView st (extract type st).1
unfolding extract try_extract_tls_sni
extract-keeps http st v =
    let k = try_extract_http-view st v in after_http-keeps st (try_extract_http st) k.0 k.1
extract-keeps non_dpi st v =
    let k = with_sni-keeps st (extract_tls_sni st.buf st.contig_len) v in
    after_tls-keeps st (try_extract_tls_sni st) k.0 k.1
extract-keeps https st v =
    let k = with_sni-keeps st (extract_tls_sni st.buf st.contig_len) v in
    after_tls-keeps st (try_extract_tls_sni st) k.0 k.1

-- Inspecting a segment keeps the state well-formed. On a flow with no verdict the reassembled
-- stream afterwards is what placing the segment makes it: neither extraction loses a byte.
pub inspect-FlowOk :
    (st : FlowState) (l2l4 : L2L4Result)
    → IsSegment l2l4
    → FlowOk st
    → FlowOk (inspect st l2l4).1
      × (st.verdict_cached ≡ false
          → (q : ℕ)
          → view (inspect st l2l4).1 q ≡ view (place st l2l4.seq l2l4.payload l2l4.payload_len) q)
unfolding inspect
inspect-FlowOk st l2l4 (s, p) ok = elim (Bool-cases st.verdict_cached) [
  | inl done ↦ simp done (λ e. cc, λ e. cc)
  | inr open_ ↦
      let k =
        extract-keeps l2l4.type (place st l2l4.seq l2l4.payload l2l4.payload_len)
          (place-IsValid st l2l4.seq l2l4.payload l2l4.payload_len s p (ok open_)) in
      simp open_ (λ e. k.0, λ e. k.1)
]
