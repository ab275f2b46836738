-- ===== src/Table/Delivered/Requests.antt =====
-- What the inspection of each packet of a request or a ClientHello reports.
use hyper_dpi.Prelude.{
  ℕ, ◌^◌, ◌≤◌, ◌<◌, ◌≡◌, ◌⊎◌, refl, sym, ◌∙◌, Bool, true, false, arith, Bool-cases, inl, inr, ltb,
}
use hyper_dpi.Flow.{FlowState, window}
use hyper_dpi.Flow.Stream.{Holds, IsPrefix}
use hyper_dpi.Flow.Stream.Delivered.{Holds-start, Holds-cell}

-- When the first byte has arrived, the gap-free prefix is a prefix of the stream, and ends where a
-- byte is missing.
pub Holds-prefix :
    (start n : ℕ) (stream : ℕ → ℕ) (arrived : ℕ → Bool) (st : FlowState)
    → start < 2 ^ 32
    → n ≤ window
    → 0 < n
    → arrived 0 ≡ true
    → Holds start n stream arrived st
    → IsPrefix start st.contig_len stream st
      × ((st.contig_len ≡ n) ⊎ ((st.contig_len < n) × (arrived st.contig_len ≡ false)))
Holds-prefix start n stream arrived st w k pos first h =
    let starts = Holds-start start n stream arrived st w k pos first h in
    let here = Holds-cell start n stream arrived st 0 w k pos starts h in
    let at_most : st.contig_len ≤ n =
      ground
        (arith, h.within, h.valid.contig_le, h.valid.unanchored, h.valid.beyond 0, here.0, first) in
    let cell = λ (i : ℕ) (l : i < n). Holds-cell start n stream arrived st i w k l starts h in
    (
      record {
        starts = starts;
        counts = refl;
        agrees =
            λ i l. let c = cell i (omega (arith, at_most)) in c.1 (sym c.0 ∙ h.valid.prefix i l);
      },
      elim (Bool-cases (ltb st.contig_len n)) [
        | inl less ↦
            let l : st.contig_len < n = ground arith in
            inr (l, sym (cell st.contig_len l).0 ∙ h.valid.gap)
        | inr all_of ↦ inl (ground (arith, at_most))
      ],
    )
