-- ===== src/Flow/Write.antt =====
-- What the writing loop does to the buffer and its flags.
use hyper_dpi.Prelude.{
  ℕ, zero, suc, ◌+◌, ◌-◌, ◌≡◌, true, ◌&&◌, ◌||◌, ltb, leb, arith, Bytes, get_or, if◌then◌else◌,
  update,
}
use hyper_dpi.Flow.{FlowState}
use hyper_dpi.Flow.Place.{write_loop}

-- The fields that placing a segment leaves alone.
abbrev pub Kept : FlowState → FlowState → Type 0
Kept st st' =
    (st'.type ≡ st.type)
    × (st'.scan_buf ≡ st.scan_buf)
    × (st'.last_seen_tsc ≡ st.last_seen_tsc)
    × (st'.verdict_cached ≡ st.verdict_cached)
    × (st'.cached_action ≡ st.cached_action)
    × (st'.no_sni_cached ≡ st.no_sni_cached)

-- The cells that the writing loop visits are filled; one that was filled keeps its byte.
module _ (rel : ℕ) (payload : Bytes) where
  pub write_loop-filled :
      (n off : ℕ) (st : FlowState) (j : ℕ)
      → (write_loop n off rel payload st).filled j ≡ (st.filled j || (leb off j && ltb j (off + n)))
  unfolding write_loop
  write_loop-filled zero off st j = ground arith
  write_loop-filled (suc n) off st j = ground (
    arith,
    write_loop-filled n (off + 1) st j,
    write_loop-filled n (off + 1)
        (record st {
          buf = update st.buf off (get_or payload (off - rel) 0);
          filled = update st.filled off true;
        })
        j,
  )

  pub write_loop-buf :
      (n off : ℕ) (st : FlowState) (j : ℕ)
      → (write_loop n off rel payload st).buf j ≡ (
          if st.filled j
          then st.buf j
          else if leb off j && ltb j (off + n)
          then get_or payload (j - rel) 0
          else st.buf j)
  unfolding write_loop
  write_loop-buf zero off st j = ground arith
  write_loop-buf (suc n) off st j = ground (
    arith,
    write_loop-buf n (off + 1) st j,
    write_loop-buf n (off + 1)
        (record st {
          buf = update st.buf off (get_or payload (off - rel) 0);
          filled = update st.filled off true;
        })
        j,
  )

  -- The loop writes these two fields and no other.
  pub write_loop-frame :
      (n off : ℕ) (st : FlowState)
      → let st' = write_loop n off rel payload st in
        (st'.contig_len ≡ st.contig_len)
        × (st'.hwm ≡ st.hwm)
        × (st'.first_seq ≡ st.first_seq)
        × (st'.first_seq_set ≡ st.first_seq_set)
        × Kept st st'
  unfolding write_loop
  write_loop-frame zero off st = ground arith
  write_loop-frame (suc n) off st = ground (
    arith,
    write_loop-frame n (off + 1) st,
    write_loop-frame n (off + 1) (record st {
      buf = update st.buf off (get_or payload (off - rel) 0);
      filled = update st.filled off true;
    }),
  )
