-- ===== src/Http/Delivered.antt =====
-- What the extraction finds when a request's segments arrive in any order.
use hyper_dpi.Prelude.{
  ℕ, zero, suc, ◌+◌, ◌≤◌, ◌<◌, ◌≡◌, refl, ap, sym, ◌∙◌, true, Bool-cases, inl, inr, ltb,
  Option-cases, ◌⊎◌, ◌==◌, some, none, [], ◌∷◌, ◌++◌, Bytes, length, arith, Memory, update, Option,
}
use hyper_dpi.Flow.{FlowState, window}
use hyper_dpi.Flow.Stream.{IsPrefix}
use hyper_dpi.Http.{
  c_string, http_methods, http_scheme, scan_text, has_method, extract_http, with_text,
  try_extract_http,
}
use hyper_dpi.Http.Sound.{IsUri, IsHost}
use hyper_dpi.Http.Complete.{NoSpace, extract_http_complete}
use hyper_dpi.Http.Stable.{extract_http-append}

-- A string that ends at a NUL within its bound, and at most there in another memory.
c_string-terminated :
    (buf stream : Memory) (i n : ℕ)
    → ((j : ℕ) → j ≡ i + n → buf j ≡ 0)
    → ((j : ℕ) → i ≤ j → j < i + n → buf j ≡ stream j)
    → c_string buf i (suc n) ≡ c_string stream i n
unfolding c_string
c_string-terminated buf stream i zero e a = rw (e i (omega arith))
c_string-terminated buf stream i (suc n) e a = rw (
  a i (omega arith) (omega arith),
  c_string-terminated buf stream (i + 1) n (λ j h. e j (omega arith))
      (λ j l h. a j (omega arith) (omega arith)),
)

length-c_string : (m : Memory) (i n : ℕ) → length (c_string m i n) ≤ n
unfolding c_string
length-c_string m i zero = omega arith
length-c_string m i (suc n) = ground (arith, length-c_string m (i + 1) n)

-- A longer part of a memory holds a string that starts with the shorter one.
c_string-grow :
    (m : Memory) (i n k : ℕ) → n ≤ k → (t : Bytes) × (c_string m i k ≡ c_string m i n ++ t)
unfolding c_string
c_string-grow m i zero k h = (c_string m i k, refl)
c_string-grow m i (suc n) zero h = absurd (omega arith)
c_string-grow m i (suc n) (suc k) h = elim (Bool-cases (m i == 0)) [
  | inl nul ↦ rw nul ([], refl)
  | inr other ↦
      let (t, e) = c_string-grow m (i + 1) n k (omega arith) in rw other (t, ap (◌∷◌ (m i)) e)
]

with_text-text : (st : FlowState) (o : Option Bytes) → (with_text st o).0 ≡ o
unfolding with_text
with_text-text st none = refl
with_text-text st (some text) = refl

pub try_extract_http-IsPrefix :
    (start m : ℕ) (stream : Memory) (st : FlowState)
    → IsPrefix start m stream st
    → (try_extract_http st).0 ≡ extract_http (c_string stream 0 m)
unfolding try_extract_http
try_extract_http-IsPrefix start m stream st p =
    let buf = update st.buf st.contig_len 0 in
    with_text-text (record st { buf = buf }) (extract_http (c_string buf 0 (suc st.contig_len)))
    ∙ ap extract_http (
        rw p.counts (
          c_string-terminated (update st.buf m 0) stream 0 m (λ j h. ground arith)
            (λ j l h. ground (arith, p.agrees j))))

-- Every part of a request gives the text of the whole request or nothing, and the whole request
-- gives the text.
pub extract_http-prefix :
    (stream : Memory) (n m : ℕ) (uri host : Bytes)
    → n ≤ window
    → m ≤ n
    → has_method (c_string stream 0 n) http_methods ≡ true
    → IsUri (c_string stream 0 n) uri
    → IsHost (c_string stream 0 n) host
    → NoSpace host
    → let out = extract_http (c_string stream 0 m) in
      (out ≡ some (scan_text (http_scheme ++ (host ++ uri)))) ⊎ ((out ≡ none) × (m < n))
extract_http-prefix stream n m uri host k le method u v no_space =
    let whole =
      extract_http_complete (c_string stream 0 n) uri host
        (omega (arith, length-c_string stream 0 n)) method u v no_space in
    let (t, grows) = c_string-grow stream 0 m n le in
    elim (Option-cases (extract_http (c_string stream 0 m))) [
      | inl pending ↦ elim (Bool-cases (ltb m n)) [
        | inl part ↦ inr (pending, ground arith)
        | inr all_of ↦ inl (ap (λ x. extract_http (c_string stream 0 x)) (ground arith) ∙ whole)
      ]
      | inr (text, found) ↦ inl (
          found
          ∙ sym (extract_http-append (c_string stream 0 m) t text found)
          ∙ ap extract_http (sym grows)
          ∙ whole)
    ]
