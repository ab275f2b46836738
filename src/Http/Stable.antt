-- ===== src/Http/Stable.antt =====
-- A text that has been extracted stays when more of the request arrives.
use hyper_dpi.Prelude.{
  ℕ, zero, suc, ◌-◌, ◌≤◌, ◌<◌, ◌≡◌, refl, ap, true, Bool-cases, inl, inr, ◌==◌, some, some_inj,
  List, [], ◌∷◌, ◌++◌, Bytes, length, length-append, take, u16, arith, >>=-eq-some, require,
}
use hyper_dpi.Http.{
  starts_with, starts_with_ci, strchr, strstr, find_ci, skip, skip_spaces, find_uri, find_host,
  http_methods, crlf, host_header, has_method, extract_http,
}

starts_with-grow : (s t m : Bytes) → length m ≤ length s → starts_with (s ++ t) m ≡ starts_with s m
unfolding starts_with
starts_with-grow [] t [] h = refl
starts_with-grow (c ∷ cs) t [] h = refl
starts_with-grow [] t (p ∷ ps) h = absurd (omega arith)
starts_with-grow (c ∷ cs) t (p ∷ ps) h = rw (starts_with-grow cs t ps (omega arith))

starts_with-length : (s m : Bytes) → starts_with s m ≡ true → length m ≤ length s
unfolding starts_with
starts_with-length s [] e = omega arith
starts_with-length [] (p ∷ ps) e = cc
starts_with-length (c ∷ cs) (p ∷ ps) e = omega (arith, starts_with-length cs ps (ground arith))

starts_with_ci-grow :
    (s t m : Bytes) → length m ≤ length s → starts_with_ci (s ++ t) m ≡ starts_with_ci s m
unfolding starts_with_ci
starts_with_ci-grow [] t [] h = refl
starts_with_ci-grow (c ∷ cs) t [] h = refl
starts_with_ci-grow [] t (p ∷ ps) h = absurd (omega arith)
starts_with_ci-grow (c ∷ cs) t (p ∷ ps) h = rw (starts_with_ci-grow cs t ps (omega arith))

starts_with_ci-length : (s m : Bytes) → starts_with_ci s m ≡ true → length m ≤ length s
unfolding starts_with_ci
starts_with_ci-length s [] e = omega arith
starts_with_ci-length [] (p ∷ ps) e = cc
starts_with_ci-length (c ∷ cs) (p ∷ ps) e =
    omega (arith, starts_with_ci-length cs ps (ground arith))

has_method-grow :
    (s t : Bytes) (ms : List Bytes) → has_method s ms ≡ true → has_method (s ++ t) ms ≡ true
unfolding has_method
has_method-grow s t [] e = cc
has_method-grow s t (m ∷ ms) e = elim (Bool-cases (starts_with s m)) [
  | inl here ↦ rw (starts_with-grow s t m (starts_with-length s m here), here)
  | inr other ↦ ground (arith, has_method-grow s t ms (rw other at e))
]

strchr-grow :
    (s t : Bytes) (c : ℕ) {r : Bytes} → strchr s c ≡ some r → strchr (s ++ t) c ≡ some (r ++ t)
unfolding strchr
strchr-grow [] t c e = cc
strchr-grow (x ∷ xs) t c e = elim (Bool-cases (x == c)) [
  | inl same ↦ rw (same, ← some_inj (rw same at e))
  | inr differs ↦ rw differs (strchr-grow xs t c (rw differs at e))
]

strstr-length : (s m : Bytes) {r : Bytes} → strstr s m ≡ some r → length m ≤ length s
unfolding strstr
strstr-length [] m e = cc
strstr-length (c ∷ cs) m e = elim (Bool-cases (starts_with (c ∷ cs) m)) [
  | inl here ↦ starts_with-length (c ∷ cs) m here
  | inr later ↦ omega (arith, strstr-length cs m (rw later at e))
]

strstr-grow : (s t m : Bytes) {r : Bytes} → strstr s m ≡ some r → strstr (s ++ t) m ≡ some (r ++ t)
unfolding strstr
strstr-grow [] t m e = cc
strstr-grow (c ∷ cs) t m e =
    let same = starts_with-grow (c ∷ cs) t m (unfold strstr in strstr-length (c ∷ cs) m e) in
    elim (Bool-cases (starts_with (c ∷ cs) m)) [
      | inl here ↦ rw (same, here, ← some_inj (rw here at e))
      | inr later ↦ rw (same, later) (strstr-grow cs t m (rw later at e))
    ]

find_ci-length :
    (s m : Bytes) {r : Bytes} → find_ci s m ≡ some r → (length m ≤ length r) × (length r ≤ length s)
unfolding find_ci
find_ci-length [] m e = cc
find_ci-length (c ∷ cs) m e = elim (Bool-cases (starts_with_ci (c ∷ cs) m)) [
  | inl here ↦ rw (← some_inj (rw here at e)) (starts_with_ci-length (c ∷ cs) m here, omega arith)
  | inr later ↦ omega (arith, find_ci-length cs m (rw later at e))
]

find_ci-grow :
    (s t m : Bytes) {r : Bytes} → find_ci s m ≡ some r → find_ci (s ++ t) m ≡ some (r ++ t)
unfolding find_ci
find_ci-grow [] t m e = cc
find_ci-grow (c ∷ cs) t m e =
    let same =
      starts_with_ci-grow (c ∷ cs) t m
        (unfold find_ci in omega (arith, find_ci-length (c ∷ cs) m e)) in
    elim (Bool-cases (starts_with_ci (c ∷ cs) m)) [
      | inl here ↦ rw (same, here, ← some_inj (rw here at e))
      | inr later ↦ rw (same, later) (find_ci-grow cs t m (rw later at e))
    ]

skip-grow : (n : ℕ) (s t : Bytes) → n ≤ length s → skip n (s ++ t) ≡ skip n s ++ t
skip-grow zero s t h = refl
skip-grow (suc n) [] t h = absurd (omega arith)
skip-grow (suc n) (c ∷ cs) t h = skip-grow n cs t (omega arith)

skip_spaces-grow :
    (s t : Bytes) → 0 < length (skip_spaces s) → skip_spaces (s ++ t) ≡ skip_spaces s ++ t
unfolding skip_spaces
skip_spaces-grow [] t h = absurd (omega arith)
skip_spaces-grow (c ∷ cs) t h = elim (Bool-cases (c == b' ')) [
  | inl blank ↦ rw blank (skip_spaces-grow cs t (rw blank at h))
  | inr other ↦ rw other
]

take-grow : (n : ℕ) (s t : Bytes) → n ≤ length s → take n (s ++ t) ≡ take n s
take-grow zero s t h = refl
take-grow (suc n) [] t h = absurd (omega arith)
take-grow (suc n) (c ∷ cs) t h = ap (◌∷◌ c) (take-grow n cs t (omega arith))

-- A text cut at a pointer into it.
cut-grow :
    (s r t : Bytes)
    → take (u16 (length (s ++ t) - length (r ++ t))) (s ++ t) ≡ take (u16 (length s - length r)) s
cut-grow s r t =
    let n : length (s ++ t) - length (r ++ t) ≡ length s - length r =
      omega (arith, length-append s t, length-append r t) in
    rw n (take-grow (u16 (length s - length r)) s t (omega arith))

strchr-length : (s : Bytes) (c : ℕ) {r : Bytes} → strchr s c ≡ some r → 1 ≤ length r
unfolding strchr
strchr-length [] c e = cc
strchr-length (x ∷ xs) c e = elim (Bool-cases (x == c)) [
  | inl same ↦ rw (← some_inj (rw same at e)) (omega arith)
  | inr differs ↦ strchr-length xs c (rw differs at e)
]

find_uri-grow : (s t uri : Bytes) → find_uri s ≡ some uri → find_uri (s ++ t) ≡ some uri
unfolding find_uri
find_uri-grow s t uri e =
    let (sp1, at1, e1) = >>=-eq-some (strchr s b' ') _ e in
    let (sp2, at2, e2) = >>=-eq-some (strchr (skip 1 sp1) b' ') _ e1 in
    rw
      (
        strchr-grow s t b' ' at1,
        skip-grow 1 sp1 t (strchr-length s b' ' at1),
        strchr-grow (skip 1 sp1) t b' ' at2,
        cut-grow (skip 1 sp1) sp2 t,
      )
      e2

find_host-grow : (s t host : Bytes) → find_host s ≡ some host → find_host (s ++ t) ≡ some host
unfolding find_host
find_host-grow s t host e =
    let (hdr, at1, e1) = >>=-eq-some (find_ci s host_header) _ e in
    let (end, at2, e2) = >>=-eq-some (strstr (skip_spaces (skip 7 hdr)) crlf) _ e1 in
    let value = skip 7 hdr in
    rw
      (
        find_ci-grow s t host_header at1,
        skip-grow 7 hdr t (omega (arith, find_ci-length s host_header at1)),
        skip_spaces-grow value t (omega (arith, strstr-length (skip_spaces value) crlf at2)),
        strstr-grow (skip_spaces value) t crlf at2,
        cut-grow (skip_spaces value) end t,
      )
      e2

-- What has been extracted from the beginning of a request stays when more of it arrives: the first
-- Host header and the text between the first two spaces do not depend on what follows them.
pub extract_http-append :
    (s t text : Bytes) → extract_http s ≡ some text → extract_http (s ++ t) ≡ some text
unfolding extract_http
extract_http-append s t text e =
    let (u, at0, e0) = >>=-eq-some (require (has_method s http_methods)) _ e in
    let (uri, at1, e1) = >>=-eq-some (find_uri s) _ e0 in
    let (host, at2, e2) = >>=-eq-some (find_host s) _ e1 in
    rw
      (
        has_method-grow s t http_methods (ground arith),
        find_uri-grow s t uri at1,
        find_host-grow s t host at2,
      )
      e2
