-- ===== src/Tls/Stable.antt =====
-- A verdict on a ClientHello, once reached, does not depend on what lies behind the bytes that were
-- there, nor on bytes that arrive later.
use hyper_dpi.Prelude.{
  ℕ, zero, suc, ◌+◌, ◌≤◌, ◌≡◌, ◌≢◌, refl, ap, sym, ◌==◌, leb, Option, none, some, some_inj,
  >>=-eq-some, require, Bool-cases, inl, inr, u16, u32, Memory, be16, arith,
}
use hyper_dpi.Flow.{window}
use hyper_dpi.Packet.Bounds.{AgreeBelow}
use hyper_dpi.Packet.Classify.{IsBytes}
use hyper_dpi.Http.{c_string}
use hyper_dpi.Tls.{
  SniResult, pending, has, extensions, name_at, with_name, ext_at, on_ext, with_extensions,
  server_name, walk, extract_tls_sni,
}
use hyper_dpi.Tls.Fields.{require-has, be16-lt, be16-AgreeBelow, extensions-stable}

module _ {buf buf' : Memory} {contig contig' : ℕ} (a : AgreeBelow contig buf buf')
    (bytes : IsBytes buf) (grow : contig ≤ contig') (small : contig' ≤ window) where
  c_string-AgreeBelow : (i n : ℕ) → i + n ≤ contig → c_string buf i n ≡ c_string buf' i n
  unfolding c_string
  c_string-AgreeBelow i zero h = refl
  c_string-AgreeBelow i (suc n) h =
      rw (a i (omega arith), c_string-AgreeBelow (i + 1) n (omega arith))

  name_at-stable :
      (offset p n : ℕ)
      → offset ≤ window
      → name_at buf contig offset ≡ some (p, n)
      → (p + n ≤ contig) × (name_at buf' contig' offset ≡ some (p, n))
  unfolding name_at
  name_at-stable offset p n h eq =
      let (u0, p0, e0) = >>=-eq-some (require (has contig offset 2)) _ eq in
      let n0 = require-has a bytes grow small offset 2 (omega arith) p0 in
      let (u1, p1, e1) = >>=-eq-some (require (has contig (u16 (offset + 2)) 3)) _ e0 in
      let n1 = require-has a bytes grow small (u16 (offset + 2)) 3 (omega arith) p1 in
      let (u2, p2, e2) = >>=-eq-some (require (buf (u16 (offset + 2)) == 0)) _ e1 in
      let at = u16 (u16 (offset + 2) + 3) in
      let len = be16 buf (u16 (offset + 2) + 1) in
      let (u3, p3, e3) = >>=-eq-some (require (has contig at len)) _ e2 in
      let n3 =
        require-has a bytes grow small at len
          (omega (arith, n1.0, be16-lt a bytes grow small (u16 (offset + 2) + 1))) p3 in
      let same = be16-AgreeBelow a bytes grow small (u16 (offset + 2) + 1) (omega (arith, n1.0)) in
      let at_p : at ≡ p = ap (λ (t : ℕ × ℕ). t.0) (some_inj e3) in
      let at_n : len ≡ n = ap (λ (t : ℕ × ℕ). t.1) (some_inj e3) in
      (
        omega (arith, n1.0, n3.0),
        rw (n0.1, n1.1, ← a (u16 (offset + 2)) (omega (arith, n1.0)), p2, ← same, n3.1) e3,
      )

  with_name-stable :
      (offset : ℕ) (o : Option (ℕ × ℕ)) (r : SniResult)
      → offset ≤ window
      → name_at buf contig offset ≡ o
      → r ≢ pending
      → with_name buf o ≡ r
      → server_name buf' contig' offset ≡ r
  unfolding server_name with_name
  with_name-stable offset none r h at ne e = absurd (ne (sym e))
  with_name-stable offset (some (p, n)) r h at ne e =
      let (inside, again) = name_at-stable offset p n h at in
      rw again (rw (← c_string-AgreeBelow p n inside) e)

  server_name-stable :
      (offset : ℕ) (r : SniResult)
      → offset ≤ window
      → r ≢ pending
      → server_name buf contig offset ≡ r
      → server_name buf' contig' offset ≡ r
  unfolding server_name
  server_name-stable offset r h ne e =
      with_name-stable offset (name_at buf contig offset) r h refl ne e

  pub ext_at-stable :
      (ext_end offset t b l : ℕ)
      → ext_end ≤ contig
      → offset ≤ window
      → ext_at buf contig ext_end offset ≡ some (t, b, l)
      → (b + l ≤ contig) × (ext_at buf' contig' ext_end offset ≡ some (t, b, l))
  unfolding ext_at
  ext_at-stable ext_end offset t b l small_end h eq =
      let (u0, p0, e0) = >>=-eq-some (require (has contig offset 4)) _ eq in
      let n0 = require-has a bytes grow small offset 4 (omega arith) p0 in
      let body = u16 (offset + 4) in
      let len = be16 buf (offset + 2) in
      let (u1, p1, e1) = >>=-eq-some (require (has contig body len)) _ e0 in
      let n1 =
        require-has a bytes grow small body len
          (omega (arith, n0.0, be16-lt a bytes grow small (offset + 2))) p1 in
      let (u2, p2, e2) = >>=-eq-some (require (leb (u32 (body + len)) ext_end)) _ e1 in
      let at_b : body ≡ b = ap (λ (t : ℕ × ℕ × ℕ). t.1) (some_inj e2) in
      let at_l : len ≡ l = ap (λ (t : ℕ × ℕ × ℕ). t.2) (some_inj e2) in
      (
        omega (arith, n1.0),
        rw
            (
              n0.1,
              ← be16-AgreeBelow a bytes grow small (offset + 2) (omega (arith, n0.0)),
              n1.1,
              p2,
              ← be16-AgreeBelow a bytes grow small offset (omega (arith, n0.0)),
            )
            e2,
      )

  on_ext-stable :
      (ext_end offset : ℕ) (next next' : ℕ → SniResult) (o : Option (ℕ × ℕ × ℕ)) (r : SniResult)
      → ext_end ≤ contig
      → offset ≤ window
      → ((i : ℕ) → i ≤ window → next i ≡ r → next' i ≡ r)
      → ext_at buf contig ext_end offset ≡ o
      → r ≢ pending
      → on_ext buf contig next o ≡ r
      → on_ext buf' contig' next' (ext_at buf' contig' ext_end offset) ≡ r
  unfolding on_ext
  on_ext-stable ext_end offset next next' none r h p ih at ne e = absurd (ne (sym e))
  on_ext-stable ext_end offset next next' (some (t, b, l)) r h p ih at ne e =
      let (inside, again) = ext_at-stable ext_end offset t b l h p at in
      rw again (elim (Bool-cases (t == 0)) [
        | inl name ↦ rw name (server_name-stable b r (omega arith) ne (rw name at e))
        | inr other ↦ rw other (ih (u16 (b + l)) (omega arith) (rw other at e))
      ])

  walk-stable :
      (n ext_end offset : ℕ) (r : SniResult)
      → ext_end ≤ contig
      → offset ≤ window
      → r ≢ pending
      → walk n buf contig ext_end offset ≡ r
      → walk n buf' contig' ext_end offset ≡ r
  unfolding walk
  walk-stable zero ext_end offset r h p ne e = absurd (ne (sym e))
  walk-stable (suc n) ext_end offset r h p ne e =
      elim (Bool-cases (leb (u32 (offset + 4)) ext_end)) [
        | inl inside ↦ rw inside (
            on_ext-stable ext_end offset (walk n buf contig ext_end) (walk n buf' contig' ext_end)
              (ext_at buf contig ext_end offset) r h p (λ i k f. walk-stable n ext_end i r h k ne f)
              refl ne (rw inside at e))
        | inr stop ↦ rw stop (rw stop at e)
      ]

  with_extensions-stable :
      (o : Option (ℕ × ℕ)) (r : SniResult)
      → extensions buf contig ≡ o
      → r ≢ pending
      → with_extensions buf contig o ≡ r
      → extract_tls_sni buf' contig' ≡ r
  unfolding with_extensions extract_tls_sni
  with_extensions-stable none r at ne e = absurd (ne (sym e))
  with_extensions-stable (some (o, x)) r at ne e =
      let (order, inside, again) = extensions-stable a bytes grow small o x at in
      rw again (walk-stable (suc x) x o r inside (omega arith) ne e)

-- A verdict stays when more of the stream arrives, and depends on no byte behind the ones that it
-- was reached from: if the first `contig` bytes, at most 4095, gave a server name, or gave that
-- there is none, then every buffer that starts with the same bytes gives the same, whatever the
-- length of its gap-free prefix from there up to 4095.
pub extract_tls_sni-stable :
    (buf buf' : Memory) (contig contig' : ℕ) (r : SniResult)
    → AgreeBelow contig buf buf'
    → IsBytes buf
    → contig ≤ contig'
    → contig' ≤ window
    → r ≢ pending
    → extract_tls_sni buf contig ≡ r
    → extract_tls_sni buf' contig' ≡ r
unfolding extract_tls_sni
extract_tls_sni-stable buf buf' contig contig' r a bytes grow small ne e =
    with_extensions-stable a bytes grow small (extensions buf contig) r refl ne e
