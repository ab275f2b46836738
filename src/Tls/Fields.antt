-- ===== src/Tls/Fields.antt =====
-- The walk to the extensions, step by step, and again on a longer prefix of the stream.
use hyper_dpi.Prelude.{
  ℕ, ◌+◌, ◌^◌, ◌≤◌, ◌<◌, ◌≡◌, ap, sym, ◌∙◌, some, some_inj, >>=-eq-some, require, u16, u32, Memory,
  be16, arith,
}
use hyper_dpi.Flow.{window}
use hyper_dpi.Packet.Bounds.{AgreeBelow}
use hyper_dpi.Packet.Classify.{IsBytes}
use hyper_dpi.Tls.{has, skip_field, fixed_fields, extensions}

-- A field that is skipped lies below `contig`, and is skipped alike with more data.
pub skip_field_lem :
    (contig contig' offset len o : ℕ)
    → contig ≤ contig'
    → contig' ≤ window
    → offset ≤ window
    → len < 2 ^ 16
    → skip_field contig offset len ≡ some o
    → (o ≡ offset + len) × (o ≤ contig) × (skip_field contig' offset len ≡ some o)
unfolding skip_field
skip_field_lem contig contig' offset len o h k p q e = ground arith

-- The walk to the extensions, from its steps.
pub extensions_run :
    (m : Memory) (k c d x : ℕ)
    → fixed_fields m k ≡ some tt
    → skip_field k 44 (m 43) ≡ some c
    → require (has k c 2) ≡ some tt
    → skip_field k (u16 (c + 2)) (be16 m c) ≡ some d
    → require (has k d 1) ≡ some tt
    → skip_field k (u16 (d + 1)) (m d) ≡ some x
    → require (has k x 2) ≡ some tt
    → require (has k (u16 (x + 2)) (be16 m x)) ≡ some tt
    → extensions m k ≡ some (u16 (x + 2), u32 (u16 (x + 2) + be16 m x))
unfolding extensions
extensions_run m k c d x p0 p1 p2 p3 p4 p5 p6 p7 =
    rw p0 (rw p1 (rw p2 (rw p3 (rw p4 (rw p5 (rw p6 (rw p7)))))))

module _ {buf buf' : Memory} {contig contig' : ℕ} (a : AgreeBelow contig buf buf')
    (bytes : IsBytes buf) (grow : contig ≤ contig') (small : contig' ≤ window) where
  pub fixed_fields_lem :
      fixed_fields buf contig ≡ some tt → (fixed_fields buf' contig' ≡ some tt) × (44 ≤ contig)
  unfolding fixed_fields
  fixed_fields_lem e = ground (arith, a 0, a 5)

  pub require-has :
      (offset len : ℕ)
      → offset + len < 2 ^ 32
      → require (has contig offset len) ≡ some tt
      → (offset + len ≤ contig) × (require (has contig' offset len) ≡ some tt)
  require-has offset len h e = ground arith

  pub be16-lt : (i : ℕ) → be16 buf i < 2 ^ 16
  be16-lt i = omega (arith, bytes i, bytes (i + 1))

  pub be16-AgreeBelow : (i : ℕ) → i + 2 ≤ contig → be16 buf i ≡ be16 buf' i
  be16-AgreeBelow i h = omega (arith, a i (omega arith), a (i + 1) (omega arith))

  -- One field with its length before it, skipped alike.
  pub skip_again :
      (offset len len' o : ℕ)
      → offset ≤ window
      → len < 2 ^ 16
      → len ≡ len'
      → skip_field contig offset len ≡ some o
      → (o ≡ offset + len) × (o ≤ contig) × (skip_field contig' offset len' ≡ some o)
  skip_again offset len len' o p q same e =
      rw (← same) (skip_field_lem contig contig' offset len o grow small p q e)

  extensions_end :
      (o e x : ℕ)
      → x + 2 ≤ contig
      → u16 (x + 2) + be16 buf x ≤ contig
      → ◌≡◌ {A = ℕ × ℕ} (u16 (x + 2), u32 (u16 (x + 2) + be16 buf x)) (o, e)
      → extensions buf' contig' ≡ some (u16 (x + 2), u32 (u16 (x + 2) + be16 buf' x))
      → (o ≤ e) × (e ≤ contig) × (extensions buf' contig' ≡ some (o, e))
  extensions_end o e x h k eq run =
      let first : u16 (x + 2) ≡ o = ap (λ (t : ℕ × ℕ). t.0) eq in
      let second : u32 (u16 (x + 2) + be16 buf x) ≡ e = ap (λ (t : ℕ × ℕ). t.1) eq in
      (
        omega arith,
        omega arith,
        run
            ∙ ap (λ n. some (u16 (x + 2), u32 (u16 (x + 2) + n))) (sym (be16-AgreeBelow x h))
            ∙ ap some eq,
      )

  pub extensions-stable :
      (o e : ℕ)
      → extensions buf contig ≡ some (o, e)
      → (o ≤ e) × (e ≤ contig) × (extensions buf' contig' ≡ some (o, e))
  unfolding extensions
  extensions-stable o e eq =
      let (u0, p0, e0) = >>=-eq-some (fixed_fields buf contig) _ eq in
      let f = fixed_fields_lem p0 in
      let (c, p1, e1) = >>=-eq-some (skip_field contig 44 (buf 43)) _ e0 in
      let s1 =
        skip_again 44 (buf 43) (buf' 43) c (omega arith) (omega (arith, bytes 43))
          (a 43 (omega (arith, f.1))) p1 in
      let (u2, p2, e2) = >>=-eq-some (require (has contig c 2)) _ e1 in
      let n2 = require-has c 2 (omega (arith, s1.1)) p2 in
      let (d, p3, e3) = >>=-eq-some (skip_field contig (u16 (c + 2)) (be16 buf c)) _ e2 in
      let s3 =
        skip_again (u16 (c + 2)) (be16 buf c) (be16 buf' c) d (omega (arith, n2.0)) (be16-lt c)
          (be16-AgreeBelow c n2.0) p3 in
      let (u4, p4, e4) = >>=-eq-some (require (has contig d 1)) _ e3 in
      let n4 = require-has d 1 (omega (arith, s3.1)) p4 in
      let (x, p5, e5) = >>=-eq-some (skip_field contig (u16 (d + 1)) (buf d)) _ e4 in
      let s5 =
        skip_again (u16 (d + 1)) (buf d) (buf' d) x (omega (arith, n4.0)) (omega (arith, bytes d))
          (a d (omega (arith, n4.0))) p5 in
      let (u6, p6, e6) = >>=-eq-some (require (has contig x 2)) _ e5 in
      let n6 = require-has x 2 (omega (arith, s5.1)) p6 in
      let (u7, p7, e7) = >>=-eq-some (require (has contig (u16 (x + 2)) (be16 buf x))) _ e6 in
      let n7 = require-has (u16 (x + 2)) (be16 buf x) (omega (arith, n6.0, be16-lt x)) p7 in
      extensions_end o e x n6.0 n7.0 (some_inj e7) (
        extensions_run buf' contig' c d x f.0 s1.2 n2.1 s3.2 n4.1 s5.2 n6.1
          (rw (← be16-AgreeBelow x n6.0) n7.1))
