-- ===== src/Tls/Hello/Parts.antt =====
-- Reading the parts of an encoded ClientHello.
use hyper_dpi.Prelude.{
  ℕ, zero, suc, ◌+◌, ◌≤◌, ◌<◌, ◌≡◌, refl, ap, subst, true, false, ◌==◌, leb, some, List, [], ◌∷◌,
  ◌++◌, Bytes, length, length-append, Memory, be16, u16, u32, arith,
}
use hyper_dpi.Flow.{window}
use hyper_dpi.Http.{c_string, scan_text}
use hyper_dpi.Tls.{found, name_at, with_name, server_name, ext_at, on_ext, walk, host_scheme}
use hyper_dpi.Tls.Hello.{
  Extension, sni, other, put16, encode_extensions, ExtensionsFit, until_nul, name_of, Holds,
}

module _ (buf : Memory) where
  pub Holds-move : (xs : Bytes) (i j : ℕ) → i ≡ j → Holds buf i xs → Holds buf j xs
  Holds-move xs i j e h = subst (λ k. Holds buf k xs) e h

  pub Holds-append : (xs ys : Bytes) (i : ℕ) → Holds buf i (xs ++ ys) → Holds buf (i + length xs) ys
  Holds-append [] ys i h = Holds-move ys i (i + 0) (omega arith) h
  Holds-append (x ∷ xs) ys i h =
      Holds-move ys (i + 1 + length xs) (i + suc (length xs)) (omega arith)
        (Holds-append xs ys (i + 1) h.1)

  pub be16-put16 :
      (n : ℕ) (rest : Bytes) (i : ℕ)
      → Holds buf i (put16 n rest)
      → (be16 buf i ≡ n) × Holds buf (i + 2) rest
  be16-put16 n rest i (h, (k, r)) =
      (omega arith, Holds-move rest (i + 1 + 1) (i + 2) (omega arith) r)

  c_string-Holds :
      (name rest : Bytes) (i : ℕ)
      → Holds buf i (name ++ rest)
      → c_string buf i (length name) ≡ until_nul name
  unfolding c_string
  c_string-Holds [] rest i h = refl
  c_string-Holds (c ∷ cs) rest i (e, h) = rw (e, c_string-Holds cs rest (i + 1) h)

  module _ (contig ext_end : ℕ) (inside : ext_end ≤ contig) (small : contig ≤ window) where
    ext_at-Holds :
        (i type len : ℕ) (rest : Bytes)
        → i + 4 + len ≤ ext_end
        → Holds buf i (put16 type (put16 len rest))
        → (ext_at buf contig ext_end i ≡ some (type, i + 4, len)) × Holds buf (i + 4) rest
    unfolding ext_at
    ext_at-Holds i type len rest le h =
        let t = be16-put16 type (put16 len rest) i h in
        let l = be16-put16 len rest (i + 2) t.1 in
        (ground (arith, t.0, l.0), Holds-move rest (i + 2 + 2) (i + 4) (omega arith) l.1)

    server_name-Holds :
        (i : ℕ) (name rest : Bytes)
        → i + 5 + length name ≤ ext_end
        → Holds buf i (put16 (length name + 3) (0 ∷ put16 (length name) (name ++ rest)))
        → server_name buf contig i ≡ found (scan_text (host_scheme ++ until_nul name))
    unfolding server_name with_name name_at
    server_name-Holds i name rest le h =
        let l = be16-put16 (length name + 3) (0 ∷ put16 (length name) (name ++ rest)) i h in
        let n = be16-put16 (length name) (name ++ rest) (i + 2 + 1) l.1.1 in
        let at : name_at buf contig i ≡ some (i + 5, length name) = ground (arith, l.1.0, n.0) in
        rw at (
          ap (λ t. found (scan_text (host_scheme ++ t)))
            (c_string-Holds name rest (i + 5)
              (Holds-move (name ++ rest) (i + 2 + 1 + 2) (i + 5) (omega arith) n.1)))

    pub walk-Holds :
        (es : List Extension) (n i : ℕ)
        → ExtensionsFit es
        → Holds buf i (encode_extensions es)
        → i + length (encode_extensions es) ≡ ext_end
        → length (encode_extensions es) < n
        → walk n buf contig ext_end i ≡ name_of es
    unfolding walk on_ext
    walk-Holds es zero i f h e k = absurd (omega arith)
    walk-Holds [] (suc n) i f h e k = ground arith
    walk-Holds (sni name ∷ es) (suc n) i (f, fs) h e k =
        let rest = encode_extensions es in
        let len = length-append {0} name rest in
        let tail = put16 (length name + 3) (0 ∷ put16 (length name) (name ++ rest)) in
        let (at, body) = ext_at-Holds i 0 (length name + 5) tail (omega (arith, len)) h in
        let more : leb (u32 (i + 4)) ext_end ≡ true = ground (arith, len) in
        rw (more, at) (server_name-Holds (i + 4) name rest (omega (arith, len)) body)
    walk-Holds (other type body ∷ es) (suc n) i (f, fs) h e k =
        let rest = encode_extensions es in
        let len = length-append {0} body rest in
        let (at, there) = ext_at-Holds i type (length body) (body ++ rest) (omega (arith, len)) h in
        let more : leb (u32 (i + 4)) ext_end ≡ true = ground (arith, len) in
        let named : (type == 0) ≡ false = ground arith in
        let next : u16 (i + 4 + length body) ≡ i + 4 + length body = omega (arith, len) in
        rw (more, at, named, next)
          (walk-Holds es n (i + 4 + length body) fs (Holds-append body rest (i + 4) there)
            (omega (arith, len)) (omega (arith, len)))
