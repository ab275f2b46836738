-- ===== src/Tls/Hello/RoundTrip.antt =====
-- `try_extract_tls_sni` reads back what the wire format puts there, and waits for all of it.
use hyper_dpi.Prelude.{
  ℕ, ◌+◌, ◌≤◌, ◌<◌, ◌≡◌, refl, ap, sym, ◌∙◌, ltb, Option, none, some, some_inj, Bool-cases, inl,
  inr, [], ◌∷◌, ◌++◌, Bytes, length, length-append, Memory, be16, arith, if◌then◌else◌,
}
use hyper_dpi.Flow.{window}
use hyper_dpi.Packet.Bounds.{AgreeBelow}
use hyper_dpi.Packet.Classify.{IsBytes}
use hyper_dpi.Tls.{pending, skip_field, fixed_fields, extensions, with_extensions, extract_tls_sni}
use hyper_dpi.Tls.Fields.{extensions_run, extensions-stable}
use hyper_dpi.Tls.Hello.{Hello, Fits, encode, encode_extensions, put16, name_of, Holds}
use hyper_dpi.Tls.Hello.Parts.{Holds-move, Holds-append, be16-put16, walk-Holds}

-- Where the parts of the encoding stand.
abbrev ciphers_at : Hello → ℕ
ciphers_at h = 44 + length h.session_id

abbrev compression_at : Hello → ℕ
compression_at h = ciphers_at h + 2 + length h.ciphers

abbrev block_at : Hello → ℕ
block_at h = compression_at h + 1 + length h.compression

abbrev block_len : Hello → ℕ
block_len h = length (encode_extensions h.extensions)

length-encode : (h : Hello) → Fits h → length (encode h) ≡ block_at h + 2 + block_len h
length-encode h f = omega (arith, length-append {0} {A = ℕ})

module _ (buf : Memory) (h : Hello) (f : Fits h) (holds : Holds buf 0 (encode h)) where
  -- What stands at the fields that the source reads.
  record Fields : Type 0 where
    type_byte : buf 0 ≡ 0x16
    handshake : buf 5 ≡ 0x01
    session : buf 43 ≡ length h.session_id
    ciphers : be16 buf (ciphers_at h) ≡ length h.ciphers
    compression : buf (compression_at h) ≡ length h.compression
    block : be16 buf (block_at h) ≡ block_len h
    body : Holds buf (block_at h + 2) (encode_extensions h.extensions)

  fields_lem : Fields
  fields_lem =
      let exts = encode_extensions h.extensions in
      let t5 = put16 (length exts) exts in
      let t4 = length h.compression ∷ (h.compression ++ t5) in
      let t3 = put16 (length h.ciphers) (h.ciphers ++ t4) in
      let t2 = length h.session_id ∷ (h.session_id ++ t3) in
      let t1 = 0x01 ∷ (h.handshake_len ++ (h.version_random ++ t2)) in
      let p1 =
        Holds-move buf t1 (1 + length h.record_rest) 5 (omega (arith, f.record_rest))
          (Holds-append buf h.record_rest t1 1 holds.1) in
      let q1 = Holds-append buf h.handshake_len (h.version_random ++ t2) 6 p1.1 in
      let p2 =
        Holds-move buf t2 (6 + length h.handshake_len + length h.version_random) 43
          (omega (arith, f.handshake_len, f.version_random))
          (Holds-append buf h.version_random t2 (6 + length h.handshake_len) q1) in
      let p3 = Holds-append buf h.session_id t3 44 p2.1 in
      let c = be16-put16 buf (length h.ciphers) (h.ciphers ++ t4) (ciphers_at h) p3 in
      let p4 = Holds-append buf h.ciphers t4 (ciphers_at h + 2) c.1 in
      let p5 = Holds-append buf h.compression t5 (compression_at h + 1) p4.1 in
      let b = be16-put16 buf (length exts) exts (block_at h) p5 in
      record {
        type_byte = holds.0;
        handshake = p1.0;
        session = p2.0;
        ciphers = c.0;
        compression = p4.0;
        block = b.0;
        body = b.1;
      }

  module _ (contig : ℕ) (whole : length (encode h) ≤ contig) (small : contig ≤ window) where
    extensions-encode : extensions buf contig ≡ some (block_at h + 2, block_at h + 2 + block_len h)
    unfolding fixed_fields skip_field
    extensions-encode =
        let g = fields_lem in
        let len = length-encode h f in
        extensions_run buf contig (ciphers_at h) (compression_at h) (block_at h)
          (ground (arith, g.type_byte, g.handshake, len)) (ground (arith, g.session, len))
          (ground (arith, len)) (ground (arith, g.ciphers, len)) (ground (arith, len))
          (ground (arith, g.compression, len)) (ground (arith, len)) (ground (arith, g.block, len))
        ∙ rw g.block (ground (arith, len))

    whole_hello : extract_tls_sni buf contig ≡ name_of h.extensions
    unfolding extract_tls_sni with_extensions
    whole_hello = rw extensions-encode (
        walk-Holds buf contig (block_at h + 2 + block_len h) (omega (arith, length-encode h f))
          small h.extensions _ (block_at h + 2) f.extensions (fields_lem).body refl (omega arith))

Holds-AgreeBelow :
    (n : ℕ) (buf full : Memory) (xs : Bytes) (i : ℕ)
    → AgreeBelow n buf full
    → i + length xs ≤ n
    → Holds full i xs
    → Holds buf i xs
Holds-AgreeBelow n buf full [] i a le h = tt
Holds-AgreeBelow n buf full (x ∷ xs) i a le (e, h) =
    (a i (omega arith) ∙ e, Holds-AgreeBelow n buf full xs (i + 1) a (omega arith) h)

-- While part of the hello is missing, the extensions are not found.
extensions-part :
    (buf full : Memory) (h : Hello) (contig : ℕ)
    → Fits h
    → Holds full 0 (encode h)
    → IsBytes buf
    → AgreeBelow contig buf full
    → length (encode h) ≤ window
    → contig < length (encode h)
    → (o : Option (ℕ × ℕ)) → extensions buf contig ≡ o
    → o ≡ none
extensions-part buf full h contig f holds bytes a small part none e = refl
extensions-part buf full h contig f holds bytes a small part (some (o, x)) e =
    let (order, inside, again) = extensions-stable a bytes (omega arith) small o x e in
    let whole = extensions-encode full h f holds (length (encode h)) (omega arith) small in
    let same : block_at h + 2 + block_len h ≡ x =
      ap (λ (t : ℕ × ℕ). t.1) (some_inj (sym whole ∙ again)) in
    absurd (omega (arith, length-encode h f))

-- A buffer whose gap-free prefix is a part of the stream that starts with an encoded ClientHello
-- gives PENDING as long as the prefix is shorter than the hello, and from then on the first server
-- name among its extensions, behind `HOST://`, up to a NUL and cut to 511 bytes, or NOT_PRESENT if
-- no extension is a server name. The hello is of at most 4095 bytes, and its lengths fit their
-- fields.
pub extract_tls_sni-encode :
    (buf full : Memory) (h : Hello) (contig : ℕ)
    → Fits h
    → Holds full 0 (encode h)
    → IsBytes buf
    → AgreeBelow contig buf full
    → length (encode h) ≤ window
    → contig ≤ window
    → extract_tls_sni buf contig
      ≡ (if ltb contig (length (encode h)) then pending else name_of h.extensions)
unfolding extract_tls_sni with_extensions
extract_tls_sni-encode buf full h contig f holds bytes a small small' =
    elim (Bool-cases (ltb contig (length (encode h)))) [
      | inl part ↦
          rw (part, extensions-part buf full h contig f holds bytes a small (ground arith) _ refl)
      | inr whole ↦ rw whole (
          whole_hello buf h f (Holds-AgreeBelow contig buf full (encode h) 0 a (ground arith) holds)
            contig (ground arith) small')
    ]
