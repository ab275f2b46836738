-- ===== src/Tls/Hello.antt =====
-- The wire format of a ClientHello in one record (RFC 8446, section 4.1.2), as the description that
-- `try_extract_tls_sni` is held against.
pub mod Parts
pub mod RoundTrip
use hyper_dpi.Prelude.{
  ℕ, zero, suc, ◌+◌, ◌/◌, ◌%◌, ◌^◌, ◌≤◌, ◌<◌, ◌≡◌, ◌==◌, if◌then◌else◌, List, [], ◌∷◌, ◌++◌, Bytes,
  length, Memory,
}
use hyper_dpi.Http.{scan_text}
use hyper_dpi.Tls.{SniResult, not_present, found, host_scheme}

-- An extension: a server name of type host_name, or one of another type.
pub data Extension : Type 0 where
  sni : Bytes → Extension
  other : (type : ℕ) (body : Bytes) → Extension

pub record Hello : Type 0 where
  pub record_rest : Bytes
  pub handshake_len : Bytes
  pub version_random : Bytes
  pub session_id : Bytes
  pub ciphers : Bytes
  pub compression : Bytes
  pub extensions : List Extension

-- A 16-bit number, high byte first, before `rest`.
abbrev pub put16 : ℕ → Bytes → Bytes
put16 n rest = (n / 256) ∷ (n % 256) ∷ rest

abbrev pub encode_extension : Extension → Bytes → Bytes
encode_extension (sni name) rest =
    put16 0
      (put16 (length name + 5) (put16 (length name + 3) (0 ∷ put16 (length name) (name ++ rest))))
encode_extension (other type body) rest = put16 type (put16 (length body) (body ++ rest))

abbrev pub encode_extensions : List Extension → Bytes
encode_extensions [] = []
encode_extensions (e ∷ es) = encode_extension e (encode_extensions es)

abbrev pub encode : Hello → Bytes
encode h =
    let exts = encode_extensions h.extensions in
    0x16
    ∷ (h.record_rest
        ++ 0x01
          ∷ (h.handshake_len
              ++ (h.version_random
                  ++ length h.session_id
                    ∷ (h.session_id
                        ++ put16 (length h.ciphers) (
                            h.ciphers
                            ++ length h.compression
                              ∷ (h.compression ++ put16 (length exts) exts))))))

-- The lengths fit their fields, and another extension is not of type server_name.
abbrev pub ExtensionFits : Extension → Type 0
ExtensionFits (sni name) = length name + 5 < 2 ^ 16
ExtensionFits (other type body) = (0 < type) × (type < 2 ^ 16) × (length body < 2 ^ 16)

abbrev pub ExtensionsFit : List Extension → Type 0
ExtensionsFit [] = Unit {0}
ExtensionsFit (e ∷ es) = ExtensionFits e × ExtensionsFit es

pub record Fits (h : Hello) : Type 0 where
  pub record_rest : length h.record_rest ≡ 4
  pub handshake_len : length h.handshake_len ≡ 3
  pub version_random : length h.version_random ≡ 34
  pub session_id : length h.session_id < 256
  pub ciphers : length h.ciphers < 2 ^ 16
  pub compression : length h.compression < 256
  pub block : length (encode_extensions h.extensions) < 2 ^ 16
  pub extensions : ExtensionsFit h.extensions

-- The text up to its first NUL, which is where the source's `snprintf` stops.
abbrev pub until_nul : Bytes → Bytes
until_nul [] = []
until_nul (c ∷ cs) = if c == 0 then [] else c ∷ until_nul cs

-- The name of the first server_name extension, if there is one.
abbrev pub name_of : List Extension → SniResult
name_of [] = not_present
name_of (sni name ∷ es) = found (scan_text (host_scheme ++ until_nul name))
name_of (other type body ∷ es) = name_of es

-- The memory holds these bytes from index `i` on.
abbrev pub Holds : Memory → ℕ → Bytes → Type 0
Holds buf i [] = Unit {0}
Holds buf i (x ∷ xs) = (buf i ≡ x) × Holds buf (i + 1) xs
