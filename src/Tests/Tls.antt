-- ===== src/Tests/Tls.antt =====
-- A ClientHello.
use hyper_dpi.Prelude.{
  ℕ, zero, suc, ◌+◌, ap, ◌∙◌, true, ◌&&◌, ◌≡◌, ◌<◌, refl, Bool, Bytes, [], ◌∷◌, ◌++◌, codes, arith,
  length, get_or, Memory, if◌then◌else◌, ltb,
}
use hyper_dpi.Tls.{pending, found, extract_tls_sni}
use hyper_dpi.Tls.Hello.{Hello, sni, other, encode, Fits, Holds, name_of}
use hyper_dpi.Tls.Hello.RoundTrip.{extract_tls_sni-encode}
use hyper_dpi.Tls.Stable.{extract_tls_sni-stable}
use hyper_dpi.Packet.Classify.{IsBytes}

abbrev zeros : Bytes
zeros = 0 ∷ 0 ∷ 0 ∷ 0 ∷ 0 ∷ 0 ∷ 0 ∷ 0 ∷ 0 ∷ 0 ∷ 0 ∷ 0 ∷ 0 ∷ 0 ∷ 0 ∷ 0 ∷ 0 ∷ []

abbrev pub hello : Hello
hello = record {
  record_rest = 3 ∷ 1 ∷ 0 ∷ 64 ∷ [];
  handshake_len = 0 ∷ 0 ∷ 60 ∷ [];
  version_random = zeros ++ zeros;
  session_id = [];
  ciphers = 0x13 ∷ 1 ∷ [];
  compression = 0 ∷ [];
  extensions = other 10 (7 ∷ []) ∷ sni (codes "a.b") ∷ [];
}

pub hello-Fits : Fits hello
hello-Fits = record {
  record_rest = refl;
  handshake_len = refl;
  version_random = refl;
  session_id = omega arith;
  ciphers = omega arith;
  compression = omega arith;
  block = omega arith;
  extensions = ((omega arith, omega arith, omega arith), (omega arith, tt));
}

abbrev pub stream : Memory
stream i = get_or (encode hello) i 0

abbrev pub all_bytes : Bytes → Bool
all_bytes [] = true
all_bytes (x ∷ xs) = ltb x 256 && all_bytes xs

pub get_or-lt : (xs : Bytes) → all_bytes xs ≡ true → (i : ℕ) → get_or xs i 0 < 256
get_or-lt [] a i = omega arith
get_or-lt (x ∷ xs) a zero = ground arith
get_or-lt (x ∷ xs) a (suc i) = get_or-lt xs (ground arith) i

holds :
    (xs : Bytes) (m : Memory) (i : ℕ)
    → ((j : ℕ) → j < length xs → m (i + j) ≡ get_or xs j 0)
    → Holds m i xs
holds [] m i h = tt
holds (x ∷ xs) m i h = (
  ap m (omega arith) ∙ h 0 (omega arith),
  holds xs m (i + 1) (λ j lt. ap m (omega arith) ∙ h (suc j) (omega arith)),
)

pub stream-Holds : Holds stream 0 (encode hello)
stream-Holds = holds (encode hello) stream 0 (λ j lt. ap stream {x = 0 + j} {y = j} (omega arith))

pub stream-IsBytes : IsBytes stream
stream-IsBytes = get_or-lt (encode hello) refl

extract_tls_sni-encode_example :
    extract_tls_sni stream 70
    ≡ (if ltb 70 (length (encode hello)) then pending else name_of hello.extensions)
extract_tls_sni-encode_example =
    extract_tls_sni-encode stream stream hello 70 hello-Fits stream-Holds stream-IsBytes
      (λ i h. refl) (omega arith) (omega arith)

-- The hello is cut behind its server name by one more packet.
abbrev longer : Memory
longer i = if ltb i 69 then stream i else 9

extract_tls_sni-stable_example : extract_tls_sni longer 80 ≡ found (codes "HOST://a.b")
extract_tls_sni-stable_example =
    extract_tls_sni-stable stream longer 69 80 (found (codes "HOST://a.b")) (λ i h. ground arith)
      stream-IsBytes (omega arith) (omega arith) (λ e. cc)
      (extract_tls_sni-encode stream stream hello 69 hello-Fits stream-Holds stream-IsBytes
        (λ i h. refl) (omega arith) (omega arith))
