-- ===== src/Http/Complete.antt =====
-- Every request of the expected shape is extracted.
use hyper_dpi.Prelude.{
  ◌^◌, ◌<◌, ◌≡◌, ◌≢◌, refl, ap, ◌∙◌, true, false, ◌==◌, some, [], ◌∷◌, ◌++◌, Bytes, length, arith,
}
use hyper_dpi.Http.{
  starts_with, starts_with_ci, find_ci, skip, skip_spaces, find_uri, find_host, http_methods, crlf,
  host_header, http_scheme, scan_text, has_method, extract_http,
}
use hyper_dpi.Http.Sound.{IsUri, IsHost, take_between, length-suffix, length-skip}
use hyper_dpi.Http.Strings.{strchr-append, strstr-append, find_ci-append, skip_spaces-append}

find_uri_complete :
    (buf uri : Bytes) → length buf < 2 ^ 16 → IsUri buf uri → find_uri buf ≡ some uri
unfolding find_uri
find_uri_complete buf uri h v =
    rw
      (
        v.splits,
        strchr-append v.method (uri ++ b' ' ∷ v.rest) b' ' v.method_clear,
        strchr-append uri v.rest b' ' v.uri_clear,
      )
      (ap some (
        take_between uri (b' ' ∷ v.rest) (uri ++ b' ' ∷ v.rest) refl
          (omega (arith, length-suffix v.method (b' ' ∷ (uri ++ b' ' ∷ v.rest)) buf v.splits))))

-- The value does not start with a space.
abbrev pub NoSpace : Bytes → Type 0
NoSpace [] = Unit {0}
NoSpace (c ∷ cs) = (c == b' ') ≡ false

skip_spaces_self :
    (host rest : Bytes)
    → NoSpace host
    → starts_with rest crlf ≡ true
    → skip_spaces (host ++ rest) ≡ host ++ rest
unfolding skip_spaces starts_with
skip_spaces_self [] [] n e = refl
skip_spaces_self [] (c ∷ cs) n e = ground arith
skip_spaces_self (c ∷ cs) rest n e = rw n

starts_with_ne_nil : (s : Bytes) → starts_with s crlf ≡ true → s ≢ []
unfolding starts_with
starts_with_ne_nil [] e = cc
starts_with_ne_nil (c ∷ cs) e = λ p. cc

starts_with_ci_ne_nil : (s : Bytes) → starts_with_ci s host_header ≡ true → s ≢ []
unfolding starts_with_ci
starts_with_ci_ne_nil [] e = cc
starts_with_ci_ne_nil (c ∷ cs) e = λ p. cc

find_host_complete :
    (buf host : Bytes)
    → length buf < 2 ^ 16
    → NoSpace host
    → IsHost buf host
    → find_host buf ≡ some host
unfolding find_host
find_host_complete buf host h n v =
    let found : find_ci buf host_header ≡ some v.header = rw v.splits (
      find_ci-append host_header v.before v.header (starts_with_ci_ne_nil v.header v.named) v.first
        v.named) in
    let value : skip_spaces (skip 7 v.header) ≡ host ++ v.rest = rw v.value (
      skip_spaces-append v.spaces (host ++ v.rest) v.blank
      ∙ skip_spaces_self host v.rest n v.ends) in
    let short : length (host ++ v.rest) < 2 ^ 16 = omega (
      arith,
      length-suffix v.before v.header buf v.splits,
      length-skip 7 v.header,
      length-suffix v.spaces (host ++ v.rest) (skip 7 v.header) v.value,
    ) in
    rw
      (
        found,
        value,
        strstr-append crlf host v.rest (starts_with_ne_nil v.rest v.ends) v.one_line v.ends,
      )
      (ap some (take_between host v.rest (host ++ v.rest) refl short))

-- Every request that starts with one of the six methods, has two spaces and a Host header whose
-- value ends in a line break is extracted, whatever stands before and behind the header: the text
-- is `http://`, the first Host header's value without leading spaces and the text between the first
-- two spaces, cut to 511 bytes. The request is shorter than 64 KB.
pub extract_http_complete :
    (buf uri host : Bytes)
    → length buf < 2 ^ 16
    → has_method buf http_methods ≡ true
    → IsUri buf uri
    → IsHost buf host
    → NoSpace host
    → extract_http buf ≡ some (scan_text (http_scheme ++ (host ++ uri)))
unfolding extract_http
extract_http_complete buf uri host h m u v n =
    rw (m, find_uri_complete buf uri h u, find_host_complete buf host h n v)
