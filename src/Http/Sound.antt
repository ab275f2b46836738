-- ===== src/Http/Sound.antt =====
-- What an extracted text says of the request.
use hyper_dpi.Prelude.{
  ℕ, ◌-◌, ◌^◌, ◌≤◌, ◌<◌, ◌≡◌, refl, sym, ap, ◌∙◌, true, some, [], ◌∷◌, ◌++◌, Bytes, length,
  length-append, take, u16, arith, some_inj, >>=-eq-some, require, subst, zero, suc,
}
use hyper_dpi.Http.{
  starts_with, starts_with_ci, strchr, strstr, find_ci, skip, skip_spaces, find_uri, find_host,
  http_methods, crlf, host_header, http_scheme, scan_text, has_method, extract_http,
}
use hyper_dpi.Http.Strings.{
  Avoids, Repeats, Clear, FirstByte, FirstMatch, strchr-FirstByte, strstr-FirstMatch,
  find_ci-FirstMatch, skip_spaces-Skipped, take_prefix,
}

-- `uri` is the text between the first two spaces of the request.
pub record IsUri (buf uri : Bytes) : Type 0 where
  pub method : Bytes
  pub rest : Bytes
  pub splits : buf ≡ method ++ b' ' ∷ (uri ++ b' ' ∷ rest)
  pub method_clear : Avoids b' ' method
  pub uri_clear : Avoids b' ' uri

-- `host` is the value of the first Host header: behind the header's name, in any case, and the
-- spaces after it, up to the end of the line.
pub record IsHost (buf host : Bytes) : Type 0 where
  pub before : Bytes
  pub header : Bytes
  pub spaces : Bytes
  pub rest : Bytes
  pub splits : buf ≡ before ++ header
  pub first : Clear (λ t. starts_with_ci t host_header) before header
  pub named : starts_with_ci header host_header ≡ true
  pub value : skip 7 header ≡ spaces ++ (host ++ rest)
  pub blank : Repeats b' ' spaces
  pub ends : starts_with rest crlf ≡ true
  pub one_line : Clear (λ t. starts_with t crlf) host rest

-- A 16-bit difference of pointers into a string that is short enough.
pub take_between :
    (pre r s : Bytes) → s ≡ pre ++ r → length s < 2 ^ 16 → take (u16 (length s - length r)) s ≡ pre
take_between pre r s e h =
    let n : u16 (length s - length r) ≡ length pre =
      omega (arith, ap (length {A = ℕ}) e, length-append {0} pre r) in
    rw (n, e) (take_prefix pre r (length pre) refl)

pub length-suffix : (pre r s : Bytes) → s ≡ pre ++ r → length r ≤ length s
length-suffix pre r s e = omega (arith, ap (length {A = ℕ}) e, length-append {0} pre r)

cut-IsUri :
    (buf sp1 sp2 uri : Bytes)
    → length buf < 2 ^ 16
    → FirstByte b' ' buf sp1
    → FirstByte b' ' (skip 1 sp1) sp2
    → take (u16 (length (skip 1 sp1) - length sp2)) (skip 1 sp1) ≡ uri
    → IsUri buf uri
cut-IsUri buf sp1 sp2 uri h f1 f2 e =
    let start : skip 1 sp1 ≡ f1.rest = rw f1.points in
    let split : skip 1 sp1 ≡ f2.pre ++ sp2 = f2.splits ∙ ap (λ t. f2.pre ++ t) (sym f2.points) in
    let short : length (skip 1 sp1) < 2 ^ 16 =
      rw start (omega (arith, length-suffix f1.pre (b' ' ∷ f1.rest) buf f1.splits)) in
    let cut : f2.pre ≡ uri = sym (take_between f2.pre sp2 (skip 1 sp1) split short) ∙ e in
    record {
      method = f1.pre;
      rest = f2.rest;
      splits =
          f1.splits
          ∙ ap (λ t. f1.pre ++ b' ' ∷ t) (sym start ∙ f2.splits)
          ∙ ap (λ t. f1.pre ++ b' ' ∷ (t ++ b' ' ∷ f2.rest)) cut;
      method_clear = f1.avoids;
      uri_clear = subst (Avoids b' ') cut f2.avoids;
    }

pub find_uri-IsUri :
    (buf uri : Bytes) → length buf < 2 ^ 16 → find_uri buf ≡ some uri → IsUri buf uri
unfolding find_uri
find_uri-IsUri buf uri h e =
    let (sp1, at1, e1) = >>=-eq-some (strchr buf b' ') _ e in
    let (sp2, at2, e2) = >>=-eq-some (strchr (skip 1 sp1) b' ') _ e1 in
    cut-IsUri buf sp1 sp2 uri h (strchr-FirstByte buf b' ' at1)
      (strchr-FirstByte (skip 1 sp1) b' ' at2) (some_inj e2)

pub length-skip : (n : ℕ) (s : Bytes) → length (skip n s) ≤ length s
length-skip zero s = omega arith
length-skip (suc n) [] = omega arith
length-skip (suc n) (c ∷ cs) = omega (arith, length-skip n cs)

cut-IsHost :
    (buf hdr end host : Bytes)
    → length buf < 2 ^ 16
    → FirstMatch (λ t. starts_with_ci t host_header) buf hdr
    → FirstMatch (λ t. starts_with t crlf) (skip_spaces (skip 7 hdr)) end
    → take (u16 (length (skip_spaces (skip 7 hdr)) - length end)) (skip_spaces (skip 7 hdr)) ≡ host
    → IsHost buf host
cut-IsHost buf hdr end host h f g e =
    let sk = skip_spaces-Skipped (skip 7 hdr) in
    let short : length (skip_spaces (skip 7 hdr)) < 2 ^ 16 = omega (
      arith,
      length-suffix f.pre hdr buf f.splits,
      length-skip 7 hdr,
      length-suffix sk.spaces (skip_spaces (skip 7 hdr)) (skip 7 hdr) sk.splits,
    ) in
    let cut : g.pre ≡ host =
      sym (take_between g.pre end (skip_spaces (skip 7 hdr)) g.splits short) ∙ e in
    record {
      before = f.pre;
      header = hdr;
      spaces = sk.spaces;
      rest = end;
      splits = f.splits;
      first = f.first;
      named = f.here;
      value = sk.splits ∙ ap (λ t. sk.spaces ++ t) g.splits ∙ ap (λ t. sk.spaces ++ (t ++ end)) cut;
      blank = sk.blank;
      ends = g.here;
      one_line = subst (λ t. Clear (λ u. starts_with u crlf) t end) cut g.first;
    }

pub find_host-IsHost :
    (buf host : Bytes) → length buf < 2 ^ 16 → find_host buf ≡ some host → IsHost buf host
unfolding find_host
find_host-IsHost buf host h e =
    let (hdr, at1, e1) = >>=-eq-some (find_ci buf host_header) _ e in
    let (end, at2, e2) = >>=-eq-some (strstr (skip_spaces (skip 7 hdr)) crlf) _ e1 in
    cut-IsHost buf hdr end host h (find_ci-FirstMatch host_header buf at1)
      (strstr-FirstMatch crlf (skip_spaces (skip 7 hdr)) at2) (some_inj e2)

-- A text that is extracted from a request of less than 64 KB is `http://`, then the value of its
-- first Host header, then the text between its first two spaces, cut to 511 bytes; and the request
-- starts with one of the six methods.
pub extract_http_sound :
    (buf text : Bytes)
    → length buf < 2 ^ 16
    → extract_http buf ≡ some text
    → (has_method buf http_methods ≡ true)
      × (uri : Bytes) × (host : Bytes) × IsUri buf uri
      × IsHost buf host
      × (text ≡ scan_text (http_scheme ++ (host ++ uri)))
unfolding extract_http
extract_http_sound buf text h e =
    let (u, at0, e0) = >>=-eq-some (require (has_method buf http_methods)) _ e in
    let (uri, at1, e1) = >>=-eq-some (find_uri buf) _ e0 in
    let (host, at2, e2) = >>=-eq-some (find_host buf) _ e1 in
    (
      ground arith,
      uri,
      host,
      find_uri-IsUri buf uri h at1,
      find_host-IsHost buf host h at2,
      sym (some_inj e2),
    )
