-- ===== src/Tests/Http.antt =====
-- A request.
use hyper_dpi.Prelude.{◌≡◌, refl, true, some, Bytes, [], ◌∷◌, ◌++◌, codes, arith, length}
use hyper_dpi.Traffic.{http}
use hyper_dpi.Http.{
  c_string, extract_http, has_method, http_methods, http_scheme, scan_text, starts_with,
  starts_with_ci, find_uri, strchr, find_host, find_ci, strstr, skip_spaces,
}
use hyper_dpi.Http.Sound.{IsUri, IsHost, extract_http_sound}
use hyper_dpi.Http.Complete.{extract_http_complete}
use hyper_dpi.Flow.{FlowState, new_state}
use hyper_dpi.Flow.Place.{place}
use hyper_dpi.Flow.Invariant.{IsValid, new_state-IsValid, place-IsValid}
use hyper_dpi.Tests.Stream.{stream_of}

abbrev crlf : Bytes
crlf = 13 ∷ 10 ∷ []

abbrev pub request : Bytes
request = codes "GET /x H" ++ crlf ++ codes "Host: a.b" ++ crlf

pub request-IsUri : IsUri request (codes "/x")
request-IsUri = record {
  method = codes "GET";
  rest = 72 ∷ 13 ∷ 10 ∷ codes "Host: a.b" ++ crlf;
  splits = refl;
  method_clear = (refl, (refl, (refl, tt)));
  uri_clear = (refl, (refl, tt));
}

pub request-IsHost : IsHost request (codes "a.b")
unfolding starts_with starts_with_ci
request-IsHost = record {
  before = codes "GET /x H";
  header = crlf ++ codes "Host: a.b" ++ crlf;
  spaces = codes " ";
  rest = crlf;
  splits = refl;
  first = (refl, (refl, (refl, (refl, (refl, (refl, (refl, (refl, tt))))))));
  named = refl;
  value = refl;
  blank = (refl, tt);
  ends = refl;
  one_line = (refl, (refl, (refl, tt)));
}

extract_http_complete_example :
    extract_http request ≡ some (scan_text (http_scheme ++ (codes "a.b" ++ codes "/x")))
unfolding has_method starts_with
extract_http_complete_example =
    extract_http_complete request (codes "/x") (codes "a.b") (omega arith) refl request-IsUri
      request-IsHost refl

extract_http_sound_example :
    (has_method request http_methods ≡ true)
    × (uri : Bytes) × (host : Bytes) × IsUri request uri
    × IsHost request host
    × (codes "http://a.b/x" ≡ scan_text (http_scheme ++ (host ++ uri)))
unfolding extract_http has_method starts_with find_uri strchr find_host find_ci starts_with_ci
    strstr skip_spaces
extract_http_sound_example = extract_http_sound request (codes "http://a.b/x") (omega arith) refl

abbrev flow : FlowState
flow = place (new_state http) 100 request (length request)

flow-IsValid : IsValid flow
flow-IsValid =
    place-IsValid (new_state http) 100 request (length request) (omega arith) (omega arith)
      (new_state-IsValid http)

pub request-c_string : c_string (stream_of request) 0 21 ≡ request
unfolding c_string
request-c_string = refl
