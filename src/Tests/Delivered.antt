-- ===== src/Tests/Delivered.antt =====
-- A request and a ClientHello whose second half arrives first.
use hyper_dpi.Prelude.{◌≡◌, refl, some, List, [], ◌∷◌, ◌++◌, Bytes, codes, length}
use hyper_dpi.Traffic.{http}
use hyper_dpi.Flow.{new_state}
use hyper_dpi.Flow.Place.{place, place_at, anchor, write_segment, settle, write_loop, advance}
use hyper_dpi.Flow.Stream.{Segment}
use hyper_dpi.Http.{
  c_string, has_method, starts_with, try_extract_http, with_text, extract_http, find_ci, find_host,
  find_uri, skip_spaces, starts_with_ci, strchr, strstr,
}
use hyper_dpi.Http.Stable.{extract_http-append}
use hyper_dpi.Tls.Hello.{encode}
use hyper_dpi.Table.{ready, inspect, extract, after_http}
use hyper_dpi.Table.Delivered.{packet_of}
use hyper_dpi.Tests.Hash.{key_of}
use hyper_dpi.Tests.Http.{request}
use hyper_dpi.Tests.Tls.{hello}
use hyper_dpi.Tests.Stream.{late_half}

extract_http-append_example :
    extract_http (request ++ codes "GET / H") ≡ some (codes "http://a.b/x")
unfolding extract_http has_method starts_with find_uri strchr find_host find_ci starts_with_ci
    strstr skip_spaces
extract_http-append_example =
    extract_http-append request (codes "GET / H") (codes "http://a.b/x") refl

abbrev late : List Segment
late = late_half request 9 ∷ []

abbrev late_hello : List Segment
late_hello = late_half (encode hello) 20 ∷ []

-- A body that looks like another request, and comes first, is taken for the request.
abbrev decoy : Bytes
decoy = codes "GET /ok H" ++ 13 ∷ 10 ∷ codes "Host: c.d" ++ 13 ∷ 10 ∷ []

abbrev decoy_packet : Segment
decoy_packet = record { seq = 121; payload = decoy; len = length decoy }

decoy_ready :
    (inspect (new_state http) (packet_of http (key_of 7) decoy_packet)).0.status
    ≡ ready (codes "http://c.d/ok")
unfolding inspect extract after_http try_extract_http with_text extract_http has_method starts_with
    c_string place place_at anchor write_segment settle write_loop advance find_ci find_host
    find_uri skip_spaces starts_with_ci strchr strstr
decoy_ready = refl
