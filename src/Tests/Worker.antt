-- ===== src/Tests/Worker.antt =====
-- Bursts.
use hyper_dpi.Prelude.{ℕ, ◌+◌, ◌≡◌, refl, Bool, false, inl, some, List, [], ◌∷◌, ◌++◌, codes, arith}
use hyper_dpi.Traffic.{drop}
use hyper_dpi.Packet.{Mbuf, L2L4Result, parse_l2_l4}
use hyper_dpi.Packet.Classify.{IsInspectable, result_of, parse_l2_l4_iff}
use hyper_dpi.Table.{
  FlowTable, flow_update, ready, with_lookup, tick, inspect_at, inspect, extract, after_http,
}
use hyper_dpi.Flow.Place.{place, place_at, anchor, write_segment, settle, write_loop, advance}
use hyper_dpi.Http.{
  try_extract_http, with_text, extract_http, has_method, starts_with, c_string, find_ci, find_host,
  find_uri, skip_spaces, starts_with_ci, strchr, strstr,
}
use hyper_dpi.Table.Verdict.{HasVerdict}
use hyper_dpi.Engine.{dpi_engine_scan}
use hyper_dpi.Stats.{stats_init}
use hyper_dpi.Stats.Counters.{Counted}
use hyper_dpi.Worker.{Arrival, Worker, handle_packet, worker_burst}
use hyper_dpi.Worker.Conserve.{count, count_arrivals}
use hyper_dpi.Worker.Burst.{worker_burst-Counted}
use hyper_dpi.Worker.Verdicts.{Discarded, handle_packet-HasVerdict}
use hyper_dpi.Worker.Scanned.{handle_packet-ready}
use hyper_dpi.Tests.Packet.{headers, frame, get_frame}
use hyper_dpi.Tests.Hash.{key_of, server_hash}
use hyper_dpi.Tests.Scanner.{occurrence_scan}
use hyper_dpi.Tests.Table.{two_flows, two_flows-HasVerdict}
use hyper_dpi.Tests.Engine.{nothing}
use hyper_dpi.Tests.Http.{request}

abbrev pub worker : FlowTable server_hash → Worker server_hash occurrence_scan
worker ft = record { ft = ft; stats = stats_init; fwd = []; tx_ring = []; freed = [] }

abbrev pub arrival : Mbuf → Arrival
arrival pkt = record { pkt = pkt; expire_now = 1000; now = 1000 }

abbrev arrivals : List Arrival
arrivals = arrival get_frame ∷ arrival (frame []) ∷ []

worker_burst-Counted_example :
    let w = worker two_flows in
    let w' = worker_burst server_hash occurrence_scan nothing (some tt) 3 (λ n. n) w arrivals in
    ((p : Mbuf → Bool)
      → count p w'.tx_ring + count p w'.freed
        ≡ count_arrivals p arrivals + (count p w.tx_ring + count p w.freed))
    × Counted 3 w.stats w'.stats 2 2
worker_burst-Counted_example =
    worker_burst-Counted server_hash occurrence_scan nothing (some tt) 3 (λ n. n) (worker two_flows)
      arrivals (λ n. omega arith)

handle_packet-HasVerdict_example :
    let w = worker two_flows in
    let w' = handle_packet server_hash occurrence_scan nothing (some tt) 3 w (arrival get_frame) in
    HasVerdict server_hash w'.ft (key_of 7) 7 drop false
    × ((l2l4 : L2L4Result)
        → parse_l2_l4 get_frame ≡ some l2l4
        → l2l4.key ≡ key_of 7
        → Discarded server_hash occurrence_scan nothing (some tt) 3 w w' get_frame)
handle_packet-HasVerdict_example =
    handle_packet-HasVerdict server_hash occurrence_scan nothing (some tt) 3 (worker two_flows)
      (arrival get_frame) (key_of 7) 7 false two_flows-HasVerdict (omega arith)

abbrev few_calls : FlowTable server_hash
few_calls = record two_flows { call_count = 0 }

abbrev request_frame : Mbuf
request_frame = frame (headers 61 6 8 ++ request)

request_frame-IsInspectable : IsInspectable request_frame
request_frame-IsInspectable = record {
  ipv4 = refl;
  ip_header = omega arith;
  tcp = refl;
  tcp_header = omega arith;
  fits = omega arith;
  port = inl refl;
}

request_frame-ready :
    (flow_update server_hash few_calls (result_of request_frame) 1000 1000).0.status
    ≡ ready (codes "http://a.b/x")
unfolding flow_update with_lookup tick inspect_at inspect extract after_http try_extract_http
    with_text extract_http has_method starts_with c_string place place_at anchor write_segment
    settle write_loop advance find_ci find_host find_uri skip_spaces starts_with_ci strchr strstr
request_frame-ready = refl

handle_packet-ready_example :
    let w = worker few_calls in
    let l2l4 = result_of request_frame in
    let action =
      dpi_engine_scan occurrence_scan nothing (some tt) l2l4.type (codes "http://a.b/x") in
    let w' =
      handle_packet server_hash occurrence_scan nothing (some tt) 3 w (arrival request_frame) in
    ((i : ℕ) × ((mark : Bool) × HasVerdict server_hash w'.ft l2l4.key i action mark))
    × (action ≡ drop → Discarded server_hash occurrence_scan nothing (some tt) 3 w w' request_frame)
handle_packet-ready_example =
    handle_packet-ready server_hash occurrence_scan nothing (some tt) 3 (worker few_calls)
      (arrival request_frame) (result_of request_frame) (codes "http://a.b/x")
      ((parse_l2_l4_iff request_frame (result_of request_frame) (omega arith)).1
        (request_frame-IsInspectable, refl))
      request_frame-ready
