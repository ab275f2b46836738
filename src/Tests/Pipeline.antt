-- ===== src/Tests/Pipeline.antt =====
-- Rounds of the threads after the start of Tests/Startup.
use hyper_dpi.Prelude.{ℕ, ◌≡◌, refl, true, [], ◌∷◌, Option, some, ◌++◌, codes, arith, ◌==◌}
use hyper_dpi.Prelude.Subsequence.{Sub, filter}
use hyper_dpi.Packet.{FlowKey}
use hyper_dpi.Packet.Frames.{AllFrames}
use hyper_dpi.Buckets.{select_worker}
use hyper_dpi.Startup.{Plan}
use hyper_dpi.Startup.Layout.{LaidOut}
use hyper_dpi.Rx.{rx_burst, steer_packets, enqueue_all, enqueue_one, drop_packets}
use hyper_dpi.Traffic.{http, forward}
use hyper_dpi.Flow.{FlowState, new_state}
use hyper_dpi.Worker.{
  worker_burst, flush, count_sent, drop_unsent, handle_packets, handle_packet, handle_parsed, apply,
  decide,
}
use hyper_dpi.Table.{FlowTable, flow_update, with_lookup, with_added, tick, inspect_at, inspect}
use hyper_dpi.Table.Update.{TableOk}
use hyper_dpi.Pipeline.{
  Pipeline, receive, work, transmit, report, received, worked, transmitted, reported, Steps, done,
  after, start,
}
use hyper_dpi.Pipeline.Conserved.{Conserved, Steps-Conserved_launched}
use hyper_dpi.Pipeline.Counters.{Accounts, Steps-Accounts_launched}
use hyper_dpi.Pipeline.Tables.{Steps-TablesOk_launched}
use hyper_dpi.Pipeline.Order.Fixed.{Steps-Sub}
use hyper_dpi.Tests.Doubles.{whole, whole-IsOrdered}
use hyper_dpi.Tests.Hash.{server_hash, key_of}
use hyper_dpi.Tests.Scanner.{occurrence_scan}
use hyper_dpi.Tests.Packet.{frame, headers, get_frame, parse_get_frame}
use hyper_dpi.Tests.Flows.{of_flow, of_flow_lem}
use hyper_dpi.Tests.Worker.{arrival}
use hyper_dpi.Tests.Tls.{get_or-lt}
use hyper_dpi.Tests.Stats.{reporter}
use hyper_dpi.Tests.Startup.{sys, zeros, plan, plan-LaidOut}

abbrev by_port : FlowKey → ℕ
by_port k = k.src_port

abbrev forwarded : FlowState
forwarded = record (new_state http) { verdict_cached = true; cached_action = forward }

-- A table whose flow from port 7 has the verdict FORWARD.
abbrev one_flow : FlowTable server_hash
one_flow = record {
  h = λ i. i == 7;
  states = λ i. forwarded;
  timeout_cycles = 10000;
  call_count = 0;
}

-- Every bucket names worker 0.
abbrev one_busy : Plan occurrence_scan
one_busy = record plan { buckets = zeros }

one_busy-LaidOut : LaidOut sys one_busy
one_busy-LaidOut = record {
  two_workers = plan-LaidOut.two_workers;
  few_workers = plan-LaidOut.few_workers;
  first_lcores = plan-LaidOut.first_lcores;
  all_there = plan-LaidOut.all_there;
  distinct = plan-LaidOut.distinct;
  buckets_ok = λ b h. omega arith;
}

abbrev tables : ℕ → FlowTable server_hash
tables i = one_flow

abbrev scratches : ℕ → Option (Unit {0})
scratches i = some tt

abbrev s0 : Pipeline server_hash occurrence_scan
s0 = start server_hash occurrence_scan one_busy tables scratches reporter

abbrev s1 : Pipeline server_hash occurrence_scan
s1 =
    receive server_hash occurrence_scan by_port one_busy (λ w n. n) 1000 (get_frame ∷ frame [] ∷ [])
      s0

-- Both frames are in the ring of worker 0.
ring_0 : s1.rings 0 ≡ get_frame ∷ frame [] ∷ []
unfolding receive rx_burst steer_packets enqueue_all enqueue_one drop_packets select_worker
ring_0 = refl

abbrev s2 : Pipeline server_hash occurrence_scan
s2 = work server_hash occurrence_scan by_port one_busy 0 (λ n. n) (arrival get_frame ∷ []) s1

-- The first frame is sent on: the verdict of its flow is FORWARD.
tx_ring_2 : s2.tx_ring ≡ get_frame ∷ []
unfolding work worker_burst flush count_sent drop_unsent handle_packets handle_packet handle_parsed
    apply decide flow_update with_lookup with_added tick inspect_at inspect receive rx_burst
    steer_packets enqueue_all enqueue_one drop_packets select_worker
tx_ring_2 = rw parse_get_frame refl

abbrev s3 : Pipeline server_hash occurrence_scan
s3 = transmit server_hash occurrence_scan by_port one_busy (λ n. n) 1 s2

abbrev s4 : Pipeline server_hash occurrence_scan
s4 =
    report server_hash occurrence_scan by_port one_busy ℕ (0 ∷ 1 ∷ 2 ∷ []) 1000 2000 (λ i. s3.stats)
      (λ i. 0) (λ i. 0) s3

rounds : Steps server_hash occurrence_scan by_port one_busy ℕ s0 s4
rounds =
    after
      (after
        (after (after done (received (λ w n. n) 1000 (get_frame ∷ frame [] ∷ []))) (
          worked 0 (λ n. n) (arrival get_frame ∷ []) (frame [] ∷ []) (omega arith)
            (λ n. omega arith) ring_0))
        (transmitted (λ n. n) 1 (λ n. omega arith) (rw tx_ring_2 (omega arith))))
      (reported (0 ∷ 1 ∷ 2 ∷ []) 1000 2000 (λ i. s3.stats) (λ i. 0) (λ i. 0) (omega arith))

frames : AllFrames s4.received
unfolding receive work transmit report
frames = (
  (get_or-lt (headers 43 6 7 ++ codes "GET") refl, omega arith),
  ((λ i. omega arith, omega arith), tt),
)

Steps-Conserved_launched_example : Conserved server_hash occurrence_scan by_port one_busy s4
Steps-Conserved_launched_example =
    Steps-Conserved_launched server_hash occurrence_scan by_port ℕ whole-IsOrdered sys one_busy
      tables scratches reporter s4 one_busy-LaidOut rounds

Steps-Accounts_launched_example : Accounts one_busy s4
Steps-Accounts_launched_example =
    Steps-Accounts_launched server_hash occurrence_scan by_port ℕ sys one_busy tables scratches
      reporter s4 one_busy-LaidOut refl rounds

Steps-TablesOk_launched_example : TableOk server_hash (s4.tables 0)
Steps-TablesOk_launched_example =
    Steps-TablesOk_launched server_hash occurrence_scan by_port ℕ one_busy tables scratches reporter
      s4 (λ i k j e f. cc) frames rounds 0

Steps-Sub_example : Sub (filter of_flow s4.wire) (filter of_flow s4.received)
Steps-Sub_example =
    Steps-Sub server_hash occurrence_scan by_port one_busy ℕ whole-IsOrdered tables scratches
      reporter s4 (key_of 7) of_flow refl (λ pkt. (of_flow_lem pkt).0) rounds
