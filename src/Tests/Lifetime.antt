-- ===== src/Tests/Lifetime.antt =====
-- A worker's life of two rounds.
use hyper_dpi.Prelude.{◌≡◌, false, some, List, [], ◌∷◌, arith}
use hyper_dpi.Stats.{stats_init}
use hyper_dpi.Table.Lifetime.{Heap, scratch_memory}
use hyper_dpi.Worker.Thread.{Round, Shared}
use hyper_dpi.Worker.Thread.Blocked.{AllAwake, worker_rounds-Blocked}
use hyper_dpi.Tests.Engine.{nothing}
use hyper_dpi.Tests.Hash.{Present, server_hash}
use hyper_dpi.Tests.Packet.{frame, get_frame, parse_get_frame}
use hyper_dpi.Tests.Scanner.{occurrence_scan}
use hyper_dpi.Tests.Worker.{arrival, worker}
use hyper_dpi.Tests.Flows.{of_flow, of_flow_lem}
use hyper_dpi.Tests.Table.{two_flows, two_flows-HasVerdict}
use hyper_dpi.Traffic.{drop}
use hyper_dpi.Table.Verdict.{HasVerdict}
use hyper_dpi.Worker.Conserve.{count}
use hyper_dpi.Prelude.{◌+◌}
use hyper_dpi.Worker.Thread.{worker_rounds}
use hyper_dpi.Worker.Thread.Lifetime.{count_taken}
use hyper_dpi.Tests.Hash.{key_of}

abbrev rounds : List Round
rounds =
    record { arrivals = arrival get_frame ∷ arrival (frame []) ∷ []; accepts = λ n. n }
    ∷ record { arrivals = arrival get_frame ∷ []; accepts = λ n. 0 }
    ∷ []

abbrev begin : Shared
begin = record { stats = stats_init; tx_ring = []; freed = [] }

abbrev no_keys : Present
no_keys i = false

-- Another worker has its scratch.
abbrev heap : Heap
heap = scratch_memory ∷ []

awake : AllAwake of_flow 100 950 rounds
awake = rw parse_get_frame ((omega arith, (omega arith, tt)), ((ground arith, tt), tt))

worker_rounds-Blocked_example :
    let w = worker two_flows in
    let w' = worker_rounds server_hash occurrence_scan nothing 3 (some tt) w rounds in
    (count of_flow w'.tx_ring ≡ count of_flow w.tx_ring)
    × (count of_flow w'.freed ≡ count_taken of_flow rounds + count of_flow w.freed)
    × HasVerdict server_hash w'.ft (key_of 7) 7 drop false
worker_rounds-Blocked_example =
    worker_rounds-Blocked server_hash occurrence_scan nothing 3 (some tt) (key_of 7) 7 false of_flow
      (worker two_flows) rounds of_flow_lem two_flows-HasVerdict awake
      (λ n. omega arith, (λ n. omega arith, tt))
