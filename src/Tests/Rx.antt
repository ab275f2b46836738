-- ===== src/Tests/Rx.antt =====
-- A burst of two packets.
use hyper_dpi.Prelude.{ℕ, ◌≡◌, List, [], ◌∷◌, ◌++◌}
use hyper_dpi.Packet.{Mbuf}
use hyper_dpi.Stats.{stats_init}
use hyper_dpi.Rx.{Rx, steer_packets}
use hyper_dpi.Rx.Steer.{packets_of, steer_packets_lem}
use hyper_dpi.Tests.Packet.{frame, get_frame}

abbrev rx : Rx
rx = record {
  buckets = record { worker = λ b. 1; last_seen = λ b. 0 };
  stats = stats_init;
  dest = λ w. [];
  rings = λ w. [];
  freed = [];
}

abbrev packets : List Mbuf
packets = get_frame ∷ frame [] ∷ []

steer_packets_lem_example :
    let rx' = steer_packets (λ k. k.src_port) 1 1000 rx packets in
    (rx'.buckets.worker ≡ rx.buckets.worker)
    × ((w : ℕ) → rx'.dest w ≡ rx.dest w ++ packets_of (λ k. k.src_port) rx.buckets.worker w packets)
steer_packets_lem_example = steer_packets_lem (λ k. k.src_port) 1 1000 rx packets
