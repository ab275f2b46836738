-- ===== src/Stats.antt =====
-- include/stats.h and src/stats.c: the counters of each lcore, and their sums.
--
-- One slot of `stats_table` is a record, the table a function of the lcore. The Stats thread is in
-- Stats/Loads and Stats/Thread.
pub mod Counters
pub mod Totals
pub mod Double
pub mod Loads
pub mod Thread
use hyper_dpi.Prelude.{ℕ, List, [], ◌∷◌, add64, update}
use hyper_dpi.Traffic.{TrafficType, non_dpi, http, https}

-- `struct core_stats`.
pub record CoreStats : Type 0 where
  pub rx_packets : ℕ
  pub rx_bytes : ℕ
  pub http_packets : ℕ
  pub https_packets : ℕ
  pub non_dpi_packets : ℕ
  pub forwarded_packets : ℕ
  pub dropped_packets : ℕ
  pub tx_packets : ℕ
  pub tls_ech_or_no_sni_packets : ℕ

abbrev pub StatsTable : Type 0
StatsTable = ℕ → CoreStats

abbrev pub zero_stats : CoreStats
zero_stats = record {
  rx_packets = 0;
  rx_bytes = 0;
  http_packets = 0;
  https_packets = 0;
  non_dpi_packets = 0;
  forwarded_packets = 0;
  dropped_packets = 0;
  tx_packets = 0;
  tls_ech_or_no_sni_packets = 0;
}

unfoldable pub stats_init : StatsTable
stats_init lcore = zero_stats

unfoldable pub stats_add_rx : StatsTable → ℕ → ℕ → ℕ → StatsTable
stats_add_rx t lcore packets bytes = update t lcore (record (t lcore) {
  rx_packets = add64 (t lcore).rx_packets packets;
  rx_bytes = add64 (t lcore).rx_bytes bytes;
})

-- The `switch` on the traffic type.
abbrev pub count_classified : CoreStats → TrafficType → CoreStats
count_classified s http = record s { http_packets = add64 s.http_packets 1 }
count_classified s https = record s { https_packets = add64 s.https_packets 1 }
count_classified s non_dpi = record s { non_dpi_packets = add64 s.non_dpi_packets 1 }

unfoldable pub stats_count_classified : StatsTable → ℕ → TrafficType → StatsTable
stats_count_classified t lcore type = update t lcore (count_classified (t lcore) type)

unfoldable pub stats_count_forwarded : StatsTable → ℕ → StatsTable
stats_count_forwarded t lcore =
    update t lcore (record (t lcore) { forwarded_packets = add64 (t lcore).forwarded_packets 1 })

unfoldable pub stats_count_dropped : StatsTable → ℕ → StatsTable
stats_count_dropped t lcore =
    update t lcore (record (t lcore) { dropped_packets = add64 (t lcore).dropped_packets 1 })

unfoldable pub stats_count_tls_no_sni : StatsTable → ℕ → StatsTable
stats_count_tls_no_sni t lcore =
    update t lcore
      (record (t lcore) { tls_ech_or_no_sni_packets = add64 (t lcore).tls_ech_or_no_sni_packets 1 })

unfoldable pub stats_add_tx : StatsTable → ℕ → ℕ → StatsTable
stats_add_tx t lcore packets =
    update t lcore (record (t lcore) { tx_packets = add64 (t lcore).tx_packets packets })

-- The body of the loop of `aggregate`.
abbrev pub add_stats : CoreStats → CoreStats → CoreStats
add_stats out s = record {
  rx_packets = add64 out.rx_packets s.rx_packets;
  rx_bytes = add64 out.rx_bytes s.rx_bytes;
  http_packets = add64 out.http_packets s.http_packets;
  https_packets = add64 out.https_packets s.https_packets;
  non_dpi_packets = add64 out.non_dpi_packets s.non_dpi_packets;
  forwarded_packets = add64 out.forwarded_packets s.forwarded_packets;
  dropped_packets = add64 out.dropped_packets s.dropped_packets;
  tx_packets = add64 out.tx_packets s.tx_packets;
  tls_ech_or_no_sni_packets = add64 out.tls_ech_or_no_sni_packets s.tls_ech_or_no_sni_packets;
}

unfoldable pub aggregate_from : StatsTable → List ℕ → CoreStats → CoreStats
aggregate_from t [] out = out
aggregate_from t (lcore ∷ lcores) out = aggregate_from t lcores (add_stats out (t lcore))

-- The lcores that `RTE_LCORE_FOREACH` runs over are an argument.
unfoldable pub aggregate : StatsTable → List ℕ → CoreStats
aggregate t lcores = aggregate_from t lcores zero_stats

unfoldable pub worker_processed : StatsTable → ℕ → ℕ
worker_processed t lcore =
    add64 (add64 (t lcore).http_packets (t lcore).https_packets) (t lcore).non_dpi_packets
