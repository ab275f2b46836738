-- ===== src/Tests/Stats.antt =====
-- A round of the Stats thread, with two workers of which the first is busy.
use hyper_dpi.Prelude.{ℕ, ◌+◌, ◌≡◌, ◌⊎◌, true, [], ◌∷◌, ◌==◌, if◌then◌else◌}
use hyper_dpi.Stats.{StatsTable, zero_stats, aggregate}
use hyper_dpi.Stats.Totals.{aggregate-total}
use hyper_dpi.Stats.Thread.{StatsArgs, StatsThread, report_round, new_reporter, idle_threshold_of}
use hyper_dpi.Stats.Thread.Balance.{Balanced, report_round-Balanced}
use hyper_dpi.Tests.Doubles.{whole, whole-IsOrdered}
use hyper_dpi.Tests.Startup.{zeros}

abbrev args : StatsArgs
args = record { num_workers = 2; worker_lcores = λ i. i + 2; rebalance_enabled = true }

abbrev pub reporter : StatsThread
reporter = new_reporter args (1 ∷ 2 ∷ 3 ∷ []) 0 (λ _. zero_stats) (λ i _. zero_stats)

abbrev table : StatsTable
table lcore = if lcore == 2 then record zero_stats { http_packets = 2000 } else zero_stats

report_round-Balanced_example :
    let r =
      report_round {W = ℕ} args
        (1 ∷ 2 ∷ 3 ∷ [])
        1000
        1000
        table
        (λ i. table)
        (λ i. 9)
        (λ i. 9)
        zeros
        reporter in
    (r.1 ≡ zeros) ⊎ Balanced args (idle_threshold_of 1000) 1000 r.0.0.loads zeros r.1
report_round-Balanced_example =
    report_round-Balanced whole-IsOrdered args (1 ∷ 2 ∷ 3 ∷ []) 1000 1000 table (λ i. table)
      (λ i. 9) (λ i. 9) zeros reporter

aggregate-total_example : aggregate table (1 ∷ 2 ∷ 3 ∷ []) ≡ record {
  rx_packets = 0;
  rx_bytes = 0;
  http_packets = 2000;
  https_packets = 0;
  non_dpi_packets = 0;
  forwarded_packets = 0;
  dropped_packets = 0;
  tx_packets = 0;
  tls_ech_or_no_sni_packets = 0;
}
aggregate-total_example = aggregate-total table (1 ∷ 2 ∷ 3 ∷ [])
