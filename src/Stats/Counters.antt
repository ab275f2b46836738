-- ===== src/Stats/Counters.antt =====
-- The counters that a worker's loop changes.
use hyper_dpi.Prelude.{ℕ, ◌+◌, ◌≡◌, ◌≢◌, refl, add64, update, arith, ==_self, ==_ne, sym, ◌∙◌}
use hyper_dpi.Traffic.{TrafficType, non_dpi, http, https}
use hyper_dpi.Stats.{
  CoreStats, StatsTable, count_classified, stats_count_classified, stats_count_forwarded,
  stats_count_dropped, stats_count_tls_no_sni, worker_processed,
}

processed_lem :
    (s : CoreStats) (type : TrafficType)
    → let s' = count_classified s type in
      add64 (add64 s'.http_packets s'.https_packets) s'.non_dpi_packets
      ≡ add64 (add64 (add64 s.http_packets s.https_packets) s.non_dpi_packets) 1
processed_lem s non_dpi = omega arith
processed_lem s http = omega arith
processed_lem s https = omega arith

-- Between two tables lcore `l` alone has counted: this many packets classified, and this many
-- forwarded or dropped, up to the wrap-around of the counters.
pub record Counted (l : ℕ) (t t' : StatsTable) (classified decided : ℕ) : Type 0 where
  pub processed : worker_processed t' l ≡ add64 (worker_processed t l) classified
  pub settled :
      add64 (t' l).forwarded_packets (t' l).dropped_packets
      ≡ add64 (add64 (t l).forwarded_packets (t l).dropped_packets) decided
  pub others : (j : ℕ) → j ≢ l → t' j ≡ t j

module _ (l : ℕ) where
  pub Counted-refl : (t : StatsTable) → Counted l t t 0 0
  unfolding worker_processed
  Counted-refl t = record { processed = omega arith; settled = omega arith; others = λ j ne. refl }

  pub Counted-trans :
      (t t' t'' : StatsTable) (c c' d d' : ℕ) {n m : ℕ}
      → n ≡ c + c'
      → m ≡ d + d'
      → Counted l t t' c d
      → Counted l t' t'' c' d'
      → Counted l t t'' n m
  Counted-trans t t' t'' c c' d d' e f h k = record {
    processed = omega (arith, e, h.processed, k.processed);
    settled = omega (arith, f, h.settled, k.settled);
    others = λ j ne. k.others j ne ∙ h.others j ne;
  }

  apart : (t : StatsTable) (s : CoreStats) (j : ℕ) → j ≢ l → update t l s j ≡ t j
  apart t s j ne = rw (==_ne l j (λ e. ne (sym e))) refl

  pub classified-Counted :
      (t : StatsTable) (type : TrafficType) → Counted l t (stats_count_classified t l type) 1 0
  unfolding stats_count_classified worker_processed
  classified-Counted t type = record {
    processed = rw (==_self l) (processed_lem (t l) type);
    settled = rw (==_self l) (decided type);
    others = apart t _;
  }
    where
      decided :
          (type : TrafficType)
          → let s = count_classified (t l) type in
            add64 s.forwarded_packets s.dropped_packets
            ≡ add64 (add64 (t l).forwarded_packets (t l).dropped_packets) 0
      decided non_dpi = omega arith
      decided http = omega arith
      decided https = omega arith

  pub forwarded-Counted : (t : StatsTable) → Counted l t (stats_count_forwarded t l) 0 1
  unfolding stats_count_forwarded worker_processed
  forwarded-Counted t = record {
    processed = rw (==_self l) (omega arith);
    settled = rw (==_self l) (omega arith);
    others = apart t _;
  }

  pub dropped-Counted : (t : StatsTable) → Counted l t (stats_count_dropped t l) 0 1
  unfolding stats_count_dropped worker_processed
  dropped-Counted t = record {
    processed = rw (==_self l) (omega arith);
    settled = rw (==_self l) (omega arith);
    others = apart t _;
  }

  pub no_sni-Counted : (t : StatsTable) → Counted l t (stats_count_tls_no_sni t l) 0 0
  unfolding stats_count_tls_no_sni worker_processed
  no_sni-Counted t = record {
    processed = rw (==_self l) (omega arith);
    settled = rw (==_self l) (omega arith);
    others = apart t _;
  }
