-- ===== src/Stats/Totals.antt =====
-- What `aggregate` computes.
use hyper_dpi.Prelude.{ℕ, ◌+◌, ◌%◌, ◌^◌, ◌<◌, ◌≡◌, refl, List, [], ◌∷◌, add64, arith}
use hyper_dpi.Stats.{CoreStats, StatsTable, zero_stats, add_stats, aggregate_from, aggregate}

-- The sum of one counter over the lcores, as a number without a bound.
abbrev pub total : (CoreStats → ℕ) → StatsTable → List ℕ → ℕ
total f t [] = 0
total f t (lcore ∷ lcores) = f (t lcore) + total f t lcores

-- A counter is added by itself.
abbrev IsCounter : (CoreStats → ℕ) → Type 0
IsCounter f = (out s : CoreStats) → f (add_stats out s) ≡ add64 (f out) (f s)

aggregate_from-total :
    (f : CoreStats → ℕ) (t : StatsTable) (lcores : List ℕ) (out : CoreStats)
    → IsCounter f
    → f out < 2 ^ 64
    → f (aggregate_from t lcores out) ≡ (f out + total f t lcores) % 2 ^ 64
unfolding aggregate_from
aggregate_from-total f t [] out c h = omega arith
aggregate_from-total f t (lcore ∷ lcores) out c h = omega (
  arith,
  c out (t lcore),
  aggregate_from-total f t lcores (add_stats out (t lcore)) c (omega (arith, c out (t lcore))),
)

counter-total :
    (f : CoreStats → ℕ) (t : StatsTable) (lcores : List ℕ)
    → IsCounter f
    → f zero_stats ≡ 0
    → f (aggregate t lcores) ≡ total f t lcores % 2 ^ 64
unfolding aggregate
counter-total f t lcores c z =
    omega (arith, z, aggregate_from-total f t lcores zero_stats c (omega (arith, z)))

-- Each of the nine counters of the sum is the sum of this counter over the lcores, up to the wrap-
-- around at 2^64; an lcore that is listed twice counts twice.
pub aggregate-total :
    (t : StatsTable) (lcores : List ℕ)
    → aggregate t lcores ≡ record {
      rx_packets = total (λ s. s.rx_packets) t lcores % 2 ^ 64;
      rx_bytes = total (λ s. s.rx_bytes) t lcores % 2 ^ 64;
      http_packets = total (λ s. s.http_packets) t lcores % 2 ^ 64;
      https_packets = total (λ s. s.https_packets) t lcores % 2 ^ 64;
      non_dpi_packets = total (λ s. s.non_dpi_packets) t lcores % 2 ^ 64;
      forwarded_packets = total (λ s. s.forwarded_packets) t lcores % 2 ^ 64;
      dropped_packets = total (λ s. s.dropped_packets) t lcores % 2 ^ 64;
      tx_packets = total (λ s. s.tx_packets) t lcores % 2 ^ 64;
      tls_ech_or_no_sni_packets = total (λ s. s.tls_ech_or_no_sni_packets) t lcores % 2 ^ 64;
    }
aggregate-total t lcores =
    rw
      (
        ← counter-total (λ s. s.rx_packets) t lcores (λ out s. refl) refl,
        ← counter-total (λ s. s.rx_bytes) t lcores (λ out s. refl) refl,
        ← counter-total (λ s. s.http_packets) t lcores (λ out s. refl) refl,
        ← counter-total (λ s. s.https_packets) t lcores (λ out s. refl) refl,
        ← counter-total (λ s. s.non_dpi_packets) t lcores (λ out s. refl) refl,
        ← counter-total (λ s. s.forwarded_packets) t lcores (λ out s. refl) refl,
        ← counter-total (λ s. s.dropped_packets) t lcores (λ out s. refl) refl,
        ← counter-total (λ s. s.tx_packets) t lcores (λ out s. refl) refl,
        ← counter-total (λ s. s.tls_ech_or_no_sni_packets) t lcores (λ out s. refl) refl,
      )
      refl
