-- ===== src/Fallback.antt =====
-- include/parser.h and src/parser.c, the placeholder for a classifier by flow features.
use hyper_dpi.Prelude.{ℕ}

-- `enum fallback_verdict`.
pub data FallbackVerdict : Type 0 where
  unknown suspicious : FallbackVerdict

-- `struct flow_features`.
pub record FlowFeatures : Type 0 where
  pub total_bytes : ℕ
  pub packet_count : ℕ
  pub first_seen_tsc : ℕ
  pub last_seen_tsc : ℕ

abbrev pub flow_classify_fallback : FlowFeatures → FallbackVerdict
flow_classify_fallback features = unknown
