-- ===== src/Traffic.antt =====
-- The vocabulary that every component shares: the enums and constants of include/hyperdpi.h.
use hyper_dpi.Prelude.{ℕ, Bool, true, false}

-- `enum traffic_type`.
pub data TrafficType : Type 0 where
  non_dpi http https : TrafficType

-- `enum packet_action`.
pub data Action : Type 0 where
  forward drop : Action

abbrev pub same_type : TrafficType → TrafficType → Bool
same_type non_dpi non_dpi = true
same_type http http = true
same_type https https = true
same_type _ _ = false

abbrev pub is_drop : Action → Bool
is_drop forward = false
is_drop drop = true

abbrev pub max_workers : ℕ
max_workers = 4

abbrev pub burst_size : ℕ
burst_size = 32

abbrev pub http_port : ℕ
http_port = 80

abbrev pub https_port : ℕ
https_port = 443
