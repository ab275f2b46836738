-- ===== src/Tests/Startup.antt =====
-- A start with `-w 3 -B` on eight lcores.
use hyper_dpi.Prelude.{
  ℕ, ◌≡◌, ◌&&◌, not, refl, true, false, Bool, List, [], ◌∷◌, Bytes, codes, arith,
}
use hyper_dpi.Buckets.{Buckets}
use hyper_dpi.Engine.{Engine}
use hyper_dpi.Startup.Arguments.{
  ok, exit, Options, default_options, take_option, parse_options, atoi, digits, bad_mbuf_count,
}
use hyper_dpi.Startup.Arguments.Parsed.{
  last_arg, last_number, has_option, first_fault, unless, parse_options_lem,
}
use hyper_dpi.Startup.{System, Plan, launch, create_rings, boot_workers, boot}
use hyper_dpi.Startup.Layout.{LaidOut, Distinct, boot-LaidOut}
use hyper_dpi.Tests.Scanner.{occurrence_scan}
use hyper_dpi.Tests.Engine.{nothing}

abbrev found : List (ℕ × Bytes)
found = (b'w', codes "4") ∷ (b'B', []) ∷ (b'w', codes " 3x") ∷ []

parse_options_lem_example :
    parse_options default_options found
    ≡ unless (first_fault found) (record {
      patterns_file = last_arg b'p' default_options.patterns_file found;
      num_workers = last_number b'w' 2 found;
      rebalance_enabled = true && not (has_option b'B' found);
      mbuf_pool_override = last_number b'M' 0 found;
    })
parse_options_lem_example = parse_options_lem default_options found

abbrev three_workers : Options
three_workers = record default_options { num_workers = 3; rebalance_enabled = false }

parsed : parse_options default_options found ≡ ok three_workers
unfolding parse_options take_option atoi digits
parsed = refl

-- A count that is not positive ends the program.
bad_count : parse_options default_options ((b'M', codes "-1") ∷ []) ≡ exit bad_mbuf_count
unfolding parse_options take_option atoi digits
bad_count = refl

abbrev pub sys : System
sys = record {
  eal_ok = true;
  found = found;
  dev_count = 1;
  lcore_count = 8;
  lcore_workers = 1 ∷ 2 ∷ 3 ∷ 4 ∷ 5 ∷ 6 ∷ 7 ∷ [];
  pool_ok = λ n. true;
  configure_ok = true;
  rx_queue_ok = true;
  tx_queue_ok = true;
  start_ok = true;
  worker_ring_ok = λ i. true;
  tx_ring_ok = true;
  timer_hz = 1000;
}

abbrev pub zeros : Buckets
zeros = record { worker = λ _. 0; last_seen = λ _. 0 }

abbrev load : Bytes → Engine occurrence_scan × Bool
load name = (nothing, true)

abbrev pub plan : Plan occurrence_scan
plan = launch occurrence_scan sys three_workers nothing zeros

booted : boot occurrence_scan load sys zeros ≡ ok plan
unfolding boot boot_workers create_rings parse_options take_option atoi digits
booted = refl

distinct : Distinct sys.lcore_workers
distinct = (
  (
    λ e. omega (arith, e),
    (
      λ e. omega (arith, e),
      (
        λ e. omega (arith, e),
        (λ e. omega (arith, e), (λ e. omega (arith, e), (λ e. omega (arith, e), tt))),
      ),
    ),
  ),
  (
    (
      λ e. omega (arith, e),
      (
        λ e. omega (arith, e),
        (λ e. omega (arith, e), (λ e. omega (arith, e), (λ e. omega (arith, e), tt))),
      ),
    ),
    (
      (
        λ e. omega (arith, e),
        (λ e. omega (arith, e), (λ e. omega (arith, e), (λ e. omega (arith, e), tt))),
      ),
      (
        (λ e. omega (arith, e), (λ e. omega (arith, e), (λ e. omega (arith, e), tt))),
        (
          (λ e. omega (arith, e), (λ e. omega (arith, e), tt)),
          ((λ e. omega (arith, e), tt), (tt, tt)),
        ),
      ),
    ),
  ),
)

-- The plan is laid out.
pub plan-LaidOut : LaidOut sys plan
plan-LaidOut = boot-LaidOut occurrence_scan load sys zeros plan (omega arith) distinct booted

boot-LaidOut_example : LaidOut sys plan
boot-LaidOut_example =
    boot-LaidOut occurrence_scan load sys zeros plan (omega arith) distinct booted
