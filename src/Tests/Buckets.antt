-- ===== src/Tests/Buckets.antt =====
-- Buckets.
use hyper_dpi.Prelude.{◌≡◌, arith}
use hyper_dpi.Buckets.{Buckets, table_init, select_worker}
use hyper_dpi.Buckets.Affinity.{perform, steer, balance, Run, done, step, select_worker-Run}

abbrev fresh : Buckets
fresh = record { worker = λ _. 0; last_seen = λ _. 0 }

abbrev start : Buckets
start = table_init fresh 2

-- Another flow's packet, and a rebalance within the threshold.
abbrev after_steer : Buckets
after_steer = (select_worker start 5 1000).1

abbrev two_calls : Buckets → Buckets
two_calls s = perform (balance 1 0 1150 200) (perform (steer 6 1100) s)

abbrev some_run : Run after_steer (two_calls after_steer)
some_run = step (steer 6 1100) (step (balance 1 0 1150 200) done)

select_worker-Run_example :
    (select_worker (two_calls after_steer) 5 1200).0 ≡ (select_worker start 5 1000).0
select_worker-Run_example =
    select_worker-Run 5 1000 1200 start some_run
      (omega arith, ((omega arith, omega arith, omega arith), tt))

abbrev other_run : Run start (two_calls start)
other_run = step (steer 6 1100) (step (balance 1 0 1150 200) done)
