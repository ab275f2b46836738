-- ===== src/Startup.antt =====
-- src/main.c, `main`: the options, the checks in their order, and the threads that are launched.
--
-- The calls of EAL, of the port and of the allocators are the record `System`: what each returns.
-- `rte_exit` ends the program; it is the value `exit`, with the place it is called from.
pub mod Arguments
pub mod Launched
pub mod Layout
pub mod Apart
use hyper_dpi.Prelude.{
  ℕ, zero, suc, ◌+◌, ◌*◌, ◌/◌, ◌%◌, ◌^◌, Bool, true, false, not, ◌&&◌, ◌||◌, ◌==◌, ltb, leb,
  if◌then◌else◌, Option, List, [], ◌∷◌, ◌++◌, Bytes, codes, get_or, take, Memory,
}
use hyper_dpi.Traffic.{max_workers}
use hyper_dpi.Buckets.{Buckets, table_init}
use hyper_dpi.Engine.{HyperScan, Engine, empty_engine, load_rules, free_rules}
use hyper_dpi.Stats.{StatsTable, stats_init}
use hyper_dpi.Startup.Arguments.{
  ExitReason, Boot, exit, ok, ◌>>=◌, ◌>>◌, check, Options, default_options, parse_options,
}

abbrev pub rx_ring_size : ℕ
rx_ring_size = 1024

abbrev pub worker_ring_size : ℕ
worker_ring_size = 1024

abbrev pub tx_ring_size : ℕ
tx_ring_size = 1024

abbrev pub mbuf_pool_cache : ℕ
mbuf_pool_cache = 256

abbrev pub app_port_id : ℕ
app_port_id = 0

-- What the calls of DPDK return, in the order of `main`. `RTE_LCORE_FOREACH_WORKER` runs over the
-- list of lcores that are not the main one.
pub record System : Type 0 where
  pub eal_ok : Bool
  pub found : List (ℕ × Bytes)
  pub dev_count : ℕ
  pub lcore_count : ℕ
  pub lcore_workers : List ℕ
  pub pool_ok : ℕ → Bool
  pub configure_ok : Bool
  pub rx_queue_ok : Bool
  pub tx_queue_ok : Bool
  pub start_ok : Bool
  pub worker_ring_ok : ℕ → Bool
  pub tx_ring_ok : Bool
  pub timer_hz : ℕ

-- The number of lcores that the threads need; it is added up in 32 bits.
abbrev pub needed_lcores : ℕ → ℕ
needed_lcores num_workers = (1 + num_workers + 1 + 1) % 2 ^ 32

abbrev pub nb_mbufs_of : Options → ℕ
nb_mbufs_of o =
    if not (o.mbuf_pool_override == 0)
    then o.mbuf_pool_override
    else (rx_ring_size
        + o.num_workers * worker_ring_size
        + tx_ring_size
        + needed_lcores o.num_workers * mbuf_pool_cache)
      % 2 ^ 32

-- The rings of the workers are created one after another; the first that fails ends the program.
unfoldable pub create_rings : (ℕ → Bool) → ℕ → ℕ → Boot (Unit {0})
create_rings ring_ok zero i = ok tt
create_rings ring_ok (suc n) i = do
  check (ExitReason.no_worker_ring i) (ring_ok i)
  create_rings ring_ok n (i + 1)

-- `worker_lcores[i] = lcores[1 + i]` for the rounds that are left.
unfoldable pub worker_lcores_of : List ℕ → ℕ → ℕ → List ℕ
worker_lcores_of lcores zero i = []
worker_lcores_of lcores (suc n) i = get_or lcores (1 + i) 0 ∷ worker_lcores_of lcores n (i + 1)

module _ (H : HyperScan) where
  -- What the threads are launched with.
  pub record Plan : Type 0 where
    pub engine : Engine H
    pub stats : StatsTable
    pub buckets : Buckets
    pub num_workers : ℕ
    pub rebalance_enabled : Bool
    pub nb_mbufs : ℕ
    pub flow_timeout_cycles : ℕ
    pub rx_lcore : ℕ
    pub worker_lcores : List ℕ
    pub tx_lcore : ℕ
    pub stats_lcore : ℕ

  -- `lcores` holds the first lcores that the loop has met. An index past them reads 0.
  abbrev pub launch : System → Options → Engine H → Buckets → Plan
  launch sys o engine buckets =
      let n = o.num_workers in
      let lcores = take (needed_lcores n) sys.lcore_workers in
      record {
        engine = engine;
        stats = stats_init;
        buckets = table_init buckets n;
        num_workers = n;
        rebalance_enabled = o.rebalance_enabled;
        nb_mbufs = nb_mbufs_of o;
        flow_timeout_cycles = sys.timer_hz * 3 % 2 ^ 64 / 2;
        rx_lcore = get_or lcores 0 0;
        worker_lcores = worker_lcores_of lcores n 0;
        tx_lcore = get_or lcores (1 + n) 0;
        stats_lcore = get_or lcores (2 + n) 0;
      }

  -- From the number of workers on. `load` is `dpi_engine_load_rules` on a file's name.
  unfoldable pub boot_workers : (Bytes → Engine H × Bool) → System → Buckets → Options → Boot Plan
  boot_workers load sys buckets o = do
    check ExitReason.bad_num_workers (not (ltb o.num_workers 2 || ltb max_workers o.num_workers))
    check ExitReason.no_rules (load o.patterns_file).1
    check ExitReason.no_port (not (sys.dev_count == 0))
    check ExitReason.few_lcores (not (ltb sys.lcore_count (needed_lcores o.num_workers + 1)))
    check ExitReason.no_mbuf_pool (sys.pool_ok (nb_mbufs_of o))
    check ExitReason.no_configure sys.configure_ok
    check ExitReason.no_rx_queue sys.rx_queue_ok
    check ExitReason.no_tx_queue sys.tx_queue_ok
    check ExitReason.no_start sys.start_ok
    create_rings sys.worker_ring_ok o.num_workers 0
    check ExitReason.no_tx_ring sys.tx_ring_ok
    ok (launch sys o (load o.patterns_file).0 buckets)

  unfoldable pub boot : (Bytes → Engine H × Bool) → System → Buckets → Boot Plan
  boot load sys buckets = do
    check ExitReason.eal_init sys.eal_ok
    o ← parse_options default_options sys.found
    boot_workers load sys buckets o

  -- `main` up to the threads' end: `files` are the contents of the files that can be opened, and
  -- the three allocators of `dpi_engine_load_rules` are as in Engine.
  unfoldable pub main_boot :
      (Bytes → Option Bytes) → (ℕ → Bool) → Bool → Bool → System → Buckets → Boot Plan
  main_boot files realloc_ok http_ok https_ok sys buckets =
      boot (λ name. load_rules H realloc_ok http_ok https_ok (files name) (empty_engine H)) sys
        buckets

  -- After the threads have ended: the rules are given back.
  unfoldable pub shut_down : Plan → Engine H
  shut_down plan = free_rules H plan.engine

-- `SIGINT` is 2 and `SIGTERM` is 15.
abbrev pub signal_handler : ℕ → Bool → Bool
signal_handler signum force_quit = if signum == 2 || signum == 15 then true else force_quit
