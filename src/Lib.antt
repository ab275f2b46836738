-- ===== src/Lib.antt =====
-- HyperDPI, a gateway that inspects HTTP and TLS traffic between DPDK threads.
--
-- The RX thread takes packets from the network and steers each by the hash of its flow, through a
-- table of 256 buckets, to the ring of a worker. A worker parses a packet down to TCP, finds its
-- flow in the worker's own table, places the payload in the flow's reassembly buffer by its
-- sequence number, and tries to extract the URL of an HTTP request or the server name of a TLS
-- ClientHello. The text is scanned once against the rules, the verdict is kept with the flow, and
-- packets go on to the TX ring or back to the pool. The TX thread sends what is in the TX ring. The
-- Stats thread sums up counters and moves idle buckets from an overloaded worker to an underloaded
-- one. `main` checks its options and what DPDK has, and launches the threads.
--
-- Files and the code they model:
--   Prelude    shared names, Boolean tests, lists on native numbers, fixed-width words, memory
--   Traffic    include/hyperdpi.h: the traffic types and the actions
--   Packet     src/parser.c: `extract_headers`, `parser_parse_l2_l4`, `parser_flow_rss_hash`
--   Buckets    src/parser.c: `parser_bucket_table_init`, `_select_worker`, `_rebalance`,
--              `_get_distribution`
--   Flow       src/parser.c: `struct flow_state`; Flow/Place is the middle part of
--              `parser_flow_update`, which writes a segment into the buffer
--   Http, Tls  src/parser.c: `try_extract_http`, `try_extract_tls_sni`
--   Table      src/parser.c: `struct flow_table`, `parser_flow_update`, `flow_table_expire`,
--              `parser_flow_cache_verdict`; Table/Lifetime: `parser_flow_table_create`, `_free`
--   Rules      src/dpi_engine.c: `trim`, `parse_line` and the reading loop of
--              `dpi_engine_load_rules`
--   Engine     src/dpi_engine.c: `compile_db`, the rest of `dpi_engine_load_rules`,
--              `dpi_engine_alloc_scratch`, `dpi_engine_free_rules`, `on_match`, `dpi_engine_scan`
--   Stats      include/stats.h, src/stats.c: the counters, `aggregate`, `worker_processed`;
--              Stats/Loads and Stats/Thread are a round of the loop of `stats_thread_main`
--   Worker     src/main.c: one round of the loop of `worker_thread_main`; Worker/Thread is the whole
--              of it
--   Rx, Tx     src/main.c: one burst of the loops of `rx_thread_main` and `tx_thread_main`
--   Startup    src/main.c: `main` up to the launch of the threads, `signal_handler`;
--              Startup/Arguments is its option loop
--   Pipeline   src/main.c and src/stats.c: the threads together, on what they share
--   Fallback   include/parser.h, src/parser.c: `parser_flow_classify_fallback`
--   Tests      concrete instances
-- The child modules of a part hold its descriptions and proofs; an operation of the code keeps its
-- name, without the prefix of its file.
--
-- Words are natural numbers, with each wrap-around and narrowing of the source written out. A buffer
-- is a function from indexes to bytes, a C string the list of its bytes without the NUL. State is
-- passed on explicitly; a failure return is `none` or a Boolean. A handler reads the clock through
-- an argument.
--
-- Loops that are not structural have a bound on their rounds: the advance of the gap-free prefix has
-- the high-water mark, the walk over TLS extensions the length of their block, the reading of a file
-- its length and one, the sweep of the table the number of its slots and one. The last three are
-- shown to be enough. The loop of a thread is a sequence of rounds; `Steps` of Pipeline is any
-- interleaving of the rounds of all threads.
--
-- Code outside the repository is an argument: `FlowHash` is DPDK's `rte_hash`, `HyperScan` the
-- pattern matcher, each a record of operations with the laws that its documentation states; the hash
-- function of keys, the results of memory allocation and the number of packets that a ring takes
-- are arguments of the functions that use them. `Double` is the arithmetic of doubles, with the facts
-- of their order that every double satisfies, and `System` what EAL, the port and the allocators
-- return to `main`. Tests/Hash, Tests/Scanner and Tests/Doubles show that the laws can hold.
--
-- Not modelled: what is printed, and `usage`; the bits of a double, so rounding and overflow of the
-- rates are left open; stopping the port and freeing the rings at the end of `main`, which are
-- calls of DPDK alone; effects of memory order between threads, as a round of a thread is one step
-- in Pipeline, and a call on the bucket tables one step in Buckets/Affinity.
pub mod Prelude
pub mod Traffic
pub mod Packet
pub mod Buckets
pub mod Flow
pub mod Http
pub mod Tls
pub mod Table
pub mod Rules
pub mod Engine
pub mod Stats
pub mod Worker
pub mod Rx
pub mod Tx
pub mod Fallback
pub mod Startup
pub mod Pipeline
pub mod Tests
