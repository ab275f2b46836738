-- ===== src/Buckets/Affinity.antt =====
-- Steering keeps a live flow on its worker, across any interleaving of the RX and Stats threads.
use hyper_dpi.Prelude.{ℕ, ◌+◌, ◌^◌, ◌≤◌, ◌<◌, ◌≡◌, refl, arith, ap, ◌∙◌, Memory}
use hyper_dpi.Buckets.{Buckets, bucket_of, select_worker, rebalance}
use hyper_dpi.Buckets.Rebalance.{rebalance_lem}

-- One call on the shared tables: the RX thread steers a packet, or the Stats thread rebalances.
pub data Call : Type 0 where
  steer : (hash now : ℕ) → Call
  balance : (over under now threshold : ℕ) → Call

unfoldable pub perform : Call → Buckets → Buckets
perform (steer hash now) s = (select_worker s hash now).1
perform (balance over under now threshold) s = (rebalance over under now threshold s).1

-- A schedule of calls, in the order in which they take effect.
pub data Run : Buckets → Buckets → Type 0 where
  done : {s : Buckets} → Run s s
  step : {s s' : Buckets} (c : Call) → Run (perform c s) s' → Run s s'

-- From time `t` on the calls are not older than `t`, and no rebalance looks further ahead of `t`
-- than its idle threshold.
abbrev pub Within : ℕ → Call → Type 0
Within t (steer hash now) = t ≤ now
Within t (balance over under now threshold) =
    (now ≤ t + threshold) × (now < 2 ^ 64) × (under < 2 ^ 8)

abbrev pub AllWithin : ℕ → {s s' : Buckets} → Run s s' → Type 0
AllWithin t done = Unit {0}
AllWithin t (step c r) = Within t c × AllWithin t r

-- A bucket stamped at `t` or later is moved by no call within its time.
perform-keeps :
    (t b : ℕ) (c : Call) (s : Buckets)
    → Within t c
    → t ≤ s.last_seen b
    → ((perform c s).worker b ≡ s.worker b) × (t ≤ (perform c s).last_seen b)
unfolding perform select_worker
perform-keeps t b (steer hash now) s w h = ground arith
perform-keeps t b (balance over under now threshold) s (w, n, u) h =
    let lem = rebalance_lem over under now threshold s n u in
    ground (arith, lem.1 b, ap (λ (f : Memory). f b) lem.3)

Run-keeps :
    (t b : ℕ) {s s' : Buckets} (r : Run s s')
    → AllWithin t r
    → t ≤ s.last_seen b
    → s'.worker b ≡ s.worker b
Run-keeps t b done w h = refl
Run-keeps t b (step {s} c r) (w, ws) h =
    let (kept, later) = perform-keeps t b c s w h in Run-keeps t b r ws later ∙ kept

-- A flow that sends again within the idle threshold stays on its worker: after a packet of hash
-- `hash` at time `t`, whatever packets are steered at `t` or later and whatever rebalances happen
-- at most their idle threshold after `t`, the next packet of that hash goes to the same worker.
pub select_worker-Run :
    (hash t t' : ℕ) (s : Buckets) {s' : Buckets} (r : Run (select_worker s hash t).1 s')
    → AllWithin t r
    → (select_worker s' hash t').0 ≡ (select_worker s hash t).0
unfolding select_worker
select_worker-Run hash t t' s r w = Run-keeps t (bucket_of hash) r w (ground arith)
