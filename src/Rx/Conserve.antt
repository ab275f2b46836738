-- ===== src/Rx/Conserve.antt =====
-- Every received packet is handed to a ring or given back.
use hyper_dpi.Prelude.{
  ℕ, zero, suc, ◌+◌, ◌≤◌, ◌<◌, ◌≡◌, ◌≢◌, refl, sym, ap, ◌∙◌, Bool, ◌==◌, ==_self, ==_ne, ==_iff,
  Bool-cases, inl, inr, if◌then◌else◌, List, [], ◌∷◌, ◌++◌, length, take, leb, arith, update,
  Memory,
}
use hyper_dpi.Packet.{FlowKey, Mbuf, flow_rss_hash}
use hyper_dpi.Buckets.{bucket_of}
use hyper_dpi.Buckets.Range.{InRange}
use hyper_dpi.Stats.{stats_add_rx}
use hyper_dpi.Worker.{drop_first}
use hyper_dpi.Worker.Conserve.{count, count-append, count-split}
use hyper_dpi.Rx.{
  Rx, drop_one, steer_packets, drop_packets, enqueue_to, enqueue_one, enqueue_all, sum_bytes,
  rx_burst,
}
use hyper_dpi.Rx.Steer.{packets_of, steer_packets_lem, steer_packets-rings}

-- The sum over workers `w .. w + n`.
abbrev pub sum_from : (ℕ → ℕ) → ℕ → ℕ → ℕ
sum_from f w zero = 0
sum_from f w (suc n) = f w + sum_from f (w + 1) n

sum_from-ap :
    (f g : ℕ → ℕ) (w n : ℕ) → ((i : ℕ) → w ≤ i → f i ≡ g i) → sum_from f w n ≡ sum_from g w n
sum_from-ap f g w zero h = refl
sum_from-ap f g w (suc n) h =
    omega (arith, h w (omega arith), sum_from-ap f g (w + 1) n (λ i lt. h i (omega arith)))

sum_from_zero : (w n : ℕ) → sum_from (λ i. 0) w n ≡ 0
sum_from_zero w zero = refl
sum_from_zero w (suc n) = omega (arith, sum_from_zero (w + 1) n)

sum_from_add :
    (f g : ℕ → ℕ) (w n : ℕ) → sum_from (λ i. f i + g i) w n ≡ sum_from f w n + sum_from g w n
sum_from_add f g w zero = omega arith
sum_from_add f g w (suc n) = omega (arith, sum_from_add f g (w + 1) n)

-- A sum in which one worker `b` has `c` more.
module _ (f g : ℕ → ℕ) (b c : ℕ) (bump : (i : ℕ) → f i ≡ g i + (if b == i then c else 0)) where
  sum_from_behind : (w n : ℕ) → b < w → sum_from f w n ≡ sum_from g w n
  sum_from_behind w n h = sum_from-ap f g w n (λ i low. ground (arith, bump i))

  pub sum_from_bump : (w n : ℕ) → w ≤ b → b < w + n → sum_from f w n ≡ sum_from g w n + c
  sum_from_bump w zero low high = absurd (omega arith)
  sum_from_bump w (suc n) low high = elim (Bool-cases (b == w)) [
    | inl here ↦
        let same = (==_iff b w).0 here in
        let e = bump w in
        let e' = rw here at e in omega (arith, e', sum_from_behind (w + 1) n (omega arith))
    | inr other ↦
        let e = bump w in
        let e' = rw other at e in
        omega (arith, e', sum_from_bump (w + 1) n (ground arith) (omega arith))
  ]

module _ (jhash : FlowKey → ℕ) (lcore : ℕ) (p : Mbuf → Bool) where
  drop_packets_lem :
      (rx : Rx) (pkts : List Mbuf)
      → let rx' = drop_packets jhash lcore rx pkts in
        (count p rx'.freed ≡ count p rx.freed + count p pkts)
        × (rx'.rings ≡ rx.rings)
        × (rx'.dest ≡ rx.dest)
  unfolding drop_packets
  drop_packets_lem rx [] = (omega arith, refl, refl)
  drop_packets_lem rx (pkt ∷ pkts) =
      let ih = drop_packets_lem (drop_one jhash lcore rx pkt) pkts in
      (ground (arith, ih.0, count-append p rx.freed (pkt ∷ [])), ih.1, ih.2)

  -- What one ring and the pool hold after an enqueue.
  enqueue_to_lem :
      (rx : Rx) (w sent : ℕ)
      → let rx' = enqueue_to jhash lcore rx w sent in
        (count p (rx'.rings w) + count p rx'.freed
          ≡ count p (rx.rings w) + count p (rx.dest w) + count p rx.freed)
        × ((i : ℕ) → i ≢ w → rx'.rings i ≡ rx.rings i)
        × (rx'.dest ≡ rx.dest)
  enqueue_to_lem rx w sent =
      let rx₁ : Rx = record rx {
        rings = update rx.rings w (rx.rings w ++ take sent (rx.dest w));
      } in
      let d = drop_packets_lem rx₁ (drop_first sent (rx.dest w)) in
      let at_w : rx₁.rings w ≡ rx.rings w ++ take sent (rx.dest w) = rw (==_self w) refl in
      (
        omega (
          arith,
          d.0,
          ap (λ (f : ℕ → List Mbuf). count p (f w)) d.1,
          ap (count p) at_w,
          count-append p (rx.rings w) (take sent (rx.dest w)),
          count-split p sent (rx.dest w),
        ),
        λ i ne. ap (λ (f : ℕ → List Mbuf). f i) d.1 ∙ rw (==_ne w i (λ e. ne (sym e))) refl,
        d.2,
      )

  count_none : (xs : List Mbuf) → length xs ≡ 0 → count p xs ≡ 0
  count_none [] h = refl
  count_none (x ∷ xs) h = absurd (omega arith)

  enqueue_one_lem :
      (accepts : ℕ → ℕ → ℕ) (w : ℕ) (rx : Rx)
      → let rx' = enqueue_one jhash lcore accepts w rx in
        (count p (rx'.rings w) + count p rx'.freed
          ≡ count p (rx.rings w) + count p (rx.dest w) + count p rx.freed)
        × ((i : ℕ) → i ≢ w → rx'.rings i ≡ rx.rings i)
        × (rx'.dest ≡ rx.dest)
  unfolding enqueue_one
  enqueue_one_lem accepts w rx = elim (Bool-cases (leb (length (rx.dest w)) 0)) [
    | inl idle ↦
        let z : count p (rx.dest w) ≡ 0 = count_none (rx.dest w) (ground arith) in
        rw idle (omega (arith, z), λ i ne. refl, refl)
    | inr busy ↦ rw busy (enqueue_to_lem rx w (accepts w (length (rx.dest w))))
  ]

  -- What the rings from `w` on and the pool hold after the loop over them.
  enqueue_all_lem :
      (accepts : ℕ → ℕ → ℕ) (n w : ℕ) (rx : Rx)
      → let rx' = enqueue_all jhash lcore accepts n w rx in
        (sum_from (λ i. count p (rx'.rings i)) w n + count p rx'.freed
          ≡ sum_from (λ i. count p (rx.rings i) + count p (rx.dest i)) w n + count p rx.freed)
        × ((i : ℕ) → i < w → rx'.rings i ≡ rx.rings i)
  unfolding enqueue_all
  enqueue_all_lem accepts zero w rx = (refl, λ i h. refl)
  enqueue_all_lem accepts (suc n) w rx =
      let rx₁ = enqueue_one jhash lcore accepts w rx in
      let one = enqueue_one_lem accepts w rx in
      let ih = enqueue_all_lem accepts n (w + 1) rx₁ in
      let rest =
        sum_from-ap (λ i. count p (rx₁.rings i) + count p (rx₁.dest i))
          (λ i. count p (rx.rings i) + count p (rx.dest i)) (w + 1) n
          (λ i low. omega (
            arith,
            ap (count p) (one.1 i (λ e. absurd (omega (arith, e)))),
            ap (λ (f : ℕ → List Mbuf). count p (f i)) one.2,
          )) in
      (
        omega (arith, ih.0, ap (count p) (ih.1 w (omega arith)), one.0, rest),
        λ i h. ih.1 i (omega arith) ∙ one.1 i (λ e. absurd (omega (arith, e))),
      )

  -- The packets of all workers are those of the burst.
  packets_of-sum :
      (worker : Memory) (n : ℕ) (pkts : List Mbuf)
      → ((b : ℕ) → b < 256 → worker b < n)
      → sum_from (λ w. count p (packets_of jhash worker w pkts)) 0 n ≡ count p pkts
  packets_of-sum worker n [] h = sum_from_zero 0 n
  packets_of-sum worker n (pkt ∷ pkts) h =
      let b = worker (bucket_of (flow_rss_hash jhash pkt)) in
      ground (
        arith,
        packets_of-sum worker n pkts h,
        sum_from_bump (λ w. count p (packets_of jhash worker w (pkt ∷ pkts)))
            (λ w. count p (packets_of jhash worker w pkts)) b (if p pkt then 1 else 0) (λ i. bump i)
            0 n (omega arith)
            (omega (arith, h (bucket_of (flow_rss_hash jhash pkt)) (omega arith))),
      )
    where
      bump :
          (i : ℕ)
          → count p (packets_of jhash worker i (pkt ∷ pkts))
            ≡ count p (packets_of jhash worker i pkts)
              + (if worker (bucket_of (flow_rss_hash jhash pkt)) == i
                  then (if p pkt then 1 else 0)
                  else 0)
      bump i = ground arith

-- No received packet is lost or handled twice: where every bucket is on a worker of the system, a
-- burst adds to the workers' rings and to the pool, together, exactly the packets received, of every
-- kind and however many packets each ring takes.
pub rx_burst-sum :
    (jhash : FlowKey → ℕ) (lcore : ℕ) (accepts : ℕ → ℕ → ℕ) (num_workers now : ℕ) (rx : Rx)
    (pkts : List Mbuf)
    → InRange num_workers rx.buckets
    → (p : Mbuf → Bool)
    → let rx' = rx_burst jhash lcore accepts num_workers now rx pkts in
      sum_from (λ w. count p (rx'.rings w)) 0 num_workers + count p rx'.freed
      ≡ count p pkts + (sum_from (λ w. count p (rx.rings w)) 0 num_workers + count p rx.freed)
unfolding rx_burst
rx_burst-sum jhash lcore accepts num_workers now rx pkts h p =
    let rx₀ : Rx = record rx { dest = λ _. [] } in
    let rx₁ = steer_packets jhash lcore now rx₀ pkts in
    let rx₂ : Rx = record rx₁ {
      stats = stats_add_rx rx.stats lcore (length pkts) (sum_bytes jhash lcore 0 pkts);
    } in
    let s = steer_packets_lem jhash lcore now rx₀ pkts in
    let k = steer_packets-rings jhash lcore now rx₀ pkts in
    let e = enqueue_all_lem jhash lcore p accepts num_workers 0 rx₂ in
    let split =
      sum_from_add (λ w. count p (rx₁.rings w)) (λ w. count p (rx₁.dest w)) 0 num_workers in
    let rings =
      sum_from-ap (λ w. count p (rx₁.rings w)) (λ w. count p (rx.rings w)) 0 num_workers
        (λ i low. ap (λ (f : ℕ → List Mbuf). count p (f i)) k.0) in
    let dests =
      sum_from-ap (λ w. count p (rx₁.dest w))
        (λ w. count p (packets_of jhash rx.buckets.worker w pkts)) 0 num_workers
        (λ i low. ap (count p) (s.1 i)) in
    omega (
      arith,
      e.0,
      split,
      rings,
      dests,
      ap (count p) k.1,
      packets_of-sum jhash lcore p rx.buckets.worker num_workers pkts h,
    )
