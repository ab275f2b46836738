-- ===== src/Worker/Burst.antt =====
-- What one round of the worker's loop does with its packets and its counters.
use hyper_dpi.Prelude.{
  ℕ, zero, suc, ◌+◌, ◌≤◌, ◌≡◌, refl, ap, Bool, Bool-cases, inl, inr, Option, List, [], ◌∷◌, ◌++◌,
  length, take, leb, arith,
}
use hyper_dpi.Packet.{Mbuf}
use hyper_dpi.Table.{FlowHash}
use hyper_dpi.Engine.{HyperScan, Engine}
use hyper_dpi.Stats.Counters.{Counted, Counted-refl, Counted-trans}
use hyper_dpi.Worker.{
  Arrival, drop_first, Worker, handle_packets, count_sent, enqueue, flush, worker_burst,
}
use hyper_dpi.Worker.Conserve.{
  count, count_arrivals, count-append, count-split, held, handle_packets-held,
  handle_packets-Tallied, count_sent-Counted, drop_unsent-Counted, drop_unsent-held,
  drop_unsent-fwd,
}

length-drop_first :
    (n : ℕ) (xs : List Mbuf) → n ≤ length xs → n + length (drop_first n xs) ≡ length xs
length-drop_first zero xs h = omega arith
length-drop_first (suc n) [] h = absurd (omega arith)
length-drop_first (suc n) (x ∷ xs) h = omega (arith, length-drop_first n xs (omega arith))

count_nil : (p : Mbuf → Bool) (xs : List Mbuf) → length xs ≡ 0 → count p xs ≡ 0
count_nil p [] h = refl
count_nil p (x ∷ xs) h = absurd (omega arith)

module _ (fh : FlowHash) (H : HyperScan) (e : Engine H) (scratch : Option H.Scratch)
    (lcore : ℕ) where
  -- The packets of `fwd` are in the ring or freed, and counted as such.
  abbrev Flushed : Worker fh H → Worker fh H → Type 0
  Flushed w w' =
      ((p : Mbuf → Bool) → count p w'.tx_ring + count p w'.freed ≡ held fh H e scratch lcore p w)
      × Counted lcore w.stats w'.stats 0 (length w.fwd)

  enqueue-Flushed :
      (w : Worker fh H) (sent : ℕ)
      → sent ≤ length w.fwd
      → Flushed w (enqueue fh H e scratch lcore w sent)
  enqueue-Flushed w sent h =
      let w' : Worker fh H = record w {
        stats = count_sent fh H e scratch lcore sent w.stats;
        tx_ring = w.tx_ring ++ take sent w.fwd;
        fwd = [];
      } in
      let rest = drop_first sent w.fwd in
      (
        λ p. omega (
          arith,
          drop_unsent-held fh H e scratch lcore p w' rest,
          count-split p sent w.fwd,
          count-append p w.tx_ring (take sent w.fwd),
          ap (count p) (drop_unsent-fwd fh H e scratch lcore w' rest),
        ),
        Counted-trans lcore _ _ _ 0 0 sent (length rest) (omega arith)
            (omega (arith, length-drop_first sent w.fwd h))
            (count_sent-Counted fh H e scratch lcore sent w.stats)
            (drop_unsent-Counted fh H e scratch lcore w' rest),
      )

  flush-Flushed :
      (accepts : ℕ → ℕ) (w : Worker fh H)
      → ((n : ℕ) → accepts n ≤ n)
      → Flushed w (flush fh H e scratch lcore accepts w)
  unfolding flush
  flush-Flushed accepts w h = elim (Bool-cases (leb (length w.fwd) 0)) [
    | inl empty ↦
        let z : length w.fwd ≡ 0 = ground arith in
        rw empty (
          λ p. omega (arith, count_nil p w.fwd z),
          Counted-trans lcore _ _ _ 0 0 0 0 (omega arith) z (Counted-refl lcore w.stats)
              (Counted-refl lcore w.stats),
        )
    | inr some_left ↦ rw some_left (enqueue-Flushed w (accepts (length w.fwd)) (h (length w.fwd)))
  ]

-- No packet is lost or handled twice: of every kind of packet, the round puts as many into the TX
-- ring or back into the pool as the burst holds, if the enqueue takes no more than it is given. The
-- worker's own counters agree, up to their wrap-around: one packet classified, and one forwarded or
-- dropped, for each packet of the burst, and no other lcore's slot is written.
pub worker_burst-Counted :
    (fh : FlowHash) (H : HyperScan) (e : Engine H) (scratch : Option H.Scratch) (lcore : ℕ)
    (accepts : ℕ → ℕ) (w : Worker fh H) (arrivals : List Arrival)
    → ((n : ℕ) → accepts n ≤ n)
    → let w' = worker_burst fh H e scratch lcore accepts w arrivals in
      ((p : Mbuf → Bool)
        → count p w'.tx_ring + count p w'.freed
          ≡ count_arrivals p arrivals + (count p w.tx_ring + count p w.freed))
      × Counted lcore w.stats w'.stats (length arrivals) (length arrivals)
unfolding worker_burst
worker_burst-Counted fh H e scratch lcore accepts w arrivals h =
    let w₀ : Worker fh H = record w { fwd = [] } in
    let w₁ = handle_packets fh H e scratch lcore w₀ arrivals in
    let (d, c, f) = handle_packets-Tallied fh H e scratch lcore w₀ arrivals in
    let (kept, c') = flush-Flushed fh H e scratch lcore accepts w₁ h in
    (
      λ p. omega (arith, kept p, handle_packets-held fh H e scratch lcore p w₀ arrivals),
      Counted-trans lcore _ _ _ (length arrivals) 0 d (length w₁.fwd) (omega arith)
          (omega (arith, f)) c c',
    )
