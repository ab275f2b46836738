-- ===== src/Worker/Conserve.antt =====
-- Every packet is forwarded or dropped, once.
use hyper_dpi.Prelude.{
  ℕ, zero, suc, ◌+◌, ◌≡◌, refl, ap, Bool, true, false, if◌then◌else◌, Option, none, some, List, [],
  ◌∷◌, ◌++◌, length, length-append, take, arith,
}
use hyper_dpi.Traffic.{non_dpi, Action, forward, drop}
use hyper_dpi.Packet.{Mbuf, L2L4Result, parse_l2_l4}
use hyper_dpi.Table.{FlowHash, flow_update}
use hyper_dpi.Engine.{HyperScan, Engine}
use hyper_dpi.Stats.{StatsTable, stats_count_tls_no_sni}
use hyper_dpi.Stats.Counters.{
  Counted, Counted-refl, Counted-trans, classified-Counted, forwarded-Counted, dropped-Counted,
  no_sni-Counted,
}
use hyper_dpi.Worker.{
  Arrival, drop_first, Worker, count_dropped, apply, handle_parsed, handle_packet, handle_packets,
  count_sent, drop_unsent,
}

module _ (p : Mbuf → Bool) where
  -- How many packets of the list are of the kind `p`.
  abbrev pub count : List Mbuf → ℕ
  count [] = 0
  count (x ∷ xs) = let n = count xs in if p x then suc n else n

  abbrev pub count_arrivals : List Arrival → ℕ
  count_arrivals [] = 0
  count_arrivals (a ∷ rest) = let n = count_arrivals rest in if p a.pkt then suc n else n

  pub count-append : (xs ys : List Mbuf) → count (xs ++ ys) ≡ count xs + count ys
  count-append [] ys = omega arith
  count-append (x ∷ xs) ys = ground (arith, count-append xs ys)

  pub count-split :
      (n : ℕ) (xs : List Mbuf) → count (take n xs) + count (drop_first n xs) ≡ count xs
  count-split zero xs = omega arith
  count-split (suc n) [] = omega arith
  count-split (suc n) (x ∷ xs) = ground (arith, count-split n xs)

module _ (fh : FlowHash) (H : HyperScan) (e : Engine H) (scratch : Option H.Scratch)
    (lcore : ℕ) where
  abbrev pub held : (Mbuf → Bool) → Worker fh H → ℕ
  held p w = count p w.fwd + (count p w.tx_ring + count p w.freed)

  apply-held :
      (p : Mbuf → Bool) (w : Worker fh H) (pkt : Mbuf) (action : Action)
      → held p (apply fh H e scratch lcore w pkt action) ≡ count p (pkt ∷ []) + held p w
  unfolding apply
  apply-held p w pkt drop = omega (arith, count-append p w.freed (pkt ∷ []))
  apply-held p w pkt forward = omega (arith, count-append p w.fwd (pkt ∷ []))

  handle_parsed-held :
      (p : Mbuf → Bool) (w : Worker fh H) (a : Arrival) (o : Option L2L4Result)
      → held p (handle_parsed fh H e scratch lcore w a o) ≡ count p (a.pkt ∷ []) + held p w
  unfolding handle_parsed
  handle_parsed-held p w a none = omega (arith, count-append p w.freed (a.pkt ∷ []))
  handle_parsed-held p w a (some l2l4) = apply-held p _ a.pkt _

  pub handle_packets-held :
      (p : Mbuf → Bool) (w : Worker fh H) (rest : List Arrival)
      → held p (handle_packets fh H e scratch lcore w rest) ≡ count_arrivals p rest + held p w
  unfolding handle_packets handle_packet
  handle_packets-held p w [] = omega arith
  handle_packets-held p w (a ∷ rest) = ground (
    arith,
    handle_packets-held p (handle_packet fh H e scratch lcore w a) rest,
    handle_parsed-held p w a (parse_l2_l4 a.pkt),
  )

  -- The counters of the burst so far: packets dropped are counted, those in `fwd` are not yet.
  abbrev pub Tallied : Worker fh H → Worker fh H → ℕ → Type 0
  Tallied w w' n =
      (d : ℕ) × Counted lcore w.stats w'.stats n d × (d + length w'.fwd ≡ n + length w.fwd)

  apply-Tallied :
      (w w' : Worker fh H) (pkt : Mbuf) (action : Action)
      → Counted lcore w.stats w'.stats 1 0
      → w'.fwd ≡ w.fwd
      → Tallied w (apply fh H e scratch lcore w' pkt action) 1
  unfolding apply
  apply-Tallied w w' pkt drop c f = (
    1,
    Counted-trans lcore _ _ _ 1 0 0 1 (omega arith) (omega arith) c
        (dropped-Counted lcore w'.stats),
    omega (arith, ap (length {A = Mbuf}) f),
  )
  apply-Tallied w w' pkt forward c f =
      (0, c, omega (arith, ap (length {A = Mbuf}) f, length-append {0} w'.fwd (pkt ∷ [])))

  no_sni-if :
      (b : Bool) (t : StatsTable)
      → Counted lcore t (if b then stats_count_tls_no_sni t lcore else t) 0 0
  no_sni-if true t = no_sni-Counted lcore t
  no_sni-if false t = Counted-refl lcore t

  handle_parsed-Tallied :
      (w : Worker fh H) (a : Arrival) (o : Option L2L4Result)
      → Tallied w (handle_parsed fh H e scratch lcore w a o) 1
  unfolding handle_parsed
  handle_parsed-Tallied w a none = (
    1,
    Counted-trans lcore _ _ _ 1 0 0 1 (omega arith) (omega arith)
        (classified-Counted lcore w.stats non_dpi) (dropped-Counted lcore _),
    omega arith,
  )
  handle_parsed-Tallied w a (some l2l4) =
      apply-Tallied w _ a.pkt _
        (Counted-trans lcore _ _ _ 1 0 0 0 (omega arith) (omega arith)
          (classified-Counted lcore w.stats l2l4.type)
          (no_sni-if (flow_update fh w.ft l2l4 a.expire_now a.now).0.out_no_sni _))
        refl

  pub handle_packets-Tallied :
      (w : Worker fh H) (rest : List Arrival)
      → Tallied w (handle_packets fh H e scratch lcore w rest) (length rest)
  unfolding handle_packets handle_packet
  handle_packets-Tallied w [] = (0, Counted-refl lcore w.stats, refl)
  handle_packets-Tallied w (a ∷ rest) =
      let w' = handle_packet fh H e scratch lcore w a in
      let (d, c, f) = handle_parsed-Tallied w a (parse_l2_l4 a.pkt) in
      let (d', c', f') = handle_packets-Tallied w' rest in
      (
        d + d',
        Counted-trans lcore _ _ _ 1 (length rest) d d' (omega arith) (omega arith) c c',
        omega (arith, f, f'),
      )

  pub count_sent-Counted :
      (n : ℕ) (t : StatsTable) → Counted lcore t (count_sent fh H e scratch lcore n t) 0 n
  unfolding count_sent
  count_sent-Counted zero t = Counted-refl lcore t
  count_sent-Counted (suc n) t =
      Counted-trans lcore _ _ _ 0 0 1 n (omega arith) (omega arith) (forwarded-Counted lcore t)
        (count_sent-Counted n _)

  pub drop_unsent-Counted :
      (w : Worker fh H) (pkts : List Mbuf)
      → Counted lcore w.stats (drop_unsent fh H e scratch lcore w pkts).stats 0 (length pkts)
  unfolding drop_unsent
  drop_unsent-Counted w [] = Counted-refl lcore w.stats
  drop_unsent-Counted w (pkt ∷ pkts) =
      Counted-trans lcore _ _ _ 0 0 1 (length pkts) (omega arith) (omega arith)
        (dropped-Counted lcore w.stats)
        (drop_unsent-Counted (count_dropped fh H e scratch lcore w pkt) pkts)

  pub drop_unsent-held :
      (p : Mbuf → Bool) (w : Worker fh H) (pkts : List Mbuf)
      → held p (drop_unsent fh H e scratch lcore w pkts) ≡ count p pkts + held p w
  unfolding drop_unsent
  drop_unsent-held p w [] = omega arith
  drop_unsent-held p w (pkt ∷ pkts) = ground (
    arith,
    drop_unsent-held p (count_dropped fh H e scratch lcore w pkt) pkts,
    count-append p w.freed (pkt ∷ []),
  )

  pub drop_unsent-fwd :
      (w : Worker fh H) (pkts : List Mbuf) → (drop_unsent fh H e scratch lcore w pkts).fwd ≡ w.fwd
  unfolding drop_unsent
  drop_unsent-fwd w [] = refl
  drop_unsent-fwd w (pkt ∷ pkts) = drop_unsent-fwd (count_dropped fh H e scratch lcore w pkt) pkts
