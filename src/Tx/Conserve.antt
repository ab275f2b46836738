-- ===== src/Tx/Conserve.antt =====
-- Every packet that the TX thread takes is sent or freed, and the counter counts the ones sent.
use hyper_dpi.Prelude.{
  ℕ, zero, suc, ◌+◌, ◌%◌, ◌^◌, ◌≤◌, ◌≡◌, ◌≢◌, refl, ap, sym, Bool, Bool-cases, inl, inr, List, [],
  ◌∷◌, ◌++◌, take, leb, length, length-take, length-append, arith, ==_self, ==_ne, ◌∙◌,
}
use hyper_dpi.Packet.{Mbuf}
use hyper_dpi.Stats.{stats_add_tx}
use hyper_dpi.Worker.{drop_first}
use hyper_dpi.Worker.Conserve.{count, count-append, count-split}
use hyper_dpi.Tx.{Tx, free_unsent, tx_burst}

module _ (lcore : ℕ) where
  free_unsent_lem :
      (tx : Tx) (pkts : List Mbuf)
      → let tx' = free_unsent lcore tx pkts in
        (tx'.stats ≡ tx.stats)
        × (tx'.wire ≡ tx.wire)
        × (tx'.tx_ring ≡ tx.tx_ring)
        × ((p : Mbuf → Bool) → count p tx'.freed ≡ count p pkts + count p tx.freed)
  unfolding free_unsent
  free_unsent_lem tx [] = (refl, refl, refl, λ p. omega arith)
  free_unsent_lem tx (pkt ∷ pkts) =
      let ih = free_unsent_lem (record tx { freed = tx.freed ++ pkt ∷ [] }) pkts in
      (ih.0, ih.1, ih.2, λ p. ground (arith, ih.3 p, count-append p tx.freed (pkt ∷ [])))

  -- What a round does: the packets on the wire are the ones before and then a prefix of the ring,
  -- and the rest of what was taken goes to the pool.
  pub record Sent (tx tx' : Tx) : Type 0 where
    pub count_taken : ℕ
    pub count_sent : ℕ
    pub sent_le : count_sent ≤ count_taken
    pub left : tx'.tx_ring ≡ drop_first count_taken tx.tx_ring
    pub in_order : tx'.wire ≡ tx.wire ++ take count_sent tx.tx_ring
    pub kept :
        (p : Mbuf → Bool)
        → count p tx'.wire + (count p tx'.tx_ring + count p tx'.freed)
          ≡ count p tx.wire + (count p tx.tx_ring + count p tx.freed)
    pub longer : length tx'.wire ≡ length tx.wire + count_sent
    pub counted :
        (tx'.stats lcore).tx_packets % 2 ^ 64 ≡ ((tx.stats lcore).tx_packets + count_sent) % 2 ^ 64
    pub others : (j : ℕ) → j ≢ lcore → tx'.stats j ≡ tx.stats j

  take-take : (m n : ℕ) (xs : List Mbuf) → m ≤ n → take m (take n xs) ≡ take m xs
  take-take zero n xs h = refl
  take-take (suc m) zero xs h = absurd (omega arith)
  take-take (suc m) (suc n) [] h = refl
  take-take (suc m) (suc n) (x ∷ xs) h = ap (◌∷◌ x) (take-take m n xs (omega arith))

  append_nil : (xs : List Mbuf) → xs ≡ xs ++ []
  append_nil [] = refl
  append_nil (x ∷ xs) = ap (◌∷◌ x) (append_nil xs)

  -- A round of the TX thread sends the packets in the order of the ring, and loses none and sends
  -- none twice: of every kind, as many are on the wire, in the ring or in the pool after it as
  -- before. Its counter of packets sent grows, up to the wrap-around, by the number of packets put
  -- on the wire, and it writes no other slot. The dequeue returns no more packets than the ring
  -- holds and the port takes no more than it is given.
  pub tx_burst-Sent :
      (accepts : ℕ → ℕ) (n : ℕ) (tx : Tx)
      → ((k : ℕ) → accepts k ≤ k)
      → n ≤ length tx.tx_ring
      → Sent tx (tx_burst lcore accepts n tx)
  unfolding tx_burst stats_add_tx
  tx_burst-Sent accepts n tx fits h = elim (Bool-cases (leb n 0)) [
    | inl idle ↦ rw idle (record {
      count_taken = 0;
      count_sent = 0;
      sent_le = omega arith;
      left = refl;
      in_order = append_nil tx.wire;
      kept = λ p. refl;
      longer = omega arith;
      counted = omega arith;
      others = λ j ne. refl;
    })
    | inr busy ↦
        let bufs = take n tx.tx_ring in
        let sent = accepts n in
        let tx₁ : Tx = record tx {
          stats = stats_add_tx tx.stats lcore sent;
          wire = tx.wire ++ take sent bufs;
          tx_ring = drop_first n tx.tx_ring;
        } in
        let f = free_unsent_lem tx₁ (drop_first sent bufs) in
        rw busy (record {
          count_taken = n;
          count_sent = sent;
          sent_le = fits n;
          left = f.2;
          in_order = f.1 ∙ ap (λ t. tx.wire ++ t) (take-take sent n tx.tx_ring (fits n));
          kept = λ p. omega (
            arith,
            f.3 p,
            ap (count p) f.1,
            ap (count p) f.2,
            count-append p tx.wire (take sent bufs),
            count-split p sent bufs,
            count-split p n tx.tx_ring,
          );
          longer = omega (
            arith,
            fits n,
            h,
            ap (length {A = Mbuf}) f.1,
            length-append tx.wire (take sent bufs),
            length-take sent bufs,
            length-take n tx.tx_ring,
          );
          counted = rw (f.0, ==_self lcore) (omega arith);
          others = λ j ne. rw (f.0, ==_ne lcore j (λ e. ne (sym e))) refl;
        })
  ]
