-- ===== src/Packet/Bounds.antt =====
-- `extract_headers` reads nothing outside the packet's first segment.
use hyper_dpi.Prelude.{
  ℕ, zero, suc, ◌+◌, ◌-◌, ◌≤◌, ◌<◌, ◌≡◌, refl, ap₂, ap, fun_ext, ◌>>=◌, ◌==◌, if◌then◌else◌, ◌∷◌,
  slice, Memory, arith,
}
use hyper_dpi.Packet.{
  Layer3, Layer4, ipv4_fields, tcp_fields, udp_fields, layer4, finish, extract_headers,
}

-- Two memories hold the same bytes below `n`.
abbrev pub AgreeBelow : ℕ → Memory → Memory → Type 0
AgreeBelow n m m' = (i : ℕ) → i < n → m i ≡ m' i

pub slice-AgreeBelow :
    (n : ℕ) {m m' : Memory} (i k : ℕ) → AgreeBelow n m m' → i + k ≤ n → slice m i k ≡ slice m' i k
slice-AgreeBelow n i zero a h = refl
slice-AgreeBelow n i (suc k) a h =
    ap₂ ◌∷◌ (a i (omega arith)) (slice-AgreeBelow n (i + 1) k a (omega arith))

module _ (n : ℕ) {m m' : Memory} (a : AgreeBelow n m m') where
  ipv4_fields-AgreeBelow : ipv4_fields m n ≡ ipv4_fields m' n
  unfolding ipv4_fields
  ipv4_fields-AgreeBelow =
      ground (arith, a 12, a 13, a 14, a 23, a 26, a 27, a 28, a 29, a 30, a 31, a 32, a 33)

  tcp_fields-AgreeBelow : (off : ℕ) → tcp_fields m n off ≡ tcp_fields m' n off
  unfolding tcp_fields
  tcp_fields-AgreeBelow off = ground (
    arith,
    a off,
    a (off + 1),
    a (off + 2),
    a (off + 2 + 1),
    a (off + 4),
    a (off + 4 + 1),
    a (off + 4 + 2),
    a (off + 4 + 2 + 1),
    a (off + 12),
  )

  udp_fields-AgreeBelow : (off seq : ℕ) → udp_fields m n off seq ≡ udp_fields m' n off seq
  unfolding udp_fields
  udp_fields-AgreeBelow off seq = ground (arith, a off, a (off + 1), a (off + 2), a (off + 2 + 1))

  layer4-AgreeBelow : (l3 : Layer3) (seq : ℕ) → layer4 m n l3 seq ≡ layer4 m' n l3 seq
  unfolding layer4
  layer4-AgreeBelow l3 seq =
      unfold layer4 in
      ap₂ (λ t u. if l3.proto == 6 then t else u) (tcp_fields-AgreeBelow l3.l4_off)
        (udp_fields-AgreeBelow l3.l4_off seq)

  finish-AgreeBelow : (l3 : Layer3) (l4 : Layer4) → finish m n l3 l4 ≡ finish m' n l3 l4
  unfolding finish
  finish-AgreeBelow l3 l4 = ground (arith, slice-AgreeBelow n l4.data_off (n - l4.data_off) a)

  headers-AgreeBelow :
      (pkt_len seq : ℕ)
      → extract_headers (record { pkt_len = pkt_len; data_len = n; base = m }) seq
        ≡ extract_headers (record { pkt_len = pkt_len; data_len = n; base = m' }) seq
  unfolding extract_headers
  headers-AgreeBelow pkt_len seq = rw ipv4_fields-AgreeBelow (
      ap (λ k. ipv4_fields m' n >>= k)
        (fun_ext λ l3.
          rw (layer4-AgreeBelow l3 seq)
            (ap (λ k. layer4 m' n l3 seq >>= k) (fun_ext λ l4. finish-AgreeBelow l3 l4))))

-- Two packets of one length whose first segments hold the same bytes are parsed alike, whatever
-- lies in memory behind them.
pub extract_headers-AgreeBelow :
    (pkt_len n seq : ℕ) {m m' : Memory}
    → AgreeBelow n m m'
    → extract_headers (record { pkt_len = pkt_len; data_len = n; base = m }) seq
      ≡ extract_headers (record { pkt_len = pkt_len; data_len = n; base = m' }) seq
extract_headers-AgreeBelow pkt_len n seq a = headers-AgreeBelow n a pkt_len seq
