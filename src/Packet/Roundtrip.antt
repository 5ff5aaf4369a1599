-- ===== src/Packet/Roundtrip.antt =====
-- What comes back from a packed address, and from a 64-bit value in network order.
use p2p_vn.Base.{ℕ, ◌+◌, ◌*◌, ◌/◌, ◌%◌, ◌^◌, ◌<◌, ◌≡◌, ◌↔◌, refl, ap, arith}
use p2p_vn.Packet.{
  Mac, Ipv4Host, ByteOrder, htonll, ntohll, pkt_ipv4_pack, pkt_ipv4_unpack, join_packet, af_inet,
}

module _ (order : ByteOrder) where
  -- `ntohll` undoes `htonll` on every 64-bit value, for any `htonl` and `ntohl` of which the
  -- second undoes the first on 32-bit values.
  pub ntohll-htonll : (x : ℕ) → x < 2 ^ 64 → ntohll order (htonll order x) ≡ x
  unfolding htonll ntohll
  ntohll-htonll x h =
      let lo = x % 2 ^ 32 in
      let hi = x / 2 ^ 32 % 2 ^ 32 in
      let a = order.htonl lo in
      let b = order.htonl hi in
      let ha = order.htonl_lt lo (omega arith) in
      let hb = order.htonl_lt hi (omega arith) in
      let low : (a * 2 ^ 32 + b) % 2 ^ 64 % 2 ^ 32 ≡ b = omega (arith, ha, hb) in
      let high : (a * 2 ^ 32 + b) % 2 ^ 64 / 2 ^ 32 % 2 ^ 32 ≡ a = omega (arith, ha, hb) in
      rw (low, high, order.ntohl-htonl lo (omega arith), order.ntohl-htonl hi (omega arith))
        (omega arith)

  -- An IPv4 host that is packed and unpacked is the same again exactly if the byte order functions
  -- leave its address and its port alone.
  pub unpack-pack :
      (h : Ipv4Host)
      → h.sin_family ≡ af_inet
      → (pkt_ipv4_unpack (pkt_ipv4_pack order h) ≡ h)
        ↔ ((order.htonl h.s_addr ≡ h.s_addr) × (order.htons h.sin_port ≡ h.sin_port))
  unfolding pkt_ipv4_pack pkt_ipv4_unpack
  unpack-pack h e = (
    λ q. (ap (λ (k : Ipv4Host). k.s_addr) q, ap (λ (k : Ipv4Host). k.sin_port) q),
    λ q. ground arith,
  )

  pub mac-unpack-pack : (h : Ipv4Host) → (pkt_ipv4_unpack (pkt_ipv4_pack order h)).mac ≡ h.mac
  unfolding pkt_ipv4_pack pkt_ipv4_unpack
  mac-unpack-pack h = refl

-- A join packet is read back as the Ethernet address of its sender with the IPv4 address and the
-- port that were put in.
pub unpack-join_packet :
    (my_mac : Mac) (sai : Ipv4Host)
    → sai.sin_family ≡ af_inet
    → pkt_ipv4_unpack (join_packet my_mac sai) ≡ record sai { mac = my_mac }
unfolding pkt_ipv4_unpack join_packet
unpack-join_packet my_mac sai e = ground arith
