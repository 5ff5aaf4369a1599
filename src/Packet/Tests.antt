-- ===== src/Packet/Tests.antt =====
-- Runs of the packing on a little-endian machine.
use p2p_vn.Base.{ℕ, ◌+◌, ◌*◌, ◌/◌, ◌%◌, ◌^◌, ◌≡◌, ◌↔◌, refl, arith, [], ◌∷◌}
use p2p_vn.Packet.{Ipv4Host, ByteOrder, htonll, ntohll, pkt_ipv4_pack, pkt_ipv4_unpack}
use p2p_vn.Packet.Roundtrip.{ntohll-htonll, unpack-pack}

abbrev swap_2 : ℕ → ℕ
swap_2 x = x % 256 * 256 + x / 256 % 256

abbrev swap_4 : ℕ → ℕ
swap_4 x = x % 256 * 2 ^ 24 + x / 256 % 256 * 2 ^ 16 + x / 2 ^ 16 % 256 * 256 + x / 2 ^ 24 % 256

abbrev pub little_endian : ByteOrder
little_endian = record {
  htonl = swap_4;
  ntohl = swap_4;
  htons = swap_2;
  ntohs = swap_2;
  htonl_lt = λ x h. omega arith;
  ntohl_lt = λ x h. omega arith;
  htons_lt = λ x h. omega arith;
  ntohl-htonl = λ x h. omega arith;
  ntohs-htons = λ x h. omega arith;
}

abbrev host : Ipv4Host
host = record {
  mac = 2 ∷ 0 ∷ 0 ∷ 0 ∷ 0 ∷ 7 ∷ [];
  sin_family = 2;
  s_addr = 16777343;
  sin_port = 10531;
}

ntohll-htonll_example :
    ntohll little_endian (htonll little_endian 81985529216486895) ≡ 81985529216486895
ntohll-htonll_example = ntohll-htonll little_endian 81985529216486895 (omega arith)

unpack-pack_example :
    (pkt_ipv4_unpack (pkt_ipv4_pack little_endian host) ≡ host)
    ↔ ((little_endian.htonl 16777343 ≡ 16777343) × (little_endian.htons 10531 ≡ 10531))
unpack-pack_example = unpack-pack little_endian host refl
