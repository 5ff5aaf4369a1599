-- ===== src/Packet.antt =====
-- pkt.c, the packet layouts of peer_proto.h and the 64-bit byte order macros of util.h. The byte order
-- functions of the C library are a parameter.
pub mod Roundtrip
pub mod Bytes
pub mod Layout
mod Tests
use p2p_vn.Base.{ℕ, ◌+◌, ◌*◌, ◌/◌, ◌%◌, ◌^◌, ◌<◌, ◌≡◌, List}

-- `ether_addr_t`: ETH_ALEN bytes.
abbrev pub Mac : Type 0
Mac = List ℕ

-- `struct ipv4_host`, with the fields of its `struct sockaddr_in`.
pub record Ipv4Host : Type 0 where
  pub mac : Mac
  pub sin_family : ℕ
  pub s_addr : ℕ
  pub sin_port : ℕ

-- `struct _pkt_ipv4_host`
pub record PktIpv4Host : Type 0 where
  pub ip : ℕ
  pub port : ℕ
  pub mac : Mac

-- `struct _pkt_edge`
pub record PktEdge : Type 0 where
  pub src : PktIpv4Host
  pub dst : PktIpv4Host
  pub rtt_us : ℕ
  pub ts_ms : ℕ

abbrev pub af_inet : ℕ
af_inet = 2

-- PL_HOST, PL_HEADER, PL_PROBE_REQ, PL_LINK_GRAPH_STATIC and PL_EDGE, in bytes.
abbrev pub pl_host : ℕ
pl_host = 4 + 2 + 1 * 6

abbrev pub pl_join : ℕ
pl_join = pl_host

abbrev pub pl_header : ℕ
pl_header = 2 * 2

abbrev pub pl_probe : ℕ
pl_probe = 2

abbrev pub pl_link_graph_static : ℕ
pl_link_graph_static = 2 + pl_host

abbrev pub pl_edge : ℕ
pl_edge = 4 + 8 + pl_host * 2

-- What POSIX promises of `htonl` and its kin: on values of their width, each undoes the other.
pub record ByteOrder : Type 0 where
  pub htonl : ℕ → ℕ
  pub ntohl : ℕ → ℕ
  pub htons : ℕ → ℕ
  pub ntohs : ℕ → ℕ
  pub htonl_lt : (x : ℕ) → x < 2 ^ 32 → htonl x < 2 ^ 32
  pub ntohl_lt : (x : ℕ) → x < 2 ^ 32 → ntohl x < 2 ^ 32
  pub htons_lt : (x : ℕ) → x < 2 ^ 16 → htons x < 2 ^ 16
  pub ntohl-htonl : (x : ℕ) → x < 2 ^ 32 → ntohl (htonl x) ≡ x
  pub ntohs-htons : (x : ℕ) → x < 2 ^ 16 → ntohs (htons x) ≡ x

module _ (order : ByteOrder) where
  -- `((uint64_t)htonl(x) << 32) + htonl(x >> 32)`: the argument of `htonl` is cut to 32 bits.
  unfoldable pub htonll : ℕ → ℕ
  htonll x = (order.htonl (x % 2 ^ 32) * 2 ^ 32 + order.htonl (x / 2 ^ 32 % 2 ^ 32)) % 2 ^ 64

  unfoldable pub ntohll : ℕ → ℕ
  ntohll x = (order.ntohl (x % 2 ^ 32) * 2 ^ 32 + order.ntohl (x / 2 ^ 32 % 2 ^ 32)) % 2 ^ 64

  unfoldable pub pkt_ipv4_pack : Ipv4Host → PktIpv4Host
  pkt_ipv4_pack h = record { ip = order.htonl h.s_addr; port = order.htons h.sin_port; mac = h.mac }

unfoldable pub pkt_ipv4_unpack : PktIpv4Host → Ipv4Host
pkt_ipv4_unpack pip = record {
  mac = pip.mac;
  sin_family = af_inet;
  s_addr = pip.ip;
  sin_port = pip.port;
}

-- dpeer.c, `dp_send_join`: the address of this host as it is put in a join packet.
unfoldable pub join_packet : Mac → Ipv4Host → PktIpv4Host
join_packet my_mac sai = record { ip = sai.s_addr; port = sai.sin_port; mac = my_mac }
