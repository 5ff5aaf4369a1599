-- ===== src/Packet/Layout.antt =====
-- peer_proto.h: the packed structures byte by byte, as they stand in a packet.
use p2p_vn.Base.{
  ℕ, zero, suc, ◌*◌, ◌^◌, ◌<◌, ◌≡◌, refl, subst, arith, Option, some, ◌>>=◌, List, [], ◌∷◌, ◌++◌,
  length, All, length-append,
}
use mathlib.Core.List.{append_assoc}
use p2p_vn.Packet.{PktIpv4Host, PktEdge, pl_host, pl_edge}
use p2p_vn.Packet.Bytes.{
  le_bytes, read_le, read_bytes, read_le-le_bytes, read_bytes-append, length-le_bytes,
}

-- `struct _pkt_ipv4_host`
unfoldable pub host_bytes : PktIpv4Host → List ℕ
host_bytes h = le_bytes 4 h.ip ++ (le_bytes 2 h.port ++ h.mac)

unfoldable pub read_host : List ℕ → Option (PktIpv4Host × List ℕ)
read_host bs = do
  (ip, bs₁) ← read_le 4 bs
  (port, bs₂) ← read_le 2 bs₁
  (mac, rest) ← read_bytes 6 bs₂
  some (record { ip = ip; port = port; mac = mac }, rest)

-- `struct _pkt_edge`
unfoldable pub edge_bytes : PktEdge → List ℕ
edge_bytes e = host_bytes e.src ++ (host_bytes e.dst ++ (le_bytes 4 e.rtt_us ++ le_bytes 8 e.ts_ms))

unfoldable pub read_edge : List ℕ → Option (PktEdge × List ℕ)
unfolding read_host
read_edge bs = do
  (src, bs₁) ← read_host bs
  (dst, bs₂) ← read_host bs₁
  (rtt_us, bs₃) ← read_le 4 bs₂
  (ts_ms, rest) ← read_le 8 bs₃
  some (record { src = src; dst = dst; rtt_us = rtt_us; ts_ms = ts_ms }, rest)

-- `edges[]` of `struct pkt_link_graph`
unfoldable pub edges_bytes : List PktEdge → List ℕ
unfolding edge_bytes
edges_bytes [] = []
edges_bytes (e ∷ es) = edge_bytes e ++ edges_bytes es

unfoldable pub read_edges : (e_ct : ℕ) → List ℕ → Option (List PktEdge × List ℕ)
unfolding read_edge
read_edges zero bs = some ([], bs)
read_edges (suc n) bs = do
  (e, bs₁) ← read_edge bs
  (es, rest) ← read_edges n bs₁
  some (e ∷ es, rest)

-- Field widths.
pub record IsPktHost (h : PktIpv4Host) : Type 0 where
  pub ip_lt : h.ip < 2 ^ 32
  pub port_lt : h.port < 2 ^ 16
  pub mac_len : length h.mac ≡ 6

pub record IsPktEdge (e : PktEdge) : Type 0 where
  pub src_ok : IsPktHost e.src
  pub dst_ok : IsPktHost e.dst
  pub rtt_lt : e.rtt_us < 2 ^ 32
  pub ts_lt : e.ts_ms < 2 ^ 64

read_mac : (mac rest : List ℕ) → length mac ≡ 6 → read_bytes 6 (mac ++ rest) ≡ some (mac, rest)
read_mac mac rest e =
    subst (λ n. read_bytes n (mac ++ rest) ≡ some (mac, rest)) e (read_bytes-append mac rest)

pub read_host-host_bytes :
    (h : PktIpv4Host) (rest : List ℕ)
    → IsPktHost h
    → read_host (host_bytes h ++ rest) ≡ some (h, rest)
unfolding read_host host_bytes
read_host-host_bytes h rest v = rw (
  append_assoc (le_bytes 4 h.ip) (le_bytes 2 h.port ++ h.mac) rest,
  append_assoc (le_bytes 2 h.port) h.mac rest,
  read_le-le_bytes 4 h.ip (le_bytes 2 h.port ++ (h.mac ++ rest)) (let q = v.ip_lt in omega arith),
  read_le-le_bytes 2 h.port (h.mac ++ rest) (let q = v.port_lt in omega arith),
  read_mac h.mac rest v.mac_len,
)

read_edge-edge_bytes :
    (e : PktEdge) (rest : List ℕ) → IsPktEdge e → read_edge (edge_bytes e ++ rest) ≡ some (e, rest)
unfolding read_edge edge_bytes
read_edge-edge_bytes e rest v =
    let src = host_bytes e.src in
    let dst = host_bytes e.dst in
    let rtt = le_bytes 4 e.rtt_us in
    let ts = le_bytes 8 e.ts_ms in
    rw (
      append_assoc src (dst ++ (rtt ++ ts)) rest,
      append_assoc dst (rtt ++ ts) rest,
      append_assoc rtt ts rest,
      read_host-host_bytes e.src (dst ++ (rtt ++ (ts ++ rest))) v.src_ok,
      read_host-host_bytes e.dst (rtt ++ (ts ++ rest)) v.dst_ok,
      read_le-le_bytes 4 e.rtt_us (ts ++ rest) (let q = v.rtt_lt in omega arith),
      read_le-le_bytes 8 e.ts_ms rest (let q = v.ts_lt in omega arith),
    )

pub read_edges-edges_bytes :
    (es : List PktEdge) (rest : List ℕ)
    → All IsPktEdge es
    → read_edges (length es) (edges_bytes es ++ rest) ≡ some (es, rest)
unfolding read_edges edges_bytes
read_edges-edges_bytes [] rest a = refl
read_edges-edges_bytes (e ∷ es) rest a = rw (
  append_assoc (edge_bytes e) (edges_bytes es) rest,
  read_edge-edge_bytes e (edges_bytes es ++ rest) a.0,
  read_edges-edges_bytes es rest a.1,
)

pub length-host_bytes : (h : PktIpv4Host) → length h.mac ≡ 6 → length (host_bytes h) ≡ pl_host
unfolding host_bytes
length-host_bytes h e = omega (
  arith,
  length-append (le_bytes 4 h.ip) (le_bytes 2 h.port ++ h.mac),
  length-append (le_bytes 2 h.port) h.mac,
  length-le_bytes 4 h.ip,
  length-le_bytes 2 h.port,
)

length-edge_bytes : (e : PktEdge) → IsPktEdge e → length (edge_bytes e) ≡ pl_edge
unfolding edge_bytes
length-edge_bytes e v =
    let rtt = le_bytes 4 e.rtt_us in
    let ts = le_bytes 8 e.ts_ms in
    omega (
      arith,
      length-append (host_bytes e.src) (host_bytes e.dst ++ (rtt ++ ts)),
      length-append (host_bytes e.dst) (rtt ++ ts),
      length-append rtt ts,
      length-host_bytes e.src v.src_ok.mac_len,
      length-host_bytes e.dst v.dst_ok.mac_len,
      length-le_bytes 4 e.rtt_us,
      length-le_bytes 8 e.ts_ms,
    )

pub length-edges_bytes :
    (es : List PktEdge) → All IsPktEdge es → length (edges_bytes es) ≡ pl_edge * length es
unfolding edges_bytes
length-edges_bytes [] a = refl
length-edges_bytes (e ∷ es) a = omega (
  arith,
  length-append (edge_bytes e) (edges_bytes es),
  length-edge_bytes e a.0,
  length-edges_bytes es a.1,
)
