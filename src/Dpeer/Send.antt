-- ===== src/Dpeer/Send.antt =====
-- dpeer.c: the sending of packets. A call of `dp_psend_data` is a `Socket` with the numbers of its
-- calls of `send`; `none` means that the fuel ran out, or that a buffer is shorter than what is sent.
use p2p_vn.Base.{
  ℕ, suc, ◌+◌, ◌*◌, ◌%◌, ◌^◌, Option, some, ◌>>=◌, List, ◌++◌, ℤ, pos, neg, is_neg, if◌then◌else◌,
  length,
}
use p2p_vn.Packet.{
  Mac, Ipv4Host, PktEdge, ByteOrder, pl_header, pl_edge, pl_join, pl_link_graph_static,
  pkt_ipv4_pack, join_packet,
}
use p2p_vn.Packet.Bytes.{le_bytes, read_bytes}
use p2p_vn.Packet.Layout.{host_bytes, edges_bytes}
use p2p_vn.Dpeer.{Socket, dp_psend_data}

-- `enum pkt_type`, those that are used.
abbrev pub pt_data : ℕ
pt_data = 0xabcd

abbrev pub pt_join : ℕ
pt_join = 0xab01

abbrev pub pt_quit : ℕ
pt_quit = 0xab03

abbrev pub pt_link_graph : ℕ
pt_link_graph = 0xabac

abbrev pub pt_probe_req : ℕ
pt_probe_req = 0xab34

abbrev pub pt_probe_resp : ℕ
pt_probe_resp = 0xab35

-- What sending a packet comes to: the result, the bytes sent, and how often `wlock` is given up.
pub record Sending : Type 0 where
  pub ret : ℤ
  pub wire : List ℕ
  pub unlocks : ℕ

-- The whole of a buffer: `dp_psend_data` with the fuel that it needs.
abbrev pub psend_all : Socket → (call : ℕ) → List ℕ → Option (ℤ × List ℕ)
psend_all s call buf = dp_psend_data (suc (length buf)) s call buf

module _ (order : ByteOrder) where
  -- `struct pkt_header`
  unfoldable pub header_bytes : (type len : ℕ) → List ℕ
  header_bytes type len = le_bytes 2 (order.htons type) ++ le_bytes 2 (order.htons len)

  -- `dp_psend_start`, with a buffer; `len` is of type `uint16_t`. A failed `dp_psend_data` has given
  -- up the lock already.
  unfoldable pub dp_psend_start : Socket → (type len : ℕ) → List ℕ → Option Sending
  unfolding header_bytes
  dp_psend_start s type len buf = do
    (ret, head) ← psend_all s 0 (header_bytes type (len % 2 ^ 16))
    let body = (do
      (ret', tail) ← psend_all s pl_header buf
      some (record { ret = ret'; wire = head ++ tail; unlocks = if is_neg ret' then 2 else 0 }))
    if is_neg ret then some (record { ret = ret; wire = head; unlocks = 2 }) else body

  -- `dp_send_packet`. `len` is of type `uint16_t`, and it is also how many bytes of `buf` are sent;
  -- `none` where the buffer is shorter.
  unfoldable pub dp_send_packet : Socket → (type len : ℕ) → List ℕ → Option Sending
  unfolding dp_psend_start
  dp_send_packet s type len buf = do
    (sent, unsent) ← read_bytes (len % 2 ^ 16) buf
    r ← dp_psend_start s type (len % 2 ^ 16) sent
    some (if is_neg r.ret then r else record r { unlocks = r.unlocks + 1 })

  -- `dp_send_data`: `len` is of type `size_t`, and the call cuts it to `uint16_t`.
  unfoldable pub dp_send_data : Socket → List ℕ → (len : ℕ) → Option Sending
  unfolding dp_send_packet
  dp_send_data s buf len = dp_send_packet s pt_data (len % 2 ^ 16) buf

  -- `dp_send_join`
  unfoldable pub dp_send_join : Socket → (my_mac : Mac) (sai : Ipv4Host) → Option Sending
  unfolding dp_send_packet
  dp_send_join s my_mac sai = dp_send_packet s pt_join pl_join (host_bytes (join_packet my_mac sai))

  -- The front of `struct pkt_link_graph`.
  unfoldable pub link_graph_head : (me : Ipv4Host) (e_ct : ℕ) → List ℕ
  link_graph_head me e_ct =
      le_bytes 2 (order.htons (e_ct % 2 ^ 16)) ++ host_bytes (pkt_ipv4_pack order me)

  -- `dp_send_linkstate`, for the address `me` of this host. The numbers of the last calls of `send`
  -- go on behind those of the head.
  unfoldable pub dp_send_linkstate : Socket → (me : Ipv4Host) → List PktEdge → Option Sending
  unfolding dp_psend_start link_graph_head
  dp_send_linkstate s me edges = do
    let e_ct = length edges
    start ←
        dp_psend_start s pt_link_graph (pl_edge * e_ct + pl_link_graph_static)
          (link_graph_head me e_ct)
    let body = (do
      (ret, tail) ← psend_all s (pl_header + pl_link_graph_static) (edges_bytes edges)
      some (
          if is_neg ret
          then record { ret = neg 2; wire = start.wire ++ tail; unlocks = start.unlocks + 1 }
          else record { ret = pos 0; wire = start.wire ++ tail; unlocks = start.unlocks + 1 }))
    if is_neg start.ret then some (record start { ret = neg 1 }) else body
