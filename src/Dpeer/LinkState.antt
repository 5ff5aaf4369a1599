-- ===== src/Dpeer/LinkState.antt =====
-- A link state packet from one host to another: what `dp_send_linkstate` sends is what
-- `dp_read_pkt_link_graph` parses.
use p2p_vn.Base.{
  ℕ, ◌+◌, ◌-◌, ◌*◌, ◌/◌, ◌%◌, ◌^◌, ◌<◌, ◌≡◌, refl, sym, subst, ◌∙◌, inl, inr, if◌then◌else◌, Option,
  Option-cases, ◌>>=◌, ◌∷◌, arith, true, false, some, List, [], ◌++◌, ◌==◌, length, All,
  length-append,
}
use mathlib.Core.List.{append_assoc, append-nil}
use p2p_vn.Packet.{Ipv4Host, PktEdge, pkt_ipv4_pack, pkt_ipv4_unpack, pl_edge, pl_link_graph_static}
use p2p_vn.Packet.Bytes.{le_bytes, read_le-le_bytes, length-le_bytes}
use p2p_vn.Packet.Layout.{
  host_bytes, edges_bytes, IsPktHost, IsPktEdge, read_host-host_bytes, read_edges-edges_bytes,
  length-host_bytes, length-edges_bytes,
}
use p2p_vn.Dpeer.Send.{header_bytes, link_graph_head, pt_link_graph}
use p2p_vn.Dpeer.Framed.{link_frame}
use p2p_vn.Dpeer.Receive.{recv_whole}
use p2p_vn.Dpeer.Received.{recv_whole_all, dp_recv_header-header_bytes}
use p2p_vn.Pcon.{pcon_connect}
use p2p_vn.Routing.Update.{rt_update_edges}
use p2p_vn.Dpeer.World.{World, Node, Session, called}
use p2p_vn.Dpeer.Packets.{
  Handled, connect_to, connect_each, take_edges, parse_link_graph, dp_read_pkt_link_graph, dispatch,
  dp_recv_packet,
}

-- The bytes behind the header, and what is put there as their number.
abbrev packet_len : List PktEdge → ℕ
packet_len es = pl_edge * length es + pl_link_graph_static

-- The two hosts of every edge, in the order of the packet.
abbrev pub ends_of : List PktEdge → List Ipv4Host
ends_of [] = []
ends_of (e ∷ es) = pkt_ipv4_unpack e.src ∷ pkt_ipv4_unpack e.dst ∷ ends_of es

module _ (w : World) where
  -- `pcon_connect` for a list of hosts, one after the other.
  abbrev pub connected : List Ipv4Host → Node → Option Node
  connected [] node = some node
  connected (ip ∷ ips) node =
      pcon_connect w.timers w.qs (w.now node.calls) (w.memory node.calls) node.pc ip >>= (λ r.
        connected ips (record node {
          calls = node.calls + 1;
          pc = r.1;
          spawned = if r.2 then node.spawned ++ ip ∷ [] else node.spawned;
        }))

  -- What the edges of a packet lead to: `pcon_connect` for the hosts of every edge, and
  -- `rt_update_edges` with the edges, whose result is returned.
  abbrev pub pass_on : List PktEdge → Session w → Handled w
  pass_on es s = connected (ends_of es) s.node >>= (λ node.
      rt_update_edges w.grants w.qs w.order node.rd es
      >>= (λ r. some (r.0, record s { node = record node { rd = r.1 } })))

  connect_each-connected :
      (es : List PktEdge) (node : Node) → connect_each w node es ≡ connected (ends_of es) node
  unfolding connect_each connect_to
  connect_each-connected [] node = refl
  connect_each-connected (e ∷ es) node =
      elim (Option-cases (
        pcon_connect w.timers w.qs (w.now node.calls) (w.memory node.calls) node.pc
          (pkt_ipv4_unpack e.src))) [
            | inl f ↦ rw (f, connect_each, connect_to, ◌>>=◌) refl
            | inr (r, f) ↦
                let node₁ : Node = record (called node) {
                  pc = r.1;
                  spawned =
                      if r.2 then node.spawned ++ pkt_ipv4_unpack e.src ∷ [] else node.spawned;
                } in
                elim (Option-cases (
                  pcon_connect w.timers w.qs (w.now node₁.calls) (w.memory node₁.calls) node₁.pc
                    (pkt_ipv4_unpack e.dst))) [
                      | inl g ↦ rw (f, connect_each, connect_to, ◌>>=◌) (rw (g, ◌>>=◌) refl)
                      | inr (r', g) ↦
                          rw (f, connect_each, connect_to, ◌>>=◌)
                            (rw (g, ◌>>=◌) (connect_each-connected es _))
                    ]
          ]

  take_edges-pass_on : (es : List PktEdge) (s : Session w) → take_edges w es s ≡ pass_on es s
  unfolding take_edges
  take_edges-pass_on es s = rw (connect_each-connected es s.node) refl

module _ (w : World) (me : Ipv4Host) (es : List PktEdge) where
  abbrev body : List ℕ
  body = link_graph_head w.order me (length es) ++ edges_bytes es

  module _ (hm : IsPktHost (pkt_ipv4_pack w.order me)) (he : All IsPktEdge es)
      (fits : packet_len es < 2 ^ 16) where
    length-body : length body ≡ packet_len es
    unfolding link_graph_head
    length-body =
        let count = le_bytes 2 (w.order.htons (length es % 2 ^ 16)) in
        let host = host_bytes (pkt_ipv4_pack w.order me) in
        omega (
          arith,
          length-append (count ++ host) (edges_bytes es),
          length-append count host,
          length-le_bytes 2 (w.order.htons (length es % 2 ^ 16)),
          length-host_bytes (pkt_ipv4_pack w.order me) hm.mac_len,
          length-edges_bytes es he,
        )

    parse_link_graph-body :
        (s : Session w) → parse_link_graph w (packet_len es) false body s ≡ take_edges w es s
    unfolding parse_link_graph link_graph_head
    parse_link_graph-body s =
        let host = host_bytes (pkt_ipv4_pack w.order me) in
        let n = length es in
        let small : n % 2 ^ 16 ≡ n = omega arith in
        let same : (n == n) ≡ true = ground arith in
        let lt = w.order.htons_lt n (omega arith) in
        let count : (packet_len es + 2 ^ 64 - pl_link_graph_static) % 2 ^ 64 / pl_edge % 2 ^ 16
            ≡ n =
          omega arith in
        rw (
          small,
          append_assoc (le_bytes 2 (w.order.htons n)) host (edges_bytes es),
          read_le-le_bytes 2 (w.order.htons n) (host ++ edges_bytes es) (omega arith),
          count,
          w.order.ntohs-htons n (omega arith),
          same,
          read_host-host_bytes (pkt_ipv4_pack w.order me) (edges_bytes es) hm,
          sym (append-nil (edges_bytes es)),
          read_edges-edges_bytes es [] he,
        )

    -- Where the connection delivers the bytes of a link state packet, of a host and edges whose
    -- fields have the widths of the packet and with a length below 2^16, and memory is granted:
    -- `dp_recv_packet` calls `pcon_connect` for the source and the destination of each of these
    -- edges in turn and then `rt_update_edges` with exactly these edges, whose result it returns,
    -- and what was sent behind the packet is still to come.
    pub dp_recv_packet-link_frame :
        (s : Session w) (rest : List ℕ)
        → w.memory s.node.calls ≡ true
        → w.receiver.Delivers s.conn (link_frame w.order me es ++ rest)
        → (c : w.receiver.Conn) × (dp_recv_packet w s
            ≡ pass_on w es (record s { conn = c; node = called s.node }))
          × w.receiver.Delivers c rest
    unfolding dp_recv_packet dispatch dp_read_pkt_link_graph
    dp_recv_packet-link_frame s rest granted d =
        let len = packet_len es in
        let head = header_bytes w.order pt_link_graph len in
        let whole : len % 2 ^ 16 ≡ len = omega arith in
        let d₁ : w.receiver.Delivers s.conn (head ++ (body ++ rest)) =
          subst (λ bs. w.receiver.Delivers s.conn bs)
            (rw
              (
                whole,
                append_assoc head (link_graph_head w.order me (length es)) (edges_bytes es),
                append_assoc head body rest,
              )
              refl)
            d in
        let (c, got, d₂) =
          dp_recv_header-header_bytes w.order w.receiver s.conn pt_link_graph len (body ++ rest)
            (omega arith) fits d₁ in
        let (c', run, d₃) = recv_whole_all w.receiver c body rest d₂ in
        let run' : recv_whole w.receiver len c ≡ (some body, c') =
          subst (λ n. recv_whole w.receiver n c ≡ (some body, c')) length-body run in
        (
          c',
          rw (got, granted, run', dp_recv_packet, dispatch, dp_read_pkt_link_graph)
              (parse_link_graph-body (record s { conn = c'; node = called s.node })
                ∙ take_edges-pass_on w es (record s { conn = c'; node = called s.node })),
          d₃,
        )
