-- ===== src/Dpeer/Packets.antt =====
-- dpeer.c: `dp_recv_packet` and the handlers of the packets.
use p2p_vn.Base.{
  ℕ, ◌+◌, ◌-◌, ◌/◌, ◌%◌, ◌^◌, Bool, false, Option, none, some, ◌>>=◌, List, [], ◌∷◌, ◌++◌, ℤ, pos,
  neg, is_neg, is_nonzero, ◌==◌, if◌then◌else◌,
}
use p2p_vn.Packet.{Mac, Ipv4Host, PktEdge, pkt_ipv4_unpack, pl_probe, pl_edge, pl_link_graph_static}
use p2p_vn.Packet.Bytes.{le_bytes, read_le, read_bytes}
use p2p_vn.Packet.Layout.{read_host, read_edges}
use p2p_vn.Pcon.{pcon_connect}
use p2p_vn.Routing.State.{Routing, update}
use p2p_vn.Routing.Query.{rt_dhosts_to_host, rt_hosts_free}
use p2p_vn.Routing.Update.{rt_dhost_add_link, rt_update_edges}
use p2p_vn.Dpeer.Send.{pt_data, pt_link_graph, pt_probe_req, pt_probe_resp}
use p2p_vn.Dpeer.Receive.{recv_whole, dp_recv_header}
use p2p_vn.Dpeer.World.{World, Node, Session, called, tv_ms, send_to}

module _ (w : World) where
  -- The result of a handler; `none` is a memory fault.
  abbrev pub Handled : Type 0
  Handled = Option (ℤ × Session w)

  -- `recv` of a whole buffer: the handler goes on with the bytes, or returns -1.
  abbrev pub recv_or :
      Option (List ℕ) × w.receiver.Conn → Session w → (List ℕ → Session w → Handled) → Handled
  recv_or (none, c) s k = some (neg 1, record s { conn = c })
  recv_or (some bs, c) s k = k bs (record s { conn = c })

  -- `recv` of a whole buffer that `malloc` was asked for; into no memory nothing is received.
  unfoldable pub recv_alloc :
      (granted : Bool) (len : ℕ) → w.receiver.Conn → Option (List ℕ) × w.receiver.Conn
  recv_alloc granted len c =
      let whole = recv_whole w.receiver len c in
      if granted then whole else if len == 0 then whole else (none, c)

  -- The loop over the hosts that `rt_dhosts_to_host` gave. A packet that cannot be sent is dropped.
  unfoldable pub send_each : List ℕ → Node → List ℕ → Option Node
  unfolding send_to
  send_each pkt node [] = some node
  send_each pkt node (addr ∷ addrs) = do
    (ret, node') ← send_to w node addr pt_data pkt
    send_each pkt node' addrs

  -- PT_DATA once the packet is received: its Ethernet header starts with the addresses.
  unfoldable pub forward : List ℕ → Session w → Handled
  unfolding send_each
  forward pkt s = do
    (dst_mac, behind) ← read_bytes 6 pkt
    (src_mac, payload) ← read_bytes 6 behind
    (hosts, rd) ← rt_dhosts_to_host w.grants s.node.rd src_mac dst_mac
    let routed : Node = record s.node { rd = rd }
    let sent = (do
      node ← send_each pkt routed hosts.addrs
      held ← rt_hosts_free hosts
      some (pos 0, record s { node = node }))
    if is_neg hosts.code then some (neg 1, record s { node = routed }) else sent

  unfoldable pub handle_data : (pkt_len : ℕ) → Session w → Handled
  unfolding recv_alloc forward
  handle_data pkt_len s =
      recv_or (recv_alloc (w.memory s.node.calls) pkt_len s.conn)
        (record s { node = called s.node }) forward

  -- `pcon_connect` for one host of a link state packet.
  unfoldable pub connect_to : Node → Ipv4Host → Option Node
  connect_to node ip = do
    (ret, pc, spawns) ←
        pcon_connect w.timers w.qs (w.now node.calls) (w.memory node.calls) node.pc ip
    some (record (called node) {
      pc = pc;
      spawned = if spawns then node.spawned ++ ip ∷ [] else node.spawned;
    })

  unfoldable pub connect_each : Node → List PktEdge → Option Node
  unfolding connect_to
  connect_each node [] = some node
  connect_each node (e ∷ es) = do
    node₁ ← connect_to node (pkt_ipv4_unpack e.src)
    node₂ ← connect_to node₁ (pkt_ipv4_unpack e.dst)
    connect_each node₂ es

  -- The end of `dp_read_pkt_link_graph`, with the edges of the packet.
  unfoldable pub take_edges : List PktEdge → Session w → Handled
  unfolding connect_each
  take_edges es s = do
    node ← connect_each s.node es
    (ret, rd) ← rt_update_edges w.grants w.qs w.order node.rd es
    some (ret, record s { node = record node { rd = rd } })

  -- `memcpy(DP_MAC(dp)->addr, mac, ETH_ALEN)`
  unfoldable pub set_mac : Session w → Mac → Option (Session w)
  set_mac s mac = do
    ip ← s.node.rd.ip_at s.dp.remote_host
    let rd : Routing = record s.node.rd {
      ip_at = update s.node.rd.ip_at s.dp.remote_host (some (record ip { mac = mac }));
    }
    some (record s { node = record s.node { rd = rd } })

  -- `dp_read_pkt_link_graph` once `pkt_len` bytes are received. The count of the edges is cut to 16
  -- bits, and the subtraction wraps.
  unfoldable pub parse_link_graph :
      (pkt_len : ℕ) (populate_mac : Bool) → List ℕ → Session w → Handled
  unfolding set_mac take_edges
  parse_link_graph pkt_len populate_mac bs s = do
    (edge_ct, bs₁) ← read_le 2 bs
    s' ← if populate_mac then read_host bs₁ >>= (λ h. set_mac s h.0.mac) else some s
    let e_ct = (pkt_len + 2 ^ 64 - pl_link_graph_static) % 2 ^ 64 / pl_edge % 2 ^ 16
    let taken = (do
      (src_host, bs₂) ← read_host bs₁
      (es, rest) ← read_edges e_ct bs₂
      take_edges es s')
    if e_ct == w.order.ntohs edge_ct then taken else some (neg 2, s')

  -- `dp_read_pkt_link_graph`
  unfoldable pub dp_read_pkt_link_graph : (pkt_len : ℕ) (populate_mac : Bool) → Session w → Handled
  unfolding parse_link_graph
  dp_read_pkt_link_graph pkt_len populate_mac s =
      let s' : Session w = record s { node = called s.node } in
      let received =
        recv_or (recv_whole w.receiver pkt_len s.conn) s' (parse_link_graph pkt_len populate_mac) in
      if w.memory s.node.calls then received else some (neg 1, s')

  -- `dp_handle_probe_req`
  unfoldable pub dp_handle_probe_req : Session w → Handled
  unfolding send_to
  dp_handle_probe_req s = recv_or (recv_whole w.receiver pl_probe s.conn) s (λ req s'. do
    (ret, node) ← send_to w s'.node s'.dp.remote_host pt_probe_resp req
    some (ret, record s' { node = node }))

  -- `dp_handle_probe_resp` for the answer to the outstanding probe.
  unfoldable pub measure : Session w → Handled
  measure s = do
    let tv = w.now s.node.calls
    let rtt_us = w.elapsed_us tv s.dp.probe_send_time % 2 ^ 32
    (ret, rd) ←
        rt_dhost_add_link w.grants w.qs w.order s.node.rd s.dp.remote_host rtt_us
          (tv_ms (w.now (s.node.calls + 1)))
    some (
      ret,
      record s {
        node = record s.node { rd = rd; calls = s.node.calls + 2 };
        dp = record s.dp { rtt_us = rtt_us };
      },
    )

  -- `dp_handle_probe_resp`
  unfoldable pub dp_handle_probe_resp : Session w → Handled
  unfolding measure
  dp_handle_probe_resp s = recv_or (recv_whole w.receiver pl_probe s.conn) s (λ resp s'. do
    (seq_num, rest) ← read_le 2 resp
    let measured = measure s'
    if seq_num == s'.dp.probe_seq then measured else some (pos 0, s'))

  -- The label `error_recv_flush`: the packet is read and dropped.
  unfoldable pub flush : (pkt_len : ℕ) → Session w → Handled
  unfolding recv_alloc
  flush pkt_len s =
      recv_or (recv_alloc (w.memory s.node.calls) pkt_len s.conn)
        (record s { node = called s.node }) (λ pkt s'. some (pos 0, s'))

  -- The `switch` of `dp_recv_packet`.
  unfoldable pub dispatch : (pkt_type pkt_len : ℕ) → Session w → Handled
  unfolding handle_data dp_read_pkt_link_graph dp_handle_probe_req dp_handle_probe_resp flush
  dispatch pkt_type pkt_len s =
      if pkt_type == pt_data
      then handle_data pkt_len s
      else if pkt_type == pt_link_graph
      then dp_read_pkt_link_graph pkt_len false s
      else if pkt_type == pt_probe_req
      then dp_handle_probe_req s
      else if pkt_type == pt_probe_resp
      then dp_handle_probe_resp s
      else flush pkt_len s

  -- `dp_recv_packet`
  unfoldable pub dp_recv_packet : Session w → Handled
  unfolding dispatch
  dp_recv_packet s = do
    (h, conn) ← dp_recv_header w.order w.receiver s.conn
    let s' : Session w = record s { conn = conn }
    let handled = dispatch h.pkt_type h.pkt_len s'
    if is_nonzero h.ret then some (h.ret, s') else handled

  -- `dp_send_probe_req`
  unfoldable pub dp_send_probe_req : Session w → Handled
  unfolding send_to
  dp_send_probe_req s = do
    let seq_num = w.rand s.node.calls % 2 ^ 16
    let node : Node = record s.node { calls = s.node.calls + 2 }
    (ret, node') ← send_to w node s.dp.remote_host pt_probe_req (le_bytes 2 seq_num)
    some (
      ret,
      record s {
        node = node';
        dp = record s.dp { probe_seq = seq_num; probe_send_time = w.now (s.node.calls + 1) };
      },
    )
