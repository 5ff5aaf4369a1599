-- ===== src/Dpeer/Owner.antt =====
-- Every step of a peer's thread is about the same peer.
use p2p_vn.Base.{
  Each, bind-Each, if-Each, then-Each, ℕ, ◌+◌, ◌-◌, ◌/◌, ◌%◌, ◌^◌, ◌≡◌, Bool, false, Option, none,
  some, ◌>>=◌, List, neg, is_neg, is_nonzero, ◌==◌, if◌then◌else◌,
}
use p2p_vn.Packet.{Mac, PktEdge, pl_edge, pl_link_graph_static, pl_probe}
use p2p_vn.Packet.Bytes.{le_bytes, read_le, read_bytes}
use p2p_vn.Packet.Layout.{read_host, read_edges}
use p2p_vn.Routing.Query.{rt_dhosts_to_host, rt_hosts_free}
use p2p_vn.Routing.Update.{rt_dhost_add_link, rt_update_edges}
use p2p_vn.Dpeer.Receive.{recv_whole, dp_recv_header}
use p2p_vn.Dpeer.Send.{pt_data, pt_link_graph, pt_probe_req, pt_probe_resp}
use p2p_vn.Dpeer.World.{World, Session, called, tv_ms, send_to}
use p2p_vn.Dpeer.Packets.{
  Handled, recv_or, recv_alloc, forward, handle_data, send_each, connect_each, set_mac, take_edges,
  parse_link_graph, dp_read_pkt_link_graph, dp_handle_probe_req, measure, dp_handle_probe_resp,
  flush, dispatch, dp_recv_packet, dp_send_probe_req,
}

module _ (w : World) (owner : ℕ) where
  abbrev pub Owns : Session w → Type 0
  Owns s = s.dp.remote_host ≡ owner

  abbrev pub Owned : Handled w → Type 0
  Owned h = Each (λ r. Owns r.1) h

  pub recv_or-Owned :
      (r : Option (List ℕ) × w.receiver.Conn) (s : Session w) {k : List ℕ → Session w → Handled w}
      → Owns s
      → ((bs : List ℕ) (s' : Session w) → Owns s' → Owned (k bs s'))
      → Owned (recv_or w r s k)
  recv_or-Owned (none, c) s o h = record { each = o }
  recv_or-Owned (some bs, c) s o h = h bs (record s { conn = c }) o

  forward-Owned : (pkt : List ℕ) (s : Session w) → Owns s → Owned (forward w pkt s)
  unfolding forward
  forward-Owned pkt s o = bind-Each (read_bytes 6 pkt) λ d. bind-Each (read_bytes 6 d.1) λ e.
      bind-Each (rt_dhosts_to_host w.grants s.node.rd e.0 d.0) λ a.
        if-Each (is_neg a.0.code) (record { each = o })
          (bind-Each (send_each w pkt (record s.node { rd = a.1 }) a.0.addrs)
            λ n. bind-Each (rt_hosts_free a.0) λ h. record { each = o })

  handle_data-Owned : (len : ℕ) (s : Session w) → Owns s → Owned (handle_data w len s)
  unfolding handle_data
  handle_data-Owned len s o =
      recv_or-Owned (recv_alloc w (w.memory s.node.calls) len s.conn)
        (record s { node = called s.node }) o (λ bs s' o'. forward-Owned bs s' o')

  take_edges-Owned : (es : List PktEdge) (s : Session w) → Owns s → Owned (take_edges w es s)
  unfolding take_edges
  take_edges-Owned es s o =
      bind-Each (connect_each w s.node es)
        λ n. bind-Each (rt_update_edges w.grants w.qs w.order n.rd es) λ r. record { each = o }

  -- The same of a step that gives a session without a code.
  abbrev pub Gives : Option (Session w) → Type 0
  Gives m = Each Owns m

  pub set_mac-Gives : (s : Session w) (mac : Mac) → Owns s → Gives (set_mac w s mac)
  unfolding set_mac
  set_mac-Gives s mac o = bind-Each (s.node.rd.ip_at s.dp.remote_host) λ ip. record { each = o }

  parse_link_graph-Owned :
      (pkt_len : ℕ) (populate_mac : Bool) (bs : List ℕ) (s : Session w)
      → Owns s
      → Owned (parse_link_graph w pkt_len populate_mac bs s)
  unfolding parse_link_graph
  parse_link_graph-Owned pkt_len populate_mac bs s o =
      let e_ct = (pkt_len + 2 ^ 64 - pl_link_graph_static) % 2 ^ 64 / pl_edge % 2 ^ 16 in
      bind-Each (read_le 2 bs) λ a.
        then-Each (if populate_mac then read_host a.1 >>= (λ h. set_mac w s h.0.mac) else some s)
          (if-Each {x = read_host a.1 >>= (λ h. set_mac w s h.0.mac)} {y = some s} populate_mac
            (bind-Each (read_host a.1) λ h. set_mac-Gives s h.0.mac o) (record { each = o }))
          λ s' o'.
            if-Each {y = some (neg 2, s')} (e_ct == w.order.ntohs a.0)
              (bind-Each (read_host a.1)
                λ h. bind-Each (read_edges e_ct h.1) λ es. take_edges-Owned es.0 s' o')
              (record { each = o' })

  pub dp_read_pkt_link_graph-Owned :
      (pkt_len : ℕ) (populate_mac : Bool) (s : Session w)
      → Owns s
      → Owned (dp_read_pkt_link_graph w pkt_len populate_mac s)
  unfolding dp_read_pkt_link_graph
  dp_read_pkt_link_graph-Owned pkt_len populate_mac s o =
      let s' : Session w = record s { node = called s.node } in
      if-Each {y = some (neg 1, s')} (w.memory s.node.calls)
        (recv_or-Owned (recv_whole w.receiver pkt_len s.conn) s' o
          (λ bs s''. parse_link_graph-Owned pkt_len populate_mac bs s''))
        (record { each = o })

  dp_handle_probe_req-Owned : (s : Session w) → Owns s → Owned (dp_handle_probe_req w s)
  unfolding dp_handle_probe_req
  dp_handle_probe_req-Owned s o =
      recv_or-Owned (recv_whole w.receiver pl_probe s.conn) s o (λ req s' o'.
        bind-Each (send_to w s'.node s'.dp.remote_host pt_probe_resp req) λ r. record { each = o' })

  measure-Owned : (s : Session w) → Owns s → Owned (measure w s)
  unfolding measure
  measure-Owned s o =
      bind-Each
        (rt_dhost_add_link w.grants w.qs w.order s.node.rd s.dp.remote_host
          (w.elapsed_us (w.now s.node.calls) s.dp.probe_send_time % 2 ^ 32)
          (tv_ms (w.now (s.node.calls + 1))))
        λ r. record { each = o }

  dp_handle_probe_resp-Owned : (s : Session w) → Owns s → Owned (dp_handle_probe_resp w s)
  unfolding dp_handle_probe_resp
  dp_handle_probe_resp-Owned s o =
      recv_or-Owned (recv_whole w.receiver pl_probe s.conn) s o (λ resp s' o'.
        bind-Each (read_le 2 resp)
          λ r. if-Each (r.0 == s'.dp.probe_seq) (measure-Owned s' o') (record { each = o' }))

  flush-Owned : (len : ℕ) (s : Session w) → Owns s → Owned (flush w len s)
  unfolding flush
  flush-Owned len s o =
      recv_or-Owned (recv_alloc w (w.memory s.node.calls) len s.conn)
        (record s { node = called s.node }) o (λ bs s' o'. record { each = o' })

  dispatch-Owned : (type len : ℕ) (s : Session w) → Owns s → Owned (dispatch w type len s)
  unfolding dispatch
  dispatch-Owned type len s o = if-Each (type == pt_data) (handle_data-Owned len s o) (
      if-Each (type == pt_link_graph) (dp_read_pkt_link_graph-Owned len false s o) (
        if-Each (type == pt_probe_req) (dp_handle_probe_req-Owned s o)
          (if-Each (type == pt_probe_resp) (dp_handle_probe_resp-Owned s o) (flush-Owned len s o))))

  pub dp_recv_packet-Owned : (s : Session w) → Owns s → Owned (dp_recv_packet w s)
  unfolding dp_recv_packet
  dp_recv_packet-Owned s o = bind-Each (dp_recv_header w.order w.receiver s.conn) λ h.
      if-Each (is_nonzero h.0.ret) (record { each = o })
        (dispatch-Owned h.0.pkt_type h.0.pkt_len (record s { conn = h.1 }) o)

  pub dp_send_probe_req-Owned : (s : Session w) → Owns s → Owned (dp_send_probe_req w s)
  unfolding dp_send_probe_req
  dp_send_probe_req-Owned s o =
      let seq_num = w.rand s.node.calls % 2 ^ 16 in
      bind-Each
        (send_to w (record s.node { calls = s.node.calls + 2 }) s.dp.remote_host pt_probe_req
          (le_bytes 2 seq_num))
        λ r. record { each = o }
