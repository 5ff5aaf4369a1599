-- ===== src/Dpeer/Aligned.antt =====
-- Where the connection stands after `dp_recv_packet`: behind the packet, if that has the length that
-- its header says.
use p2p_vn.Base.{
  Each, bind-Each, if-Each, ℕ, ◌+◌, ◌-◌, ◌/◌, ◌%◌, ◌^◌, ◌<◌, ◌≡◌, ◌⊎◌, inl, inr, refl, sym, subst,
  arith, Bool, true, false, Bool-cases, none, some, ◌>>=◌, List, ◌++◌, pos, neg, is_neg, ◌==◌,
  if◌then◌else◌, length, ==→eq,
}
use p2p_vn.Packet.{pl_probe, pl_edge, pl_link_graph_static, PktEdge}
use p2p_vn.Routing.Query.{rt_dhosts_to_host, rt_hosts_free}
use p2p_vn.Routing.Update.{rt_dhost_add_link, rt_update_edges}
use p2p_vn.Packet.Bytes.{read_le, read_bytes}
use p2p_vn.Packet.Layout.{read_host, read_edges}
use p2p_vn.Dpeer.Receive.{recv_whole}
use p2p_vn.Dpeer.Received.{recv_whole_all, dp_recv_header-header_bytes}
use p2p_vn.Dpeer.Send.{header_bytes, pt_data, pt_link_graph, pt_probe_req, pt_probe_resp}
use p2p_vn.Dpeer.World.{World, Session, called, send_to}
use p2p_vn.Dpeer.Packets.{
  Handled, recv_or, recv_alloc, forward, handle_data, send_each, connect_each, take_edges,
  parse_link_graph, dp_read_pkt_link_graph, dp_handle_probe_req, measure, dp_handle_probe_resp,
  flush, dispatch, dp_recv_packet,
}

module _ (w : World) where
  -- A handler that leaves the connection as it was.
  abbrev Keeps : w.receiver.Conn → Handled w → Type 0
  Keeps c h = Each (λ r. r.1.conn ≡ c) h

  forward-Keeps : (pkt : List ℕ) (s : Session w) → Keeps s.conn (forward w pkt s)
  unfolding forward
  forward-Keeps pkt s = bind-Each (read_bytes 6 pkt) λ d. bind-Each (read_bytes 6 d.1) λ e.
      bind-Each (rt_dhosts_to_host w.grants s.node.rd e.0 d.0) λ a.
        if-Each (is_neg a.0.code) (record { each = refl })
          (bind-Each (send_each w pkt (record s.node { rd = a.1 }) a.0.addrs)
            λ n. bind-Each (rt_hosts_free a.0) λ h. record { each = refl })

  take_edges-Keeps : (es : List PktEdge) (s : Session w) → Keeps s.conn (take_edges w es s)
  unfolding take_edges
  take_edges-Keeps es s =
      bind-Each (connect_each w s.node es)
        λ n. bind-Each (rt_update_edges w.grants w.qs w.order n.rd es) λ r. record { each = refl }

  parse_link_graph-Keeps :
      (pkt_len : ℕ) (bs : List ℕ) (s : Session w)
      → Keeps s.conn (parse_link_graph w pkt_len false bs s)
  unfolding parse_link_graph
  parse_link_graph-Keeps pkt_len bs s =
      let e_ct = (pkt_len + 2 ^ 64 - pl_link_graph_static) % 2 ^ 64 / pl_edge % 2 ^ 16 in
      bind-Each (read_le 2 bs) λ a.
        if-Each {y = some (neg 2, s)} (e_ct == w.order.ntohs a.0)
          (bind-Each (read_host a.1)
            λ h. bind-Each (read_edges e_ct h.1) λ es. take_edges-Keeps es.0 s)
          (record { each = refl })

  measure-Keeps : (s : Session w) → Keeps s.conn (measure w s)
  unfolding measure
  measure-Keeps s =
      bind-Each (rt_dhost_add_link w.grants w.qs w.order s.node.rd s.dp.remote_host _ _)
        λ r. record { each = refl }

  respond-Keeps :
      (s : Session w) (type : ℕ) (buf : List ℕ)
      → Keeps s.conn (
          send_to w s.node s.dp.remote_host type buf >>= (λ r. some (r.0, record s { node = r.1 })))
  respond-Keeps s type buf =
      bind-Each (send_to w s.node s.dp.remote_host type buf) λ r. record { each = refl }

  -- The handler stopped with an error, or `rest` is what the connection still has to deliver.
  abbrev Ends : List ℕ → Handled w → Type 0
  Ends rest h = Each (λ r. r.0 ≡ pos 0 → w.receiver.Delivers r.1.conn rest) h

  module _ {rest : List ℕ} where
    Keeps-Ends :
        {c : w.receiver.Conn} (h : Handled w) → w.receiver.Delivers c rest → Keeps c h → Ends rest h
    Keeps-Ends none d k = record { each = tt }
    Keeps-Ends (some (ret, s)) d k = record {
      each = λ e. subst (λ c. w.receiver.Delivers c rest) (sym k.each) d;
    }

    if-Ends :
        {x y : Handled w} (b : Bool)
        → (b ≡ true → Ends rest x)
        → Ends rest y
        → Ends rest (if b then x else y)
    if-Ends true hx hy = hx refl
    if-Ends false hx hy = hy

    failed-Ends : (s : Session w) → Ends rest (some (neg 1, s))
    failed-Ends s = record { each = λ e. ground arith }

  -- A handler that receives exactly the body of the packet, and reads no more after that.
  received-Ends :
      (c : w.receiver.Conn) (len : ℕ) (body rest : List ℕ) (s : Session w)
      (k : List ℕ → Session w → Handled w)
      → length body ≡ len
      → w.receiver.Delivers c (body ++ rest)
      → ((s' : Session w) → Keeps s'.conn (k body s'))
      → Ends rest (recv_or w (recv_whole w.receiver len c) s k)
  received-Ends c len body rest s k e d h =
      let (c', run, d') = recv_whole_all w.receiver c body rest d in
      let run' : recv_whole w.receiver len c ≡ (some body, c') =
        subst (λ n. recv_whole w.receiver n c ≡ (some body, c')) e run in
      rw run' (Keeps-Ends (k body (record s { conn = c' })) d' (h (record s { conn = c' })))

  module _ (len : ℕ) (body rest : List ℕ) (e : length body ≡ len) where
    allocated-Ends :
        (granted : Bool) (s : Session w) (k : List ℕ → Session w → Handled w)
        → w.receiver.Delivers s.conn (body ++ rest)
        → ((s' : Session w) → Keeps s'.conn (k body s'))
        → Ends rest (recv_or w (recv_alloc w granted len s.conn) s k)
    unfolding recv_alloc
    allocated-Ends true s k d h = received-Ends s.conn len body rest s k e d h
    allocated-Ends false s k d h = elim (Bool-cases (len == 0)) [
      | inl nothing ↦ rw nothing (received-Ends s.conn len body rest s k e d h)
      | inr some_bytes ↦ rw some_bytes (failed-Ends s)
    ]

    handle_data-Ends :
        (s : Session w)
        → w.receiver.Delivers s.conn (body ++ rest)
        → Ends rest (handle_data w len s)
    unfolding handle_data
    handle_data-Ends s d =
        allocated-Ends (w.memory s.node.calls) (record s { node = called s.node }) (forward w) d
          (forward-Keeps body)

    dp_read_pkt_link_graph-Ends :
        (s : Session w)
        → w.receiver.Delivers s.conn (body ++ rest)
        → Ends rest (dp_read_pkt_link_graph w len false s)
    unfolding dp_read_pkt_link_graph
    dp_read_pkt_link_graph-Ends s d =
        let s' : Session w = record s { node = called s.node } in
        let received =
          received-Ends s.conn len body rest s' (parse_link_graph w len false) e d
            (parse_link_graph-Keeps len body) in
        if-Ends {y = some (neg 1, s')} (w.memory s.node.calls) (λ granted. received)
          (failed-Ends s')

    flush-Ends :
        (s : Session w) → w.receiver.Delivers s.conn (body ++ rest) → Ends rest (flush w len s)
    unfolding flush
    flush-Ends s d =
        allocated-Ends (w.memory s.node.calls) (record s { node = called s.node })
          (λ pkt s'. some (pos 0, s')) d (λ s'. record { each = refl })

  module _ (body rest : List ℕ) (e : length body ≡ pl_probe) where
    dp_handle_probe_req-Ends :
        (s : Session w)
        → w.receiver.Delivers s.conn (body ++ rest)
        → Ends rest (dp_handle_probe_req w s)
    unfolding dp_handle_probe_req
    dp_handle_probe_req-Ends s d =
        received-Ends s.conn pl_probe body rest s
          (λ req s'.
            send_to w s'.node s'.dp.remote_host pt_probe_resp req
            >>= (λ r. some (r.0, record s' { node = r.1 })))
          e d (λ s'. respond-Keeps s' pt_probe_resp body)

    dp_handle_probe_resp-Ends :
        (s : Session w)
        → w.receiver.Delivers s.conn (body ++ rest)
        → Ends rest (dp_handle_probe_resp w s)
    unfolding dp_handle_probe_resp
    dp_handle_probe_resp-Ends s d =
        received-Ends s.conn pl_probe body rest s
          (λ resp s'.
            read_le 2 resp
            >>= (λ r. if r.0 == s'.dp.probe_seq then measure w s' else some (pos 0, s')))
          e d
          (λ s'.
            bind-Each (read_le 2 body)
              λ r. if-Each (r.0 == s'.dp.probe_seq) (measure-Keeps s') (record { each = refl }))

  -- The packets of a probe have the length of a probe.
  abbrev pub FitsType : (type : ℕ) → List ℕ → Type 0
  FitsType type body = type ≡ pt_probe_req ⊎ type ≡ pt_probe_resp → length body ≡ pl_probe

  dispatch-Ends :
      (type : ℕ) (body rest : List ℕ) (s : Session w)
      → FitsType type body
      → w.receiver.Delivers s.conn (body ++ rest)
      → Ends rest (dispatch w type (length body) s)
  unfolding dispatch
  dispatch-Ends type body rest s h d =
      if-Ends (type == pt_data) (λ e. handle_data-Ends (length body) body rest refl s d)
        (if-Ends (type == pt_link_graph)
          (λ e. dp_read_pkt_link_graph-Ends (length body) body rest refl s d)
          (if-Ends (type == pt_probe_req)
            (λ e. dp_handle_probe_req-Ends body rest (h (inl (==→eq type pt_probe_req e))) s d)
            (if-Ends (type == pt_probe_resp)
              (λ e. dp_handle_probe_resp-Ends body rest (h (inr (==→eq type pt_probe_resp e))) s d)
              (flush-Ends (length body) body rest refl s d))))

  -- Where a connection delivers a header, as many bytes as it says, and more, with a type and a
  -- length below 2^16, and two bytes for the packets of a probe: if `dp_recv_packet` returns 0,
  -- the connection next delivers exactly what was sent behind the packet.
  pub dp_recv_packet-Delivers :
      (s s' : Session w) (type : ℕ) (body rest : List ℕ)
      → type < 2 ^ 16
      → length body < 2 ^ 16
      → FitsType type body
      → w.receiver.Delivers s.conn (header_bytes w.order type (length body) ++ (body ++ rest))
      → dp_recv_packet w s ≡ some (pos 0, s')
      → w.receiver.Delivers s'.conn rest
  unfolding dp_recv_packet
  dp_recv_packet-Delivers s s' type body rest ht hl h d run =
      let (c, got, d') =
        dp_recv_header-header_bytes w.order w.receiver s.conn type (length body) (body ++ rest) ht
          hl d in
      let whole : Ends rest (dp_recv_packet w s) =
        rw (got, dp_recv_packet) (dispatch-Ends type body rest (record s { conn = c }) h d') in
      (subst (λ r. Ends rest r) run whole).each refl
