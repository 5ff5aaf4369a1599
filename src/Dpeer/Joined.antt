-- ===== src/Dpeer/Joined.antt =====
-- A join packet from one host to another: what `dp_send_join` sends is what `dp_th_incoming` reads.
use p2p_vn.Base.{
  ℕ, ◌≡◌, inl, inr, refl, sym, ap, subst, ◌∙◌, arith, Option, none, some, List, [], ◌∷◌, ◌++◌, ℤ,
  pos, neg, ==_self, length,
}
use mathlib.Core.List.{append_assoc, append-nil}
use p2p_vn.Packet.{Mac, Ipv4Host, af_inet, join_packet, pkt_ipv4_unpack, pl_join}
use p2p_vn.Packet.Layout.{host_bytes, read_host, IsPktHost, read_host-host_bytes, length-host_bytes}
use p2p_vn.Routing.State.{update}
use p2p_vn.Dpeer.{Socket}
use p2p_vn.Dpeer.Send.{Sending, header_bytes, pt_join, dp_send_packet, dp_send_join}
use p2p_vn.Dpeer.Framed.{dp_send_packet_framed}
use p2p_vn.Dpeer.Receive.{recv_whole}
use p2p_vn.Dpeer.Received.{recv_whole_all, dp_recv_header-header_bytes}
use p2p_vn.Dpeer.World.{World, Session}
use p2p_vn.Dpeer.Packets.{set_mac}
use p2p_vn.Dpeer.Starts.{welcome, on_joined, dp_handle_join, dp_th_incoming, junk_mac, header_of}

abbrev code_of : Option Sending → ℤ
code_of none = neg 1
code_of (some r) = r.ret

abbrev wire_of : Option Sending → List ℕ
wire_of none = []
wire_of (some r) = r.wire

module _ (w : World) (turns : ℕ) (mac : Mac) (sai : Ipv4Host)
    (valid : IsPktHost (join_packet mac sai)) where
  abbrev body : List ℕ
  body = host_bytes (join_packet mac sai)

  -- The host that sent the packet.
  abbrev sender : Ipv4Host
  sender = record { mac = mac; sin_family = af_inet; s_addr = sai.s_addr; sin_port = sai.sin_port }

  dp_send_join_framed :
      (sock : Socket) (r : Sending)
      → dp_send_join w.order sock mac sai ≡ some r
      → r.ret ≡ pos 0
      → r.wire ≡ header_bytes w.order pt_join pl_join ++ body
  unfolding dp_send_join
  dp_send_join_framed sock r run ok =
      let size : length body ≡ pl_join = length-host_bytes (join_packet mac sai) valid.mac_len in
      let (r', run', sent) = dp_send_packet_framed w.order sock pt_join pl_join body [] size in
      let run'' : dp_send_packet w.order sock pt_join pl_join body ≡ some r' =
        subst (λ bs. dp_send_packet w.order sock pt_join pl_join bs ≡ some r') (append-nil body)
          run' in
      let same : some r' ≡ some r = sym run'' ∙ run in
      elim sent [
        | inl (done, whole, once) ↦ sym (ap wire_of same) ∙ whole
        | inr (fail, twice, front) ↦ let e = ok in let f = ap code_of same in ground arith
      ]

  -- The session after the join packet: the address that was the sender's is known.
  abbrev joined : (s : Session w) → w.receiver.Conn → Session w
  joined s c = record s {
    conn = c;
    node = record s.node {
      rd = record s.node.rd { ip_at = update s.node.rd.ip_at s.dp.remote_host (some sender) };
    };
  }

  dp_handle_join-body :
      (s : Session w) (rest : List ℕ)
      → w.receiver.Delivers s.conn (body ++ rest)
      → (c : w.receiver.Conn) × (dp_handle_join w turns s ≡ some (pos 0, joined s c))
        × w.receiver.Delivers c rest
  unfolding dp_handle_join pkt_ipv4_unpack join_packet
  dp_handle_join-body s rest d =
      let (c, run, d') = recv_whole_all w.receiver s.conn body rest d in
      let size : length body ≡ pl_join = length-host_bytes (join_packet mac sai) valid.mac_len in
      let run' : recv_whole w.receiver pl_join s.conn ≡ (some body, c) =
        subst (λ n. recv_whole w.receiver n s.conn ≡ (some body, c)) size run in
      let whole = append-nil body in
      let read : read_host body ≡ some (join_packet mac sai, []) =
        subst (λ bs. read_host bs ≡ some (join_packet mac sai, [])) whole
          (read_host-host_bytes (join_packet mac sai) [] valid) in
      (c, rw (run', read, dp_handle_join) refl, d')

  -- For a host whose fields have the widths of a join packet, and a peer structure that is
  -- allocated: if `dp_send_join` returns 0 and what it sent is what the connection of
  -- `dp_th_incoming` delivers, that thread goes on to welcome the peer, with the Ethernet address,
  -- the IPv4 address and the port that were sent, and what was sent behind the packet is still to
  -- come.
  pub dp_th_incoming-dp_send_join :
      (sock : Socket) (r : Sending) (s : Session w) (old : Ipv4Host) (rest : List ℕ)
      → dp_send_join w.order sock mac sai ≡ some r
      → r.ret ≡ pos 0
      → s.node.rd.ip_at s.dp.remote_host ≡ some old
      → w.receiver.Delivers s.conn (r.wire ++ rest)
      → (s' : Session w) × (dp_th_incoming w turns s ≡ welcome w turns s')
        × (s'.node.rd.ip_at s.dp.remote_host ≡ some sender)
        × w.receiver.Delivers s'.conn rest
  unfolding dp_th_incoming junk_mac set_mac header_of on_joined
  dp_th_incoming-dp_send_join sock r s old rest run ok there d =
      let head = header_bytes w.order pt_join pl_join in
      let d₁ : w.receiver.Delivers s.conn (head ++ (body ++ rest)) =
        subst (λ bs. w.receiver.Delivers s.conn bs)
          (ap (λ l. l ++ rest) (dp_send_join_framed sock r run ok) ∙ append_assoc head body rest)
          d in
      let (c, got, d₂) =
        dp_recv_header-header_bytes w.order w.receiver s.conn pt_join pl_join (body ++ rest)
          (omega arith) (omega arith) d₁ in
      let junk : Ipv4Host = record old { mac = 0xFF ∷ 0xFF ∷ 0xFF ∷ 0xFF ∷ 0xFF ∷ 0xFF ∷ [] } in
      let s₁ : Session w = record s {
        conn = c;
        node = record s.node {
          rd = record s.node.rd { ip_at = update s.node.rd.ip_at s.dp.remote_host (some junk) };
        };
      } in
      let (c', handled, d₃) = dp_handle_join-body s₁ rest d₂ in
      (
        joined s₁ c',
        rw (there, got, handled, dp_th_incoming, junk_mac, set_mac, header_of, on_joined) refl,
        rw (==_self s.dp.remote_host) refl,
        d₃,
      )
