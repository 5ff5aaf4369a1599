-- ===== src/Dpeer/Probes.antt =====
-- A probe and its answer between two peers.
use p2p_vn.Base.{
  ℕ, ◌^◌, ◌<◌, ◌≡◌, ◌+◌, ◌%◌, ◌∙◌, refl, subst, arith, some, ◌>>=◌, List, [], ◌++◌, ==_self,
}
use mathlib.Core.List.{append_assoc, append-nil}
use p2p_vn.Packet.{pl_probe}
use p2p_vn.Packet.Bytes.{le_bytes, read_le, read_le-le_bytes, length-le_bytes}
use p2p_vn.Dpeer.Send.{header_bytes, pt_probe_req, pt_probe_resp}
use p2p_vn.Dpeer.Receive.{recv_whole}
use p2p_vn.Dpeer.Received.{recv_whole_all, dp_recv_header-header_bytes}
use p2p_vn.Routing.Update.{rt_dhost_add_link}
use p2p_vn.Dpeer.World.{World, Session, tv_ms, send_to}
use p2p_vn.Dpeer.Packets.{
  Handled, dp_handle_probe_req, measure, dp_handle_probe_resp, dispatch, dp_recv_packet,
}

-- A session that goes on with another connection.
abbrev pub onward : (w : World) → Session w → w.receiver.Conn → Session w
onward w s c = record s { conn = c }

module _ (w : World) where
  -- The bytes of a packet of a probe.
  abbrev pub probe_frame : (type seq_num : ℕ) → List ℕ
  probe_frame type seq_num = header_bytes w.order type pl_probe ++ le_bytes 2 seq_num

  -- `dp_handle_probe_req` once the number is received.
  abbrev pub answer : (seq_num : ℕ) → Session w → Handled w
  answer seq_num s =
      send_to w s.node s.dp.remote_host pt_probe_resp (le_bytes 2 seq_num)
      >>= (λ r. some (r.0, record s { node = r.1 }))

  received_number :
      (c : w.receiver.Conn) (seq_num : ℕ) (rest : List ℕ)
      → w.receiver.Delivers c (le_bytes 2 seq_num ++ rest)
      → (c' : w.receiver.Conn) × (recv_whole w.receiver pl_probe c
          ≡ (some (le_bytes 2 seq_num), c'))
        × w.receiver.Delivers c' rest
  received_number c seq_num rest d =
      let (c', run, d') = recv_whole_all w.receiver c (le_bytes 2 seq_num) rest d in
      (
        c',
        subst (λ n. recv_whole w.receiver n c ≡ (some (le_bytes 2 seq_num), c'))
            (length-le_bytes 2 seq_num) run,
        d',
      )

  read_number :
      (seq_num : ℕ) → seq_num < 2 ^ 16 → read_le 2 (le_bytes 2 seq_num) ≡ some (seq_num, [])
  read_number seq_num lt =
      subst (λ bs. read_le 2 bs ≡ some (seq_num, [])) (append-nil (le_bytes 2 seq_num))
        (read_le-le_bytes 2 seq_num [] (omega arith))

  request-answer :
      (t : Session w) (seq_num : ℕ) (rest : List ℕ)
      → w.receiver.Delivers t.conn (probe_frame pt_probe_req seq_num ++ rest)
      → (c : w.receiver.Conn) × (dp_recv_packet w t ≡ answer seq_num (onward w t c))
        × w.receiver.Delivers c rest
  unfolding dp_recv_packet dispatch dp_handle_probe_req
  request-answer t seq_num rest d =
      let head = header_bytes w.order pt_probe_req pl_probe in
      let d₁ =
        subst (λ bs. w.receiver.Delivers t.conn bs) (append_assoc head (le_bytes 2 seq_num) rest)
          d in
      let (c, got, d₂) =
        dp_recv_header-header_bytes w.order w.receiver t.conn pt_probe_req pl_probe
          (le_bytes 2 seq_num ++ rest) (omega arith) (omega arith) d₁ in
      let (c', run, d₃) = received_number c seq_num rest d₂ in
      (c', rw (got, run, dp_recv_packet, dispatch, dp_handle_probe_req) refl, d₃)

  response-measure :
      (s : Session w) (rest : List ℕ)
      → s.dp.probe_seq < 2 ^ 16
      → w.receiver.Delivers s.conn (probe_frame pt_probe_resp s.dp.probe_seq ++ rest)
      → (c : w.receiver.Conn) × (dp_recv_packet w s ≡ measure w (onward w s c))
        × w.receiver.Delivers c rest
  unfolding dp_recv_packet dispatch dp_handle_probe_resp
  response-measure s rest lt d =
      let seq_num = s.dp.probe_seq in
      let head = header_bytes w.order pt_probe_resp pl_probe in
      let d₁ =
        subst (λ bs. w.receiver.Delivers s.conn bs) (append_assoc head (le_bytes 2 seq_num) rest)
          d in
      let (c, got, d₂) =
        dp_recv_header-header_bytes w.order w.receiver s.conn pt_probe_resp pl_probe
          (le_bytes 2 seq_num ++ rest) (omega arith) (omega arith) d₁ in
      let (c', run, d₃) = received_number c seq_num rest d₂ in
      (
        c',
        rw
            (
              got,
              run,
              read_number seq_num lt,
              ==_self seq_num,
              dp_recv_packet,
              dispatch,
              dp_handle_probe_resp,
            )
            refl,
        d₃,
      )

  -- What the measured time leads to: the link to the peer is added with it, the time being the one
  -- since the probe was sent, cut to 32 bits, and the peer keeps it.
  abbrev pub add_measured : Session w → Handled w
  add_measured s =
      let tv = w.now s.node.calls in
      let rtt_us = w.elapsed_us tv s.dp.probe_send_time % 2 ^ 32 in
      rt_dhost_add_link w.grants w.qs w.order s.node.rd s.dp.remote_host rtt_us
        (tv_ms (w.now (s.node.calls + 1)))
      >>= (λ r. some (
        r.0,
        record s {
          node = record s.node { rd = r.1; calls = s.node.calls + 2 };
          dp = record s.dp { rtt_us = rtt_us };
        },
      ))

  measure-add_measured : (s : Session w) → measure w s ≡ add_measured s
  unfolding measure
  measure-add_measured s = refl

  -- For an outstanding number below 2^16: where a connection delivers a probe request with this
  -- number, `dp_recv_packet` sends the peer a probe response with the number; and where the
  -- connection of the peer that asked delivers that response, its `dp_recv_packet` calls
  -- `rt_dhost_add_link` with the time since the probe, cut to 32 bits, and returns its result,
  -- with the time kept in the peer. What was sent behind either packet is still to come.
  pub dp_recv_packet_probed :
      (s t : Session w) (rest rest' : List ℕ)
      → s.dp.probe_seq < 2 ^ 16
      → w.receiver.Delivers t.conn (probe_frame pt_probe_req s.dp.probe_seq ++ rest)
      → w.receiver.Delivers s.conn (probe_frame pt_probe_resp s.dp.probe_seq ++ rest')
      → ((c : w.receiver.Conn) × (dp_recv_packet w t ≡ answer s.dp.probe_seq (onward w t c))
          × w.receiver.Delivers c rest)
        × ((c : w.receiver.Conn) × (dp_recv_packet w s ≡ add_measured (onward w s c))
            × w.receiver.Delivers c rest')
  dp_recv_packet_probed s t rest rest' lt d e =
      let (c, run, after) = response-measure s rest' lt e in
      (
        request-answer t s.dp.probe_seq rest d,
        (c, run ∙ measure-add_measured (onward w s c), after),
      )
