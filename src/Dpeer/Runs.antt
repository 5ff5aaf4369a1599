-- ===== src/Dpeer/Runs.antt =====
-- Runs of packets between two peers, and of the loop of a thread.
use p2p_vn.Base.{
  ◌≡◌, ◌⊎◌, inl, refl, arith, true, none, some, List, [], ◌∷◌, ◌++◌, ℕ, ◌+◌, ◌*◌, ◌/◌, ◌≤◌, pos,
  neg,
}
use p2p_vn.Packet.{join_packet, pkt_ipv4_pack, pl_join}
use p2p_vn.Packet.Bytes.{le_bytes, read_le, read_bytes}
use p2p_vn.Packet.Layout.{IsPktHost, IsPktEdge, host_bytes}
use p2p_vn.Dpeer.Received.{dp_recv_header-header_bytes}
use p2p_vn.Dpg.{dpg_send_linkstate}
use p2p_vn.Dpeer.{dp_psend_data}
use p2p_vn.Dpeer.Send.{
  Sending, dp_send_packet, dp_send_linkstate, dp_send_join, header_bytes, pt_data, pt_quit, pt_join,
}
use p2p_vn.Dpeer.Framed.{
  IsFront, frame, link_frame, dp_send_packet_framed, dp_send_linkstate_framed,
}
use p2p_vn.Dpeer.Receive.{recv_whole, dp_recv_header}
use p2p_vn.Routing.State.{update}
use p2p_vn.Dpeer.World.{Node, Session, called}
use p2p_vn.Dpeer.Packets.{dp_recv_packet, dp_send_probe_req, set_mac, dispatch, flush}
use p2p_vn.Dpeer.Aligned.{dp_recv_packet-Delivers}
use p2p_vn.Dpeer.LinkState.{pass_on, dp_recv_packet-link_frame}
use p2p_vn.Dpeer.Threads.{
  ended, dp_cleanup_1, Watch, go, turn, beat, attend, measure_turn, first_watch, dp_timeout_probe,
  dp_timeout_link_mult,
}
use p2p_vn.Dpeer.Starts.{Connecting, welcome, dp_th_incoming, junk_mac, header_of, give_up}
use p2p_vn.Dpeer.Paced.{Sent, none_yet, one_more, Turns-paced}
use p2p_vn.Dpeer.Joined.{dp_th_incoming-dp_send_join}
use p2p_vn.Dpeer.Ended.{threads-freed}
use p2p_vn.Dpeer.Fixtures.{big_endian, bytes, narrow, world, peer, node, session, edge}

abbrev three : List ℕ
three = 1 ∷ 2 ∷ 3 ∷ []

edge-IsPktEdge : IsPktEdge edge
edge-IsPktEdge = record {
  src_ok = record { ip_lt = omega arith; port_lt = omega arith; mac_len = refl };
  dst_ok = record { ip_lt = omega arith; port_lt = omega arith; mac_len = refl };
  rtt_lt = omega arith;
  ts_lt = omega arith;
}

peer-IsPktHost : IsPktHost (pkt_ipv4_pack big_endian peer)
unfolding pkt_ipv4_pack
peer-IsPktHost = record { ip_lt = omega arith; port_lt = omega arith; mac_len = refl }

dp_send_packet_framed_example :
    (r : Sending) × (dp_send_packet big_endian narrow pt_data 65539 (three ++ three) ≡ some r)
    × (((r.ret ≡ pos 0) × (r.wire ≡ frame big_endian pt_data 3 three) × (r.unlocks ≡ 1))
        ⊎ ((r.ret ≡ neg 1) × (r.unlocks ≡ 2) × IsFront (frame big_endian pt_data 3 three) r.wire))
dp_send_packet_framed_example =
    dp_send_packet_framed big_endian narrow pt_data 65539 three three refl

dp_send_linkstate_framed_example :
    (r : Sending) × (dp_send_linkstate big_endian narrow peer (edge ∷ []) ≡ some r)
    × (((r.ret ≡ pos 0) × (r.wire ≡ link_frame big_endian peer (edge ∷ [])) × (r.unlocks ≡ 1))
        ⊎ (((r.ret ≡ neg 1)
              × (r.unlocks ≡ 2)
              × IsFront (link_frame big_endian peer (edge ∷ [])) r.wire)
            ⊎ ((r.ret ≡ neg 2)
                × (r.unlocks ≡ 1)
                × IsFront (link_frame big_endian peer (edge ∷ [])) r.wire)))
dp_send_linkstate_framed_example = dp_send_linkstate_framed big_endian narrow peer (edge ∷ [])

dp_recv_header-header_bytes_example :
    (c : List ℕ) × (dp_recv_header big_endian bytes (header_bytes big_endian pt_data 3 ++ three)
      ≡ some (record { ret = pos 0; pkt_type = pt_data; pkt_len = 3 }, c))
    × (c ≡ three)
dp_recv_header-header_bytes_example =
    dp_recv_header-header_bytes big_endian bytes (header_bytes big_endian pt_data 3 ++ three)
      pt_data 3 three (omega arith) (omega arith) refl

-- A packet that is read and dropped.
abbrev quit : List ℕ
quit = header_bytes big_endian pt_quit 3 ++ (three ++ (9 ∷ []))

dropped :
    dp_recv_packet world (session quit)
    ≡ some (pos 0, record (session (9 ∷ [])) { node = called node })
unfolding dp_recv_packet dispatch flush dp_recv_header header_bytes le_bytes read_le recv_whole
dropped = refl

dp_recv_packet-Delivers_example : (session (9 ∷ [])).conn ≡ 9 ∷ []
dp_recv_packet-Delivers_example =
    dp_recv_packet-Delivers world (session quit) (record (session (9 ∷ [])) { node = called node })
      pt_quit three (9 ∷ []) (omega arith) (omega arith) (λ e. ground arith) refl dropped

dp_recv_packet-link_frame_example :
    (c : List ℕ) × (dp_recv_packet world (session (link_frame big_endian peer (edge ∷ []) ++ three))
      ≡ pass_on world (edge ∷ []) (record (session c) { node = called node }))
    × (c ≡ three)
dp_recv_packet-link_frame_example =
    dp_recv_packet-link_frame world peer (edge ∷ []) peer-IsPktHost (edge-IsPktEdge, tt)
      (omega arith) (session (link_frame big_endian peer (edge ∷ []) ++ three)) three refl refl

-- The first turn: a probe and no link state, since there is no peer in the group, and two seconds pass.
abbrev probed : Session world
probed = record (session []) {
  node = record node { sent = (7, 52 ∷ 171 ∷ 2 ∷ 0 ∷ 0 ∷ 0 ∷ []) ∷ []; calls = 7 };
  dp = record (session []).dp { probe_send_time = record { tv_sec = 1; tv_usec = 0 } };
}

abbrev second_watch : Watch
second_watch = record {
  wtime = 0;
  probe_ct = 1;
  before = record { tv_sec = 4; tv_usec = 0 };
  after = record { tv_sec = 6; tv_usec = 0 };
}

first_turn : turn world (session []) first_watch ≡ some (go probed second_watch)
unfolding turn beat attend measure_turn dp_send_probe_req dp_send_packet dp_psend_data le_bytes
    dpg_send_linkstate read_bytes
first_turn = refl

Turns-paced_example :
    (p : ℕ) × (k : ℕ) × Sent world p k 2000000 probed second_watch
      (one_more (none_yet (session [])) first_turn)
    × (p * dp_timeout_probe ≤ 2000000 + second_watch.wtime)
    × (k ≡ (p + 9) / dp_timeout_link_mult)
Turns-paced_example = Turns-paced world (one_more (none_yet (session [])) first_turn)

-- A peer that joins.
abbrev joining : List ℕ
joining =
    header_bytes big_endian pt_join pl_join
    ++ host_bytes (join_packet (2 ∷ 0 ∷ 0 ∷ 0 ∷ 0 ∷ 5 ∷ []) peer)

abbrev join_sent : Sending
join_sent = record { ret = pos 0; wire = joining; unlocks = 1 }

join_run : dp_send_join big_endian narrow (2 ∷ 0 ∷ 0 ∷ 0 ∷ 0 ∷ 5 ∷ []) peer ≡ some join_sent
unfolding dp_send_join dp_psend_data le_bytes host_bytes join_packet read_bytes
join_run = refl

join-IsPktHost : IsPktHost (join_packet (2 ∷ 0 ∷ 0 ∷ 0 ∷ 0 ∷ 5 ∷ []) peer)
unfolding join_packet
join-IsPktHost = record { ip_lt = omega arith; port_lt = omega arith; mac_len = refl }

dp_th_incoming-dp_send_join_example :
    (s' : Session world) × (dp_th_incoming world 3 (session (joining ++ three))
      ≡ welcome world 3 s')
    × (s'.node.rd.ip_at 7 ≡ some (record peer { mac = 2 ∷ 0 ∷ 0 ∷ 0 ∷ 0 ∷ 5 ∷ [] }))
    × (s'.conn ≡ three)
dp_th_incoming-dp_send_join_example =
    dp_th_incoming-dp_send_join world 3 (2 ∷ 0 ∷ 0 ∷ 0 ∷ 0 ∷ 5 ∷ []) peer join-IsPktHost narrow
      join_sent (session (joining ++ three)) peer three join_run refl refl refl

-- The first packet is no join packet.
abbrev gone_node : Node
gone_node = record node {
  rd = record node.rd {
    ip_at =
        update
          (update node.rd.ip_at 7
            (some (record peer { mac = 0xFF ∷ 0xFF ∷ 0xFF ∷ 0xFF ∷ 0xFF ∷ 0xFF ∷ [] })))
          7 none;
  };
}

gone : dp_th_incoming world 3 (session quit) ≡ some (ended true gone_node)
unfolding dp_th_incoming junk_mac header_of give_up dp_cleanup_1 set_mac dp_recv_header header_bytes
    le_bytes read_le
gone = refl

abbrev connecting : Connecting
connecting = record { ret = pos 3; sockets = pos 3 ∷ []; lists = 0 }

threads-freed_example : gone_node.rd.ip_at 7 ≡ none
threads-freed_example = threads-freed world 3 connecting (session quit) true gone_node (inl gone)
