-- ===== src/Dpeer/Tests.antt =====
-- Runs of the send loop on a connection that takes two bytes at a time, and of a probe.
use p2p_vn.Base.{ℕ, ◌≡◌, refl, arith, some, List, [], ◌∷◌, ◌++◌, ℤ, pos}
use p2p_vn.Dpeer.{dp_psend_data}
use p2p_vn.Packet.Bytes.{le_bytes}
use p2p_vn.Dpeer.Send.{header_bytes, pt_probe_req, pt_probe_resp}
use p2p_vn.Dpeer.World.{Session}
use p2p_vn.Dpeer.Packets.{dp_recv_packet}
use p2p_vn.Dpeer.Probes.{onward, probe_frame, answer, add_measured, dp_recv_packet_probed}
use p2p_vn.Dpeer.Fixtures.{narrow, world, session}
use p2p_vn.Dpeer.Whole.{IsSent, dp_psend_data-IsSent}

five : dp_psend_data 6 narrow 0 (1 ∷ 2 ∷ 3 ∷ 4 ∷ 5 ∷ []) ≡ some (pos 0, 1 ∷ 2 ∷ 3 ∷ 4 ∷ 5 ∷ [])
unfolding dp_psend_data
five = refl

dp_psend_data-IsSent_example :
    (r : ℤ × List ℕ) × (dp_psend_data 6 narrow 0 (1 ∷ 2 ∷ 3 ∷ []) ≡ some r)
    × IsSent (1 ∷ 2 ∷ 3 ∷ []) r
dp_psend_data-IsSent_example = dp_psend_data-IsSent 6 narrow 0 (1 ∷ 2 ∷ 3 ∷ []) (omega arith)

-- A probe with the number 0, which is the outstanding one, and its answer.
abbrev asked : Session world
asked = session (probe_frame world pt_probe_req 0)

abbrev answered : Session world
answered = session (probe_frame world pt_probe_resp 0 ++ (1 ∷ []))

request_there : asked.conn ≡ probe_frame world pt_probe_req 0 ++ []
unfolding header_bytes le_bytes
request_there = refl

dp_recv_packet_probed_example :
    ((c : List ℕ) × (dp_recv_packet world asked ≡ answer world 0 (onward world asked c)) × (c ≡ []))
    × ((c : List ℕ) × (dp_recv_packet world answered ≡ add_measured world (onward world answered c))
        × (c ≡ 1 ∷ []))
dp_recv_packet_probed_example =
    dp_recv_packet_probed world answered asked [] (1 ∷ []) (omega arith) request_there refl
