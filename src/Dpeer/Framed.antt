-- ===== src/Dpeer/Framed.antt =====
-- What the sending functions of dpeer.c put on the connection, and how often they give up the lock.
use mathlib.Core.List.{append_assoc}
use p2p_vn.Base.{
  ℕ, suc, ◌+◌, ◌*◌, ◌%◌, ◌^◌, ◌≡◌, ◌⊎◌, inl, inr, refl, ap, sym, subst, ◌∙◌, arith, some, ◌>>=◌,
  List, ◌++◌, ℤ, pos, neg, length,
}
use p2p_vn.Packet.{Ipv4Host, PktEdge, ByteOrder, pl_header, pl_edge, pl_link_graph_static}
use p2p_vn.Packet.Bytes.{read_bytes, read_bytes-append}
use p2p_vn.Packet.Layout.{edges_bytes}
use p2p_vn.Dpeer.{Socket}
use p2p_vn.Dpeer.Whole.{IsSent, dp_psend_data-IsSent}
use p2p_vn.Dpeer.Send.{
  Sending, psend_all, header_bytes, dp_psend_start, dp_send_packet, link_graph_head,
  dp_send_linkstate, pt_link_graph,
}

-- A front part of the bytes `frame` was sent.
abbrev pub IsFront : (frame wire : List ℕ) → Type 0
IsFront frame wire = (rest : List ℕ) × (wire ++ rest ≡ frame)

psend_all-IsSent :
    (s : Socket) (call : ℕ) (buf : List ℕ)
    → (r : ℤ × List ℕ) × (psend_all s call buf ≡ some r) × IsSent buf r
psend_all-IsSent s call buf = dp_psend_data-IsSent (suc (length buf)) s call buf (omega arith)

-- The packet is sent and the lock is held still, or part of it is and the lock was given up twice.
abbrev IsStarted : (frame : List ℕ) → Sending → Type 0
IsStarted frame r =
    ((r.ret ≡ pos 0) × (r.wire ≡ frame) × (r.unlocks ≡ 0))
    ⊎ ((r.ret ≡ neg 1) × (r.unlocks ≡ 2) × IsFront frame r.wire)

module _ (order : ByteOrder) where
  abbrev pub frame : (type len : ℕ) → List ℕ → List ℕ
  frame type len buf = header_bytes order type (len % 2 ^ 16) ++ buf

  dp_psend_start-IsStarted :
      (s : Socket) (type len : ℕ) (buf : List ℕ)
      → (r : Sending) × (dp_psend_start order s type len buf ≡ some r)
        × IsStarted (frame type len buf) r
  unfolding dp_psend_start
  dp_psend_start-IsStarted s type len buf =
      let head = header_bytes order type (len % 2 ^ 16) in
      let (h, run, sent) = psend_all-IsSent s 0 head in
      let (b, run', sent') = psend_all-IsSent s pl_header buf in
      elim sent [
        | inr (fail, (rest, short)) ↦ (
          record { ret = neg 1; wire = h.1; unlocks = 2 },
          rw (run, fail, dp_psend_start) refl,
          inr (
            refl,
            refl,
            (rest ++ buf, sym (append_assoc h.1 rest buf) ∙ ap (λ l. l ++ buf) short),
          ),
        )
        | inl (ok, whole) ↦ elim sent' [
          | inl (ok', whole') ↦ (
            record { ret = pos 0; wire = h.1 ++ b.1; unlocks = 0 },
            rw (run, ok, run', ok', dp_psend_start) refl,
            inl (refl, rw (whole, whole') refl, refl),
          )
          | inr (fail', (rest, short)) ↦ (
            record { ret = neg 1; wire = h.1 ++ b.1; unlocks = 2 },
            rw (run, ok, run', fail', dp_psend_start) refl,
            inr (refl, refl, (rest, append_assoc h.1 b.1 rest ∙ rw (whole, short) refl)),
          )
        ]
      ]

  -- `dp_send_packet`, with a buffer that starts with `len % 2^16` bytes `sent`, returns, on any
  -- connection: with 0, the header with that length and exactly these bytes sent and the lock
  -- given up once; or with -1, a front part of these sent and the lock given up twice.
  pub dp_send_packet_framed :
      (s : Socket) (type len : ℕ) (sent unsent : List ℕ)
      → length sent ≡ len % 2 ^ 16
      → (r : Sending) × (dp_send_packet order s type len (sent ++ unsent) ≡ some r)
        × (((r.ret ≡ pos 0) × (r.wire ≡ frame type len sent) × (r.unlocks ≡ 1))
            ⊎ ((r.ret ≡ neg 1) × (r.unlocks ≡ 2) × IsFront (frame type len sent) r.wire))
  unfolding dp_send_packet
  dp_send_packet_framed s type len sent unsent size =
      let small : len % 2 ^ 16 % 2 ^ 16 ≡ len % 2 ^ 16 = omega arith in
      let read : read_bytes (len % 2 ^ 16) (sent ++ unsent) ≡ some (sent, unsent) =
        subst (λ n. read_bytes n (sent ++ unsent) ≡ some (sent, unsent)) size
          (read_bytes-append sent unsent) in
      let (r, run, started) = dp_psend_start-IsStarted s type (len % 2 ^ 16) sent in
      let same : frame type (len % 2 ^ 16) sent ≡ frame type len sent = rw small refl in
      elim started [
        | inl (ok, whole, held) ↦ (
          record r { unlocks = r.unlocks + 1 },
          rw (read, run, ok, dp_send_packet, ◌>>=◌) refl,
          inl (ok, whole ∙ same, omega (arith, held)),
        )
        | inr (fail, twice, front) ↦ (
          r,
          rw (read, run, fail, dp_send_packet, ◌>>=◌) refl,
          inr (fail, twice, subst (λ f. IsFront f r.wire) same front),
        )
      ]

  -- The bytes of a link state packet, its header with the length that the code puts in.
  abbrev pub link_frame : (me : Ipv4Host) → List PktEdge → List ℕ
  link_frame me edges =
      frame pt_link_graph (pl_edge * length edges + pl_link_graph_static)
        (link_graph_head order me (length edges))
      ++ edges_bytes edges

  -- `dp_send_linkstate` returns, on any connection: with 0, the whole packet sent and the lock
  -- given up once; or with -1, a front part of it sent and the lock given up twice; or with -2, a
  -- front part sent and the lock given up once.
  pub dp_send_linkstate_framed :
      (s : Socket) (me : Ipv4Host) (edges : List PktEdge)
      → (r : Sending) × (dp_send_linkstate order s me edges ≡ some r)
        × (((r.ret ≡ pos 0) × (r.wire ≡ link_frame me edges) × (r.unlocks ≡ 1))
            ⊎ (((r.ret ≡ neg 1) × (r.unlocks ≡ 2) × IsFront (link_frame me edges) r.wire)
                ⊎ ((r.ret ≡ neg 2) × (r.unlocks ≡ 1) × IsFront (link_frame me edges) r.wire)))
  unfolding dp_send_linkstate
  dp_send_linkstate_framed s me edges =
      let head = link_graph_head order me (length edges) in
      let len = pl_edge * length edges + pl_link_graph_static in
      let body = edges_bytes edges in
      let (r, run, started) = dp_psend_start-IsStarted s pt_link_graph len head in
      let (b, run', sent') = psend_all-IsSent s (pl_header + pl_link_graph_static) body in
      elim started [
        | inr (fail, twice, (rest, short)) ↦ (
          record r { ret = neg 1 },
          rw (run, fail, dp_send_linkstate) refl,
          inr (
              inl (
                refl,
                twice,
                (rest ++ body, sym (append_assoc r.wire rest body) ∙ ap (λ l. l ++ body) short),
              )),
        )
        | inl (ok, whole, held) ↦ elim sent' [
          | inl (ok', whole') ↦ (
            record { ret = pos 0; wire = r.wire ++ b.1; unlocks = r.unlocks + 1 },
            rw (run, ok, run', ok', dp_send_linkstate) refl,
            inl (refl, rw (whole, whole') refl, omega (arith, held)),
          )
          | inr (fail', (rest, short)) ↦ (
            record { ret = neg 2; wire = r.wire ++ b.1; unlocks = r.unlocks + 1 },
            rw (run, ok, run', fail', dp_send_linkstate) refl,
            inr (
                inr (
                  refl,
                  omega (arith, held),
                  (rest, append_assoc r.wire b.1 rest ∙ rw (whole, short) refl),
                )),
          )
        ]
      ]
