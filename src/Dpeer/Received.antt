-- ===== src/Dpeer/Received.antt =====
-- What `dp_recv_header` reads from a packet that was sent.
use p2p_vn.Base.{
  ℕ, ◌^◌, ◌<◌, ◌≡◌, refl, sym, subst, arith, some, List, ◌++◌, pos, length, length-append, le→ltb,
}
use mathlib.Core.List.{append-nil}
use p2p_vn.Packet.{ByteOrder, pl_header}
use p2p_vn.Packet.Bytes.{le_bytes, read_le-le_bytes, length-le_bytes}
use p2p_vn.Dpeer.Send.{header_bytes}
use p2p_vn.Dpeer.Receive.{Receiver, recv_whole, read_header, got_header, dp_recv_header}

module _ (order : ByteOrder) where
  length-header_bytes : (type len : ℕ) → length (header_bytes order type len) ≡ pl_header
  unfolding header_bytes
  length-header_bytes type len = omega (
    arith,
    length-append (le_bytes 2 (order.htons type)) (le_bytes 2 (order.htons len)),
    length-le_bytes 2 (order.htons type),
    length-le_bytes 2 (order.htons len),
  )

  module _ (r : Receiver) where
    read_header-header_bytes :
        (type len : ℕ)
        → type < 2 ^ 16
        → len < 2 ^ 16
        → read_header order r (header_bytes order type len)
          ≡ some (record { ret = pos 0; pkt_type = type; pkt_len = len })
    unfolding read_header header_bytes
    read_header-header_bytes type len ht hl =
        let bt = order.htons_lt type ht in
        let bl = order.htons_lt len hl in
        let whole = append-nil (le_bytes 2 (order.htons len)) in
        rw (
          read_le-le_bytes 2 (order.htons type) (le_bytes 2 (order.htons len)) (omega arith),
          sym whole,
          read_le-le_bytes 2 (order.htons len) _ (omega arith),
          order.ntohs-htons type ht,
          order.ntohs-htons len hl,
        )

    -- Where the connection delivers a header that was made with a type and a length below 2^16:
    -- `dp_recv_header` gives 0 and that type and length, and what was sent behind the header is
    -- still to come.
    pub dp_recv_header-header_bytes :
        (c : r.Conn) (type len : ℕ) (rest : List ℕ)
        → type < 2 ^ 16
        → len < 2 ^ 16
        → r.Delivers c (header_bytes order type len ++ rest)
        → (c' : r.Conn) × (dp_recv_header order r c
            ≡ some (record { ret = pos 0; pkt_type = type; pkt_len = len }, c'))
          × r.Delivers c' rest
    unfolding dp_recv_header got_header
    dp_recv_header-header_bytes c type len rest ht hl d =
        let size = length-header_bytes type len in
        let (c', run, d') = r.recv_all c (header_bytes order type len) rest d in
        let run' : r.recv pl_header c ≡ (some (header_bytes order type len), c') =
          subst (λ n. r.recv n c ≡ (some (header_bytes order type len), c')) size run in
        (
          c',
          rw
              (
                run',
                le→ltb (length (header_bytes order type len)) pl_header (omega (arith, size)),
                read_header-header_bytes type len ht hl,
                dp_recv_header,
                got_header,
              )
              refl,
          d',
        )

module _ (r : Receiver) where
  pub recv_whole_all :
      (c : r.Conn) (xs ys : List ℕ)
      → r.Delivers c (xs ++ ys)
      → (c' : r.Conn) × (recv_whole r (length xs) c ≡ (some xs, c')) × r.Delivers c' ys
  unfolding recv_whole
  recv_whole_all c xs ys d =
      let (c', run, d') = r.recv_all c xs ys d in
      (c', rw (run, le→ltb (length xs) (length xs) (omega arith), recv_whole) refl, d')
