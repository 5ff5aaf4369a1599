-- ===== src/Dpeer/Receive.antt =====
-- dpeer.c: `dp_recv_header`, and the connection that it reads from. `recv` with MSG_WAITALL is a
-- parameter.
use p2p_vn.Base.{
  ℕ, Option, none, some, ◌>>=◌, ◌≡◌, List, ◌++◌, ℤ, pos, neg, ltb, if◌then◌else◌, length,
}
use p2p_vn.Packet.{ByteOrder, pl_header}
use p2p_vn.Packet.Bytes.{read_le}

-- What POSIX promises of `recv` with MSG_WAITALL: as long as the connection delivers the bytes that
-- are asked for, exactly these are received. The result -1 is `none`.
pub record Receiver : Type 1 where
  pub Conn : Type 0
  pub recv : (len : ℕ) → Conn → Option (List ℕ) × Conn
  pub Delivers : Conn → List ℕ → Type 0
  pub recv_all :
      (c : Conn) (xs ys : List ℕ)
      → Delivers c (xs ++ ys)
      → (c' : Conn) × (recv (length xs) c ≡ (some xs, c')) × Delivers c' ys

-- The first `len` bytes if they all came: the test `r != len` of the callers.
abbrev pub if_whole : {C : Type 0} → (len : ℕ) → Option (List ℕ) × C → Option (List ℕ) × C
if_whole len (none, c) = (none, c)
if_whole len (some bs, c) = (if ltb (length bs) len then none else some bs, c)

unfoldable pub recv_whole : (r : Receiver) → (len : ℕ) → r.Conn → Option (List ℕ) × r.Conn
recv_whole r len c = if_whole len (r.recv len c)

pub record Header : Type 0 where
  pub ret : ℤ
  pub pkt_type : ℕ
  pub pkt_len : ℕ

module _ (order : ByteOrder) (r : Receiver) where
  -- The two fields, with the result 0.
  unfoldable pub read_header : List ℕ → Option Header
  read_header bs = do
    (type, bs₁) ← read_le 2 bs
    (len, bs₂) ← read_le 2 bs₁
    some (record { ret = pos 0; pkt_type = order.ntohs type; pkt_len = order.ntohs len })

  abbrev pub no_header : ℤ → Header
  no_header ret = record { ret = ret; pkt_type = 0; pkt_len = 0 }

  unfoldable pub got_header : Option (List ℕ) × r.Conn → Option (Header × r.Conn)
  unfolding read_header
  got_header (none, c) = some (no_header (neg 1), c)
  got_header (some bs, c) =
      let parsed = read_header bs >>= (λ h. some (h, c)) in
      if ltb (length bs) pl_header then some (no_header (pos 1), c) else parsed

  -- `dp_recv_header`; `none` does not occur, since both fields were received.
  unfoldable pub dp_recv_header : r.Conn → Option (Header × r.Conn)
  unfolding got_header
  dp_recv_header c = got_header (r.recv pl_header c)
