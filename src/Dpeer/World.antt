-- ===== src/Dpeer/World.antt =====
-- The state that the threads of dpeer.c and vnet.c share, the one of a connected peer, and what they
-- take from outside.
use p2p_vn.Base.{ℕ, ◌+◌, ◌*◌, ◌/◌, Bool, Option, some, ◌>>=◌, List, [], ◌∷◌, ◌++◌, ℤ, length}
use p2p_vn.Packet.{Ipv4Host, ByteOrder}
use p2p_vn.Sorting.{Qsort}
use p2p_vn.Pcon.{Limiter, Timers, Timeval}
use p2p_vn.Dpg.{Group}
use p2p_vn.Routing.State.{Routing}
use p2p_vn.Vnet.{Vnet}
use p2p_vn.Dpeer.{Socket}
use p2p_vn.Dpeer.Receive.{Receiver}
use p2p_vn.Dpeer.Send.{dp_send_packet}

-- How `epoll_wait` ends: with an error, without an event, with EPOLLIN, or with another event only.
pub data Polled : Type 0 where
  failed : Polled
  idle : Polled
  readable : Polled
  other : Polled

-- What the system does; a call is told by its number.
pub record World : Type 1 where
  pub order : ByteOrder
  pub qs : Qsort
  pub timers : Timers
  pub receiver : Receiver
  -- The calls of `malloc` in routing.c, which have numbers of their own, and all others.
  pub grants : ℕ → Bool
  pub memory : ℕ → Bool
  pub now : ℕ → Timeval
  pub rand : ℕ → ℕ
  pub lock : ℕ → ℤ
  -- The `send` calls of one packet.
  pub net : ℕ → Socket
  -- `tv_us` of `timersub(after, before)`
  pub elapsed_us : (after before : Timeval) → ℕ
  -- `epoll_create` and `epoll_ctl`, and `epoll_wait` with a time in milliseconds
  pub epoll : ℕ → ℤ
  pub poll : (call timeout : ℕ) → Polled

-- The routing state, the group, the limiter, the device, the packets that were sent, each with the address of the
-- host it was sent to, the hosts for which a connecting thread was started, and the number of calls.
pub record Node : Type 0 where
  pub rd : Routing
  pub dpg : Group
  pub pc : Limiter
  pub vnet : Vnet
  pub sent : List (ℕ × List ℕ)
  pub spawned : List Ipv4Host
  pub calls : ℕ

-- `struct direct_peer`; `remote_host` is the pointer to that field, as routing.c keeps it.
pub record DirectPeer : Type 0 where
  pub remote_host : ℕ
  pub probe_seq : ℕ
  pub probe_send_time : Timeval
  pub rtt_us : ℕ

-- A thread that serves a peer.
pub record Session (w : World) : Type 0 where
  pub node : Node
  pub dp : DirectPeer
  pub conn : w.receiver.Conn

abbrev pub tv_ms : Timeval → ℕ
tv_ms tv = tv.tv_sec * 1000 + tv.tv_usec / 1000

-- One more call was made.
abbrev pub called : Node → Node
called node = record node { calls = node.calls + 1 }

module _ (w : World) where
  -- `dp_send_packet` to the peer whose `remote_host` is `addr`.
  unfoldable pub send_to : Node → (addr type : ℕ) → List ℕ → Option (ℤ × Node)
  send_to node addr type buf = do
    r ← dp_send_packet w.order (w.net node.calls) type (length buf) buf
    some (r.ret, record (called node) { sent = node.sent ++ (addr, r.wire) ∷ [] })
