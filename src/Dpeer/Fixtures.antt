-- ===== src/Dpeer/Fixtures.antt =====
-- A system on which the threads of a peer are run: a big-endian machine on which every call of the
-- system succeeds, and a connection that is the list of the bytes to come.
use p2p_vn.Base.{
  ℕ, ◌+◌, ◌<◌, ◌≤◌, ◌≡◌, refl, ap, ◌∙◌, arith, true, Option, none, some, List, [], ◌∷◌, ◌++◌, pos,
  ltb, if◌then◌else◌, length, take, drop,
}
use p2p_vn.Packet.{Ipv4Host, PktEdge, ByteOrder}
use p2p_vn.Sorting.Insertion.{insertion}
use p2p_vn.Pcon.{Timers, us}
use p2p_vn.Routing.State.{blank, update}
use p2p_vn.Dpeer.{Socket}
use p2p_vn.Dpeer.Receive.{Receiver}
use p2p_vn.Dpeer.World.{World, Node, Session, Polled}

abbrev pub big_endian : ByteOrder
big_endian = record {
  htonl = λ x. x;
  ntohl = λ x. x;
  htons = λ x. x;
  ntohs = λ x. x;
  htonl_lt = λ x h. h;
  ntohl_lt = λ x h. h;
  htons_lt = λ x h. h;
  ntohl-htonl = λ x h. refl;
  ntohs-htons = λ x h. refl;
}

abbrev two : ℕ → ℕ
two len = if ltb len 2 then len else 2

pub narrow-pos : (call len n : ℕ) → some (two len) ≡ some n → 0 < len → 0 < n
narrow-pos call len n e h = ground arith

pub narrow-le : (call len n : ℕ) → some (two len) ≡ some n → n ≤ len
narrow-le call len n e = ground arith

-- A connection that takes two bytes at a time.
abbrev pub narrow : Socket
narrow = record { send = λ call len. some (two len); send-pos = narrow-pos; send-le = narrow-le }

take-all : (xs ys : List ℕ) → take (length xs) (xs ++ ys) ≡ xs
take-all [] ys = refl
take-all (x ∷ xs) ys = ap (λ l. x ∷ l) (take-all xs ys)

drop-all : (xs ys : List ℕ) → drop (length xs) (xs ++ ys) ≡ ys
drop-all [] ys = refl
drop-all (x ∷ xs) ys = drop-all xs ys

abbrev receive : (len : ℕ) → List ℕ → Option (List ℕ) × List ℕ
receive len c = (some (take len c), drop len c)

pub receive_all :
    (c xs ys : List ℕ)
    → c ≡ xs ++ ys
    → (c' : List ℕ) × (receive (length xs) c ≡ (some xs, c')) × (c' ≡ ys)
receive_all c xs ys e =
    (ys, ap (receive (length xs)) e ∙ rw (take-all xs ys, drop-all xs ys) refl, refl)

abbrev pub bytes : Receiver
bytes = record { Conn = List ℕ; recv = receive; Delivers = λ c bs. c ≡ bs; recv_all = receive_all }

abbrev clock : Timers
clock = record {
  Span = ℕ × ℕ;
  timersub = λ a b. (us a, us b);
  span = λ t. (us t, 0);
  timercmp_gt = λ a b. ltb (a.1 + b.0) (a.0 + b.1);
  timercmp-timersub = λ now before out a b c. ground arith;
}

-- Every call takes a second, and nothing comes in.
abbrev pub world : World
world = record {
  order = big_endian;
  qs = insertion;
  timers = clock;
  receiver = bytes;
  grants = λ n. true;
  memory = λ n. true;
  now = λ n. record { tv_sec = n; tv_usec = 0 };
  rand = λ n. n;
  lock = λ n. pos 0;
  net = λ n. narrow;
  elapsed_us = λ after before. 0;
  epoll = λ n. pos 3;
  poll = λ n timeout. Polled.idle;
}

-- The peer's address, at the place 7.
abbrev pub peer : Ipv4Host
peer = record {
  mac = 2 ∷ 0 ∷ 0 ∷ 0 ∷ 0 ∷ 7 ∷ [];
  sin_family = 2;
  s_addr = 16777343;
  sin_port = 9004;
}

abbrev pub node : Node
node = record {
  rd = record blank { ip_at = update (λ p. none) 7 (some peer) };
  dpg = record { dps = record { ct = 0; mem = 8; items = [] }; l_addr = peer };
  pc = record { ipas = record { ct = 0; mem = 8; items = [] } };
  vnet = record { fd = pos 4; mac = 2 ∷ 0 ∷ 0 ∷ 0 ∷ 0 ∷ 9 ∷ [] };
  sent = [];
  spawned = [];
  calls = 0;
}

-- The thread of the peer, to whom the connection has these bytes to deliver.
abbrev pub session : List ℕ → Session world
session conn = record {
  node = node;
  dp = record {
    remote_host = 7;
    probe_seq = 0;
    probe_send_time = record { tv_sec = 0; tv_usec = 0 };
    rtt_us = 0;
  };
  conn = conn;
}

abbrev pub edge : PktEdge
edge = record {
  src = record { ip = 16777343; port = 9004; mac = 2 ∷ 0 ∷ 0 ∷ 0 ∷ 0 ∷ 7 ∷ [] };
  dst = record { ip = 16777344; port = 9005; mac = 2 ∷ 0 ∷ 0 ∷ 0 ∷ 0 ∷ 8 ∷ [] };
  rtt_us = 1000;
  ts_ms = 2000;
}
