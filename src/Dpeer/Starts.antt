-- ===== src/Dpeer/Starts.antt =====
-- dpeer.c: the threads that lead to the loop of `dp_th`, and what they do to connect.
use p2p_vn.Base.{
  ℕ, ◌+◌, Bool, true, false, Option, some, ◌>>=◌, List, [], ◌∷◌, ◌++◌, ℤ, pos, neg, is_neg,
  is_nonzero, not, ◌==◌, if◌then◌else◌,
}
use p2p_vn.Packet.{pkt_ipv4_unpack, pl_join}
use p2p_vn.Packet.Layout.{read_host}
use p2p_vn.Vnet.{vnet_get_mac}
use p2p_vn.Routing.State.{Routing, update}
use p2p_vn.Dpeer.Send.{pt_join, pt_link_graph, dp_send_join}
use p2p_vn.Dpeer.Receive.{Header, recv_whole, dp_recv_header}
use p2p_vn.Dpeer.World.{World, Session, called}
use p2p_vn.Dpeer.Packets.{Handled, recv_or, set_mac, dp_read_pkt_link_graph, dp_send_probe_req}
use p2p_vn.Dpeer.Threads.{
  Thread, ended, dp_cleanup_1, dp_send_peer_linkstate, enter_group, leave_group, enter_routing,
  leave_routing, dp_th,
}

abbrev is_empty : List ℤ → Bool
is_empty [] = true
is_empty (x ∷ xs) = false

-- What connecting comes to: the result, and the sockets and lists of addresses still held after it.
pub record Connecting : Type 0 where
  pub ret : ℤ
  pub sockets : List ℤ
  pub lists : ℕ

-- `connect_host`, with the results of `getaddrinfo`, `socket` and `connect`, and whether the address
-- that was found has the size of an IPv4 address.
unfoldable pub connect_host : (getaddrinfo socket connect : ℤ) (fits : Bool) → Connecting
connect_host getaddrinfo socket connect fits =
    if is_nonzero getaddrinfo
    then record { ret = neg 1; sockets = []; lists = 0 }
    else if is_neg socket
    then record { ret = neg 2; sockets = []; lists = 0 }
    else if is_neg connect
    then record { ret = neg 3; sockets = []; lists = 0 }
    else if fits
    then record { ret = socket; sockets = socket ∷ []; lists = 0 }
    else record { ret = neg 4; sockets = []; lists = 0 }

-- `connect_inet`
unfoldable pub connect_inet : (socket connect : ℤ) → Connecting
connect_inet socket connect =
    if is_neg socket
    then record { ret = neg 1; sockets = []; lists = 0 }
    else if is_neg connect
    then record { ret = neg 2; sockets = socket ∷ []; lists = 0 }
    else record { ret = socket; sockets = socket ∷ []; lists = 0 }

-- `dp_spawn_th`
unfoldable pub dp_spawn_th : (attr_init detach create : ℤ) → ℤ
dp_spawn_th attr_init detach create =
    if is_neg attr_init then neg 1 else if is_neg detach then neg 2 else create

-- What making a peer comes to: the result, and the blocks of memory that the call leaves allocated.
pub record Making : Type 0 where
  pub ret : ℤ
  pub blocks : ℕ

-- `dp_create_1`, with the answer of `malloc` and the result of `pthread_mutex_init`.
unfoldable pub dp_create_1 : (granted : Bool) (lock : ℤ) → Making
dp_create_1 granted lock =
    if not granted
    then record { ret = neg 1; blocks = 0 }
    else if is_neg lock
    then record { ret = neg 2; blocks = 0 }
    else record { ret = pos 0; blocks = 1 }

-- The end of `dp_create_initial` and `dp_create_linkstate`: the block for the thread, and the thread.
unfoldable pub create_with : (no_block no_thread : ℤ) (granted : Bool) (spawn : ℤ) → Making → Making
create_with no_block no_thread granted spawn dp =
    if is_neg dp.ret
    then record { ret = neg 1; blocks = dp.blocks }
    else if not granted
    then record { ret = no_block; blocks = 0 }
    else if is_neg spawn
    then record { ret = no_thread; blocks = 0 }
    else record { ret = pos 0; blocks = dp.blocks + 1 }

-- `dp_create_initial`, with the results of `dp_create_1`, `malloc` and `dp_spawn_th`.
unfoldable pub dp_create_initial : Making → (granted : Bool) (spawn : ℤ) → Making
unfolding create_with
dp_create_initial dp granted spawn = create_with (neg 3) (neg 4) granted spawn dp

-- `dp_create_linkstate`
unfoldable pub dp_create_linkstate : Making → (granted : Bool) (spawn : ℤ) → Making
unfolding create_with
dp_create_linkstate dp granted spawn = create_with (neg 1) (neg 2) granted spawn dp

-- `dp_create_incoming`, which allocates the block for the thread first.
unfoldable pub dp_create_incoming : (granted : Bool) → Making → (spawn : ℤ) → Making
dp_create_incoming granted dp spawn =
    if not granted
    then record { ret = neg 1; blocks = 0 }
    else if is_neg dp.ret
    then record { ret = neg 1; blocks = dp.blocks }
    else if is_neg spawn
    then record { ret = neg 2; blocks = 0 }
    else record { ret = pos 0; blocks = dp.blocks + 1 }

module _ (w : World) (turns : ℕ) where
  -- The end of a thread that does not come to its loop: the connection is closed.
  unfoldable pub give_up : Session w → Option (Thread w)
  unfolding dp_cleanup_1
  give_up s = some (ended true (dp_cleanup_1 w s))

  -- A step that ends the thread, by `fail`, on any code but 0.
  abbrev pub on_success :
      Handled w → (fail next : Session w → Option (Thread w)) → Option (Thread w)
  on_success h fail next = h >>= (λ r. if is_nonzero r.0 then fail r.1 else next r.1)

  -- The labels `cleanup_dpg` and `cleanup_rt`.
  unfoldable pub undo_group : Session w → Option (Thread w)
  unfolding give_up leave_group
  undo_group s = leave_group w s >>= give_up

  unfoldable pub undo_routing : Session w → Option (Thread w)
  unfolding give_up leave_routing
  undo_routing s = leave_routing w s >>= give_up

  -- `memset(DP_MAC(dp)->addr, 0xFF, ETH_ALEN)`
  unfoldable pub junk_mac : Session w → Option (Session w)
  unfolding set_mac
  junk_mac s = set_mac w s (0xFF ∷ 0xFF ∷ 0xFF ∷ 0xFF ∷ 0xFF ∷ 0xFF ∷ [])

  -- `dp_send_join`
  unfoldable pub join_to : Session w → Handled w
  unfolding vnet_get_mac
  join_to s = do
    r ← dp_send_join w.order (w.net s.node.calls) (vnet_get_mac s.node.vnet) s.node.dpg.l_addr
    let sent = s.node.sent ++ (s.dp.remote_host, r.wire) ∷ []
    some (r.ret, record s { node = record (called s.node) { sent = sent } })

  -- `dp_recv_header`: the code, and the header that was read.
  unfoldable pub header_of :
      Session w → (Header → Session w → Option (Thread w)) → Option (Thread w)
  header_of s next = do
    (h, conn) ← dp_recv_header w.order w.receiver s.conn
    let s' : Session w = record s { conn = conn }
    if is_nonzero h.ret then give_up s' else next h s'

  -- The first exchange of `dp_th_initial` and `dp_th_linkstate`: a join packet goes out, and a link
  -- state packet has to be the first to come in.
  unfoldable pub ask_to_join : Session w → (ℕ → Session w → Option (Thread w)) → Option (Thread w)
  unfolding join_to header_of
  ask_to_join s next = do
    (ret, s₁) ← join_to s
    let answered =
        header_of s₁ (λ h s₂. if h.pkt_type == pt_link_graph then next h.pkt_len s₂ else give_up s₂)
    if is_neg ret then give_up s₁ else answered

  -- The label `cleanup_arg`, where there is no connection.
  unfoldable pub not_connected : Connecting → Session w → Option (Thread w)
  unfolding dp_cleanup_1
  not_connected c s = some (ended (is_empty c.sockets) (dp_cleanup_1 w s))

  -- `dp_th_initial` from its connection on, the address of which `connect_host` has filled in.
  unfoldable pub join_initial : Session w → Option (Thread w)
  unfolding ask_to_join enter_group enter_routing undo_group undo_routing
  join_initial s = do
    s₀ ← junk_mac s
    ask_to_join s₀ (λ pkt_len s₁.
        on_success (dp_read_pkt_link_graph w pkt_len true s₁) give_up (λ s₂.
          on_success (enter_group w s₂) give_up (λ s₃.
            on_success (enter_routing w s₃) undo_group (λ s₄.
              on_success (dp_send_probe_req w s₄) (λ s₅. leave_routing w s₅ >>= undo_group)
                (λ s₅. dp_th w turns s₅)))))

  -- `dp_th_initial`; `c` is what `connect_host` gave.
  unfoldable pub dp_th_initial : Connecting → Session w → Option (Thread w)
  unfolding not_connected join_initial
  dp_th_initial c s =
      let joined = join_initial s in if is_neg c.ret then not_connected c s else joined

  -- `dp_th_linkstate` from its connection on.
  unfoldable pub join_linkstate : Session w → Option (Thread w)
  unfolding ask_to_join enter_group enter_routing undo_group undo_routing
  join_linkstate s = ask_to_join s (λ pkt_len s₁. on_success (enter_routing w s₁) give_up (λ s₂.
      on_success (dp_read_pkt_link_graph w pkt_len true s₂) undo_routing (λ s₃.
        on_success (enter_group w s₃) undo_routing (λ s₄.
          on_success (dp_send_probe_req w s₄) (λ s₅. leave_group w s₅ >>= undo_routing)
            (λ s₅. dp_th w turns s₅)))))

  -- `dp_th_linkstate`; `c` is what `connect_inet` gave.
  unfoldable pub dp_th_linkstate : Connecting → Session w → Option (Thread w)
  unfolding not_connected join_linkstate
  dp_th_linkstate c s =
      let joined = join_linkstate s in if is_neg c.ret then not_connected c s else joined

  -- `dp_handle_join`
  unfoldable pub dp_handle_join : Session w → Handled w
  dp_handle_join s = recv_or w (recv_whole w.receiver pl_join s.conn) s (λ join s'. do
    (joining_host, rest) ← read_host join
    let rd : Routing = record s'.node.rd {
      ip_at = update s'.node.rd.ip_at s'.dp.remote_host (some (pkt_ipv4_unpack joining_host));
    }
    some (pos 0, record s' { node = record s'.node { rd = rd } }))

  -- `dp_th_incoming` once the peer has joined.
  unfoldable pub welcome : Session w → Option (Thread w)
  unfolding dp_send_peer_linkstate enter_group enter_routing undo_group
  welcome s = on_success (dp_send_peer_linkstate w s) undo_group (λ s₁.
      on_success (enter_group w s₁) give_up
        (λ s₂. on_success (enter_routing w s₂) undo_group (λ s₃. dp_th w turns s₃)))

  -- `dp_th_incoming` from its call of `dp_handle_join` on.
  unfoldable pub on_joined : Session w → Option (Thread w)
  unfolding welcome dp_handle_join
  on_joined s = do (ret, s') ← dp_handle_join s; if is_neg ret then give_up s' else welcome s'

  -- `dp_th_incoming`
  unfoldable pub dp_th_incoming : Session w → Option (Thread w)
  unfolding on_joined
  dp_th_incoming s = do
    s₀ ← junk_mac s
    header_of s₀ (λ h s₁.
        let joined = on_joined s₁ in
        if h.pkt_type == pt_join
        then if h.pkt_len == pl_join then joined else give_up s₁
        else give_up s₁)
