-- ===== src/Dpeer/Threads.antt =====
-- dpeer.c: the main loop of a peer thread, and the threads that lead to it.

use p2p_vn.Base.{
  ℕ, zero, suc, ◌+◌, ◌-◌, ◌/◌, ◌%◌, Bool, false, Option, none, some, ◌>>=◌, List, [], ◌∷◌, ◌++◌, ℤ,
  is_neg, is_nonzero, ◌==◌, if◌then◌else◌,
}
use p2p_vn.Packet.{Ipv4Host, PktEdge}
use p2p_vn.Pcon.{Timeval, us}
use p2p_vn.Dpg.{Peer, dpg_insert, dpg_remove, dpg_send_linkstate}
use p2p_vn.Vnet.{vnet_get_mac}
use p2p_vn.Routing.State.{update}
use p2p_vn.Routing.Query.{rt_get_edges}
use p2p_vn.Routing.Update.{rt_dhost_add_link, rt_dhost_remove}
use p2p_vn.Dpeer.Send.{dp_send_linkstate}
use p2p_vn.Dpeer.World.{
  World, Node, DirectPeer, Session, failed, idle, readable, other, called, tv_ms,
}
use p2p_vn.Dpeer.Packets.{Handled, dp_recv_packet, dp_send_probe_req}

-- DP_TIMEOUT_PROBE, in microseconds
abbrev pub dp_timeout_probe : ℕ
dp_timeout_probe = 1000000

-- DP_TIMEOUT_LINK_MULT
abbrev pub dp_timeout_link_mult : ℕ
dp_timeout_link_mult = 10

-- The variables of the loop in `dp_th`. Of `wtime`, in microseconds, only positive values count.
pub record Watch : Type 0 where
  pub wtime : ℕ
  pub probe_ct : ℕ
  pub before : Timeval
  pub after : Timeval

-- `wtime` is 0, and `before` and `after` are not set.
abbrev pub first_watch : Watch
first_watch =
    let unset : Timeval = record { tv_sec = 0; tv_usec = 0 } in
    record { wtime = 0; probe_ct = 0; before = unset; after = unset }

module _ (w : World) where
  -- The entry of the peer in the group.
  unfoldable pub entry_of : Session w → Option Peer
  entry_of s = do
    host ← s.node.rd.ip_at s.dp.remote_host
    some (record { dp = s.dp.remote_host; mac = host.mac })

  -- `me` of `dp_send_linkstate`
  unfoldable pub my_host : Node → Ipv4Host
  unfolding vnet_get_mac
  my_host node = record node.dpg.l_addr { mac = vnet_get_mac node.vnet }

  -- `dp_send_linkstate` to the peer whose `remote_host` is `addr`.
  unfoldable pub linkstate_to : Node → (addr : ℕ) → List PktEdge → Option (ℤ × Node)
  unfolding my_host
  linkstate_to node addr edges = do
    r ← dp_send_linkstate w.order (w.net node.calls) (my_host node) edges
    some (r.ret, record (called node) { sent = node.sent ++ (addr, r.wire) ∷ [] })

  unfoldable pub linkstate_each : List (Peer × List PktEdge) → Node → Option Node
  unfolding linkstate_to
  linkstate_each [] node = some node
  linkstate_each ((p, edges) ∷ ps) node = do
    (ret, node') ← linkstate_to node p.dp edges
    linkstate_each ps node'

  -- `dpg_send_linkstate` with its calls of `dp_send_linkstate`.
  unfoldable pub send_link_states : Node → Option Node
  unfolding linkstate_each
  send_link_states node =
      let (ret, ps) = dpg_send_linkstate (w.lock node.calls) node.dpg (rt_get_edges node.rd) in
      linkstate_each ps (called node)

  -- `dp_send_peer_linkstate`; `rt_get_edges` does not fail.
  unfoldable pub dp_send_peer_linkstate : Session w → Handled w
  unfolding linkstate_to
  dp_send_peer_linkstate s = do
    (ret, node) ← linkstate_to s.node s.dp.remote_host (rt_get_edges s.node.rd)
    some (ret, record s { node = node })

  -- `dp_cleanup_1`: the structure is freed.
  unfoldable pub dp_cleanup_1 : Session w → Node
  dp_cleanup_1 s = record s.node {
    rd = record s.node.rd { ip_at = update s.node.rd.ip_at s.dp.remote_host none };
  }

  -- `dpg_insert` and `dpg_remove` of the peer of the thread.
  unfoldable pub enter_group : Session w → Handled w
  unfolding entry_of
  enter_group s = do
    dp ← entry_of s
    (ret, dpg) ← dpg_insert w.qs (w.lock s.node.calls) (w.memory s.node.calls) s.node.dpg dp
    some (ret, record s { node = record (called s.node) { dpg = dpg } })

  unfoldable pub leave_group : Session w → Option (Session w)
  unfolding entry_of
  leave_group s = do
    dp ← entry_of s
    (ret, dpg) ← dpg_remove (w.lock s.node.calls) s.node.dpg dp
    some (record s { node = record (called s.node) { dpg = dpg } })

  -- `rt_dhost_add_link` with the first round trip time, which is a second, and `rt_dhost_remove`.
  unfoldable pub enter_routing : Session w → Handled w
  enter_routing s = do
    let dp : DirectPeer = record s.dp { rtt_us = 1000000 }
    (ret, rd) ←
        rt_dhost_add_link w.grants w.qs w.order s.node.rd dp.remote_host dp.rtt_us
          (tv_ms (w.now s.node.calls))
    some (ret, record s { node = record (called s.node) { rd = rd }; dp = dp })

  unfoldable pub leave_routing : Session w → Option (Session w)
  unfolding entry_of
  leave_routing s = do
    dp ← entry_of s
    (ret, rd) ← rt_dhost_remove w.grants w.qs w.order s.node.rd dp.mac
    some (record s { node = record s.node { rd = rd } })

  -- A turn of the loop goes on to the next one, or to the label `cleanup_ep`.
  pub data Next : Type 0 where
    go : Session w → Watch → Next
    stop : Session w → Next

  -- The head of the loop: a probe when the time is up, and the link state with every tenth one.
  unfoldable pub beat : Session w → Watch → Option Next
  unfolding send_link_states
  beat s l =
      let due = (do
        (ret, s') ← dp_send_probe_req w s
        let full = l.probe_ct % dp_timeout_link_mult == 0
        let sent = (do
          node ← if full then send_link_states s'.node else some s'.node
          let watch : Watch = record l {
            wtime = dp_timeout_probe;
            probe_ct = (if full then 0 else l.probe_ct) + 1;
            before = w.now node.calls;
          }
          some (go (record s' { node = called node }) watch))
        if is_neg ret then some (stop s') else sent) in
      if l.wtime == 0 then due else some (go s (record l { before = l.after }))

  -- The end of the loop: the time that the turn took is subtracted.
  unfoldable pub measure_turn : Session w → Watch → Next
  measure_turn s l =
      let after = w.now s.node.calls in
      go (record s { node = called s.node })
        (record l { wtime = l.wtime + us l.before - us after; after = after })

  -- The rest of the loop, from `epoll_wait` on.
  unfoldable pub attend : Session w → Watch → Option Next
  unfolding measure_turn
  attend s l =
      let s' : Session w = record s { node = called s.node } in
      elim (w.poll s.node.calls (l.wtime / 1000)) [
        | failed ↦ some (measure_turn s' l)
        | idle ↦ some (measure_turn s' l)
        | readable ↦ do
          (ret, s'') ← dp_recv_packet w s'
          some (if is_nonzero ret then stop s'' else measure_turn s'' l)
        | other ↦ some (stop s')
      ]

  abbrev pub after_beat : Next → Option Next
  after_beat (go s l) = attend s l
  after_beat (stop s) = some (stop s)

  -- One turn of the loop of `dp_th`.
  unfoldable pub turn : Session w → Watch → Option Next
  unfolding beat attend
  turn s l = beat s l >>= after_beat

  -- Where a thread is: in its loop, or ended, with the connection open or not.
  pub data Thread : Type 0 where
    serving : Session w → Watch → Thread
    ended : (closed : Bool) → Node → Thread

  -- The labels `cleanup_ep` and `cleanup_1` of `dp_th`; the connection is not closed.
  unfoldable pub end_loop : Session w → Option Thread
  unfolding leave_group leave_routing dp_cleanup_1
  end_loop s = do s₁ ← leave_group s; s₂ ← leave_routing s₁; some (ended false (dp_cleanup_1 s₂))

  -- So many turns of the loop.
  unfoldable pub run_turns : (turns : ℕ) → Session w → Watch → Option Thread
  unfolding turn end_loop
  run_turns zero s l = some (serving s l)
  run_turns (suc turns) s l = do
    next ← turn s l
    elim next [ go s' l' ↦ run_turns turns s' l' | stop s' ↦ end_loop s' ]

  -- `dp_th`, which runs for so many turns at most.
  unfoldable pub dp_th : (turns : ℕ) → Session w → Option Thread
  unfolding run_turns
  dp_th turns s =
      let s' : Session w = record s { node = called s.node } in
      let s'' : Session w = record s { node = called s'.node } in
      if is_neg (w.epoll s.node.calls)
      then end_loop s'
      else if is_neg (w.epoll s'.node.calls)
      then end_loop s''
      else run_turns turns s'' first_watch
