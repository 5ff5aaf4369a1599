-- ===== src/Dpeer/Ended.antt =====
-- What the threads of a peer leave when they end.
use p2p_vn.Base.{
  bind-Each, if-Each, then-Each, ℕ, ◌≡◌, ◌⊎◌, inl, inr, refl, subst, Bool, true, Option, none, some,
  [], ◌∷◌, is_neg, is_nonzero, ◌==◌,
}
use p2p_vn.Packet.{pl_join}
use p2p_vn.Packet.Layout.{read_host}
use p2p_vn.Vnet.{vnet_get_mac}
use p2p_vn.Routing.Query.{rt_get_edges}
use p2p_vn.Dpeer.Send.{pt_join, pt_link_graph, dp_send_join}
use p2p_vn.Dpeer.Receive.{Header, recv_whole, dp_recv_header}
use p2p_vn.Dpeer.World.{World, Node, Session}
use p2p_vn.Dpeer.Packets.{Handled, dp_send_probe_req, dp_read_pkt_link_graph}
use p2p_vn.Dpeer.Threads.{
  Thread, ended, linkstate_to, dp_send_peer_linkstate, enter_group, leave_group, enter_routing,
  leave_routing,
}
use p2p_vn.Dpeer.Starts.{
  Connecting, give_up, on_success, undo_group, undo_routing, junk_mac, join_to, header_of,
  ask_to_join, not_connected, join_initial, dp_th_initial, join_linkstate, dp_th_linkstate,
  dp_handle_join, welcome, on_joined, dp_th_incoming,
}
use p2p_vn.Dpeer.Owner.{
  Owned, recv_or-Owned, set_mac-Gives, dp_send_probe_req-Owned, dp_read_pkt_link_graph-Owned,
}
use p2p_vn.Dpeer.Freed.{
  Freed, Ends, dp_cleanup_1-freed, leave_group-Gives, leave_routing-Gives, enter_group-Owned,
  enter_routing-Owned, dp_th-Freed,
}

module _ (w : World) (turns owner : ℕ) where
  give_up-Freed : Ends w owner (give_up w turns)
  unfolding give_up
  give_up-Freed s o = record { each = dp_cleanup_1-freed w owner s o }

  undo_group-Freed : Ends w owner (undo_group w turns)
  unfolding undo_group
  undo_group-Freed s o = then-Each (leave_group w s) (leave_group-Gives w owner s o) give_up-Freed

  undo_routing-Freed : Ends w owner (undo_routing w turns)
  unfolding undo_routing
  undo_routing-Freed s o =
      then-Each (leave_routing w s) (leave_routing-Gives w owner s o) give_up-Freed

  on_success-Freed :
      (h : Handled w) {fail next : Session w → Option (Thread w)}
      → Owned w owner h
      → Ends w owner fail
      → Ends w owner next
      → Freed w owner (on_success w turns h fail next)
  on_success-Freed h owned f n =
      then-Each h owned λ r o. if-Each (is_nonzero r.0) (f r.1 o) (n r.1 o)

  header_of-Freed :
      (s : Session w) {next : Header → Session w → Option (Thread w)}
      → s.dp.remote_host ≡ owner
      → ((h : Header) → Ends w owner (next h))
      → Freed w owner (header_of w turns s next)
  unfolding header_of
  header_of-Freed s {next} o n = bind-Each (dp_recv_header w.order w.receiver s.conn) λ r.
      let s' : Session w = record s { conn = r.1 } in
      if-Each (is_nonzero r.0.ret) (give_up-Freed s' o) (n r.0 s' o)

  join_to-Owned : (s : Session w) → s.dp.remote_host ≡ owner → Owned w owner (join_to w turns s)
  unfolding join_to
  join_to-Owned s o =
      bind-Each
        (dp_send_join w.order (w.net s.node.calls) (vnet_get_mac s.node.vnet) s.node.dpg.l_addr)
        λ r. record { each = o }

  ask_to_join-Freed :
      (s : Session w) {next : ℕ → Session w → Option (Thread w)}
      → s.dp.remote_host ≡ owner
      → ((len : ℕ) → Ends w owner (next len))
      → Freed w owner (ask_to_join w turns s next)
  unfolding ask_to_join
  ask_to_join-Freed s {next} o n = then-Each (join_to w turns s) (join_to-Owned s o) λ r o₁.
      if-Each (is_neg r.0) (give_up-Freed r.1 o₁) (
        header_of-Freed r.1 o₁ λ h s₂ o₂.
          if-Each (h.pkt_type == pt_link_graph) (n h.pkt_len s₂ o₂) (give_up-Freed s₂ o₂))

  join_initial-Freed : Ends w owner (join_initial w turns)
  unfolding join_initial junk_mac
  join_initial-Freed s o =
      then-Each (junk_mac w turns s)
        (set_mac-Gives w owner s (0xFF ∷ 0xFF ∷ 0xFF ∷ 0xFF ∷ 0xFF ∷ 0xFF ∷ []) o)
        λ s₀ o₀. ask_to_join-Freed s₀ o₀ λ len s₁ o₁.
          on_success-Freed (dp_read_pkt_link_graph w len true s₁)
            (dp_read_pkt_link_graph-Owned w owner len true s₁ o₁) give_up-Freed
            λ s₂ o₂.
              on_success-Freed (enter_group w s₂) (enter_group-Owned w owner s₂ o₂) give_up-Freed
                λ s₃ o₃.
                  on_success-Freed (enter_routing w s₃) (enter_routing-Owned w owner s₃ o₃)
                    undo_group-Freed
                    λ s₄ o₄.
                      on_success-Freed (dp_send_probe_req w s₄)
                        (dp_send_probe_req-Owned w owner s₄ o₄)
                        (λ s₅ o₅.
                          then-Each (leave_routing w s₅) (leave_routing-Gives w owner s₅ o₅)
                            undo_group-Freed)
                        (dp_th-Freed w owner turns)

  join_linkstate-Freed : Ends w owner (join_linkstate w turns)
  unfolding join_linkstate
  join_linkstate-Freed s o = ask_to_join-Freed s o λ len s₁ o₁.
      on_success-Freed (enter_routing w s₁) (enter_routing-Owned w owner s₁ o₁) give_up-Freed
        λ s₂ o₂.
          on_success-Freed (dp_read_pkt_link_graph w len true s₂)
            (dp_read_pkt_link_graph-Owned w owner len true s₂ o₂) undo_routing-Freed
            λ s₃ o₃.
              on_success-Freed (enter_group w s₃) (enter_group-Owned w owner s₃ o₃)
                undo_routing-Freed
                λ s₄ o₄.
                  on_success-Freed (dp_send_probe_req w s₄) (dp_send_probe_req-Owned w owner s₄ o₄)
                    (λ s₅ o₅.
                      then-Each (leave_group w s₅) (leave_group-Gives w owner s₅ o₅)
                        undo_routing-Freed)
                    (dp_th-Freed w owner turns)

  dp_handle_join-Owned :
      (s : Session w) → s.dp.remote_host ≡ owner → Owned w owner (dp_handle_join w turns s)
  unfolding dp_handle_join
  dp_handle_join-Owned s o =
      recv_or-Owned w owner (recv_whole w.receiver pl_join s.conn) s o
        λ bs s' o'. bind-Each (read_host bs) λ r. record { each = o' }

  dp_send_peer_linkstate-Owned :
      (s : Session w) → s.dp.remote_host ≡ owner → Owned w owner (dp_send_peer_linkstate w s)
  unfolding dp_send_peer_linkstate
  dp_send_peer_linkstate-Owned s o =
      bind-Each (linkstate_to w s.node s.dp.remote_host (rt_get_edges s.node.rd))
        λ r. record { each = o }

  welcome-Freed : Ends w owner (welcome w turns)
  unfolding welcome
  welcome-Freed s o =
      on_success-Freed (dp_send_peer_linkstate w s) (dp_send_peer_linkstate-Owned s o)
        undo_group-Freed
        λ s₁ o₁.
          on_success-Freed (enter_group w s₁) (enter_group-Owned w owner s₁ o₁) give_up-Freed
            λ s₂ o₂.
              on_success-Freed (enter_routing w s₂) (enter_routing-Owned w owner s₂ o₂)
                undo_group-Freed (dp_th-Freed w owner turns)

  on_joined-Freed : Ends w owner (on_joined w turns)
  unfolding on_joined
  on_joined-Freed s o =
      then-Each (dp_handle_join w turns s) (dp_handle_join-Owned s o)
        λ r o'. if-Each (is_neg r.0) (give_up-Freed r.1 o') (welcome-Freed r.1 o')

  dp_th_incoming-Freed : Ends w owner (dp_th_incoming w turns)
  unfolding dp_th_incoming junk_mac
  dp_th_incoming-Freed s o =
      then-Each (junk_mac w turns s)
        (set_mac-Gives w owner s (0xFF ∷ 0xFF ∷ 0xFF ∷ 0xFF ∷ 0xFF ∷ 0xFF ∷ []) o)
        λ s₀ o₀. header_of-Freed s₀ o₀ λ h s₁ o₁.
          if-Each (h.pkt_type == pt_join)
            (if-Each (h.pkt_len == pl_join) (on_joined-Freed s₁ o₁) (give_up-Freed s₁ o₁))
            (give_up-Freed s₁ o₁)

  not_connected-Freed : (c : Connecting) → Ends w owner (not_connected w turns c)
  unfolding not_connected
  not_connected-Freed c s o = record { each = dp_cleanup_1-freed w owner s o }

  dp_th_initial-Freed : (c : Connecting) → Ends w owner (dp_th_initial w turns c)
  unfolding dp_th_initial
  dp_th_initial-Freed c s o =
      if-Each (is_neg c.ret) (not_connected-Freed c s o) (join_initial-Freed s o)

  dp_th_linkstate-Freed : (c : Connecting) → Ends w owner (dp_th_linkstate w turns c)
  unfolding dp_th_linkstate
  dp_th_linkstate-Freed c s o =
      if-Each (is_neg c.ret) (not_connected-Freed c s o) (join_linkstate-Freed s o)

module _ (w : World) (turns : ℕ) where
  -- Whichever of the three threads of a peer it is, and wherever it fails, in its first exchange
  -- or in a later turn of its loop: when it has ended, the structure of its peer is freed.
  pub threads-freed :
      (c : Connecting) (s : Session w) (closed : Bool) (node : Node)
      → (dp_th_incoming w turns s ≡ some (ended closed node))
        ⊎ ((dp_th_initial w turns c s ≡ some (ended closed node))
            ⊎ (dp_th_linkstate w turns c s ≡ some (ended closed node)))
      → node.rd.ip_at s.dp.remote_host ≡ none
  threads-freed c s closed node run =
      let owner = s.dp.remote_host in
      elim run [
        | inl e ↦ (subst (λ t. Freed w owner t) e (dp_th_incoming-Freed w turns owner s refl)).each
        | inr (inl e) ↦
            (subst (λ t. Freed w owner t) e (dp_th_initial-Freed w turns owner c s refl)).each
        | inr (inr e) ↦
            (subst (λ t. Freed w owner t) e (dp_th_linkstate-Freed w turns owner c s refl)).each
      ]
