-- ===== src/Dpeer/Freed.antt =====
-- The loop of a peer's thread frees the structure of the peer when it ends.
use p2p_vn.Base.{
  Each, bind-Each, if-Each, then-Each, ℕ, zero, suc, ◌/◌, ◌%◌, ◌≡◌, inl, inr, refl, Bool, true,
  false, Option, none, some, ◌>>=◌, is_neg, is_nonzero, ◌==◌, ==_self, if◌then◌else◌,
}
use p2p_vn.Dpg.{dpg_insert, dpg_remove}
use p2p_vn.Routing.Update.{rt_dhost_add_link, rt_dhost_remove}
use p2p_vn.Dpeer.World.{World, Session, called, tv_ms}
use p2p_vn.Dpeer.Packets.{dp_recv_packet, dp_send_probe_req}
use p2p_vn.Dpeer.Threads.{
  Thread, serving, ended, Watch, Next, go, stop, beat, attend, after_beat, turn, measure_turn,
  first_watch, run_turns, end_loop, dp_th, send_link_states, dp_timeout_link_mult, entry_of,
  dp_cleanup_1, enter_group, leave_group, enter_routing, leave_routing,
}
use p2p_vn.Dpeer.Paced.{Polled-cases}
use p2p_vn.Dpeer.Owner.{Owns, Owned, Gives, dp_recv_packet-Owned, dp_send_probe_req-Owned}

module _ (w : World) (owner : ℕ) where
  -- The structure of the peer is freed where the thread has ended.
  abbrev FreedAfter : Thread w → Type 0
  FreedAfter (serving s l) = Unit {0}
  FreedAfter (ended closed node) = node.rd.ip_at owner ≡ none

  abbrev pub Freed : Option (Thread w) → Type 0
  Freed t = Each FreedAfter t

  abbrev pub Ends : (Session w → Option (Thread w)) → Type 0
  Ends k = (s : Session w) → Owns w owner s → Freed (k s)

  pub dp_cleanup_1-freed :
      (s : Session w) → Owns w owner s → (dp_cleanup_1 w s).rd.ip_at owner ≡ none
  unfolding dp_cleanup_1
  dp_cleanup_1-freed s o = rw (o, ==_self owner) refl

  pub leave_group-Gives : (s : Session w) → Owns w owner s → Gives w owner (leave_group w s)
  unfolding leave_group
  leave_group-Gives s o =
      bind-Each (entry_of w s)
        λ dp. bind-Each (dpg_remove (w.lock s.node.calls) s.node.dpg dp) λ r. record { each = o }

  pub leave_routing-Gives : (s : Session w) → Owns w owner s → Gives w owner (leave_routing w s)
  unfolding leave_routing
  leave_routing-Gives s o = bind-Each (entry_of w s) λ dp.
      bind-Each (rt_dhost_remove w.grants w.qs w.order s.node.rd dp.mac) λ r. record { each = o }

  pub enter_group-Owned : (s : Session w) → Owns w owner s → Owned w owner (enter_group w s)
  unfolding enter_group
  enter_group-Owned s o = bind-Each (entry_of w s) λ dp.
      bind-Each (dpg_insert w.qs (w.lock s.node.calls) (w.memory s.node.calls) s.node.dpg dp)
        λ r. record { each = o }

  pub enter_routing-Owned : (s : Session w) → Owns w owner s → Owned w owner (enter_routing w s)
  unfolding enter_routing
  enter_routing-Owned s o =
      bind-Each
        (rt_dhost_add_link w.grants w.qs w.order s.node.rd s.dp.remote_host 1000000
          (tv_ms (w.now s.node.calls)))
        λ r. record { each = o }

  -- The loop.
  abbrev OwnsNext : Next w → Type 0
  OwnsNext (go s l) = Owns w owner s
  OwnsNext (stop s) = Owns w owner s

  abbrev Goes : Option (Next w) → Type 0
  Goes n = Each OwnsNext n

  beat-Goes : (s : Session w) (l : Watch) → Owns w owner s → Goes (beat w s l)
  unfolding beat
  beat-Goes s l o =
      let full = l.probe_ct % dp_timeout_link_mult == 0 in
      if-Each (l.wtime == 0)
        (then-Each (dp_send_probe_req w s) (dp_send_probe_req-Owned w owner s o) λ r o'.
          if-Each {x = some (stop r.1)} (is_neg r.0) (record { each = o' })
            (bind-Each (if full then send_link_states w r.1.node else some r.1.node)
              λ node. record { each = o' }))
        (record { each = o })

  ended_or :
      {n : Next w} (s : Session w) (b : Bool)
      → Owns w owner s
      → Goes (some n)
      → Goes (some (if b then stop s else n))
  ended_or s true o h = record { each = o }
  ended_or s false o h = h

  measure_turn-Goes :
      (s : Session w) (l : Watch) → Owns w owner s → Goes (some (measure_turn w s l))
  unfolding measure_turn
  measure_turn-Goes s l o = record { each = o }

  attend-Goes : (s : Session w) (l : Watch) → Owns w owner s → Goes (attend w s l)
  unfolding attend
  attend-Goes s l o =
      let s' : Session w = record s { node = called s.node } in
      elim (Polled-cases (w.poll s.node.calls (l.wtime / 1000))) [
        | inl e ↦ rw (e, attend) (measure_turn-Goes s' l o)
        | inr (inl e) ↦ rw (e, attend) (measure_turn-Goes s' l o)
        | inr (inr (inl e)) ↦
            rw (e, attend)
              (then-Each (dp_recv_packet w s') (dp_recv_packet-Owned w owner s' o)
                λ r o'. ended_or r.1 (is_nonzero r.0) o' (measure_turn-Goes r.1 l o'))
        | inr (inr (inr e)) ↦ rw (e, attend) (record { each = o })
      ]

  after_beat-Goes : (n : Option (Next w)) → Goes n → Goes (n >>= after_beat w)
  after_beat-Goes none g = record { each = tt }
  after_beat-Goes (some (go s l)) g = attend-Goes s l g.each
  after_beat-Goes (some (stop s)) g = record { each = g.each }

  turn-Goes : (s : Session w) (l : Watch) → Owns w owner s → Goes (turn w s l)
  unfolding turn
  turn-Goes s l o = after_beat-Goes (beat w s l) (beat-Goes s l o)

  end_loop-Freed : Ends (end_loop w)
  unfolding end_loop
  end_loop-Freed s o = then-Each (leave_group w s) (leave_group-Gives s o) λ s₁ o₁.
      then-Each (leave_routing w s₁) (leave_routing-Gives s₁ o₁)
        λ s₂ o₂. record { each = dp_cleanup_1-freed s₂ o₂ }

  Goes-Freed :
      (n : Option (Next w)) (turns : ℕ)
      → Goes n
      → ((s : Session w) (l : Watch) → Owns w owner s → Freed (run_turns w turns s l))
      → Freed (n >>= (λ next. elim next [ go s l ↦ run_turns w turns s l | stop s ↦ end_loop w s ]))
  Goes-Freed none turns g h = record { each = tt }
  Goes-Freed (some (go s l)) turns g h = h s l g.each
  Goes-Freed (some (stop s)) turns g h = end_loop-Freed s g.each

  run_turns-Freed :
      (turns : ℕ) (s : Session w) (l : Watch) → Owns w owner s → Freed (run_turns w turns s l)
  unfolding run_turns
  run_turns-Freed zero s l o = record { each = tt }
  run_turns-Freed (suc turns) s l o =
      Goes-Freed (turn w s l) turns (turn-Goes s l o) (run_turns-Freed turns)

  pub dp_th-Freed : (turns : ℕ) → Ends (dp_th w turns)
  unfolding dp_th
  dp_th-Freed turns s o =
      let s' : Session w = record s { node = called s.node } in
      let s'' : Session w = record s { node = called s'.node } in
      if-Each (is_neg (w.epoll s.node.calls)) (end_loop-Freed s' o) (
        if-Each (is_neg (w.epoll s'.node.calls)) (end_loop-Freed s'' o)
          (run_turns-Freed turns s'' first_watch o))
