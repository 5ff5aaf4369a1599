-- ===== src/Dpeer/Paced.antt =====
-- How often the loop of `dp_th` sends probes and link states.
use p2p_vn.Base.{
  Each, bind-Each, if-Each, ℕ, ◌+◌, ◌-◌, ◌*◌, ◌/◌, ◌%◌, ◌≤◌, ◌≡◌, ◌≢◌, ◌⊎◌, inl, inr, refl, subst,
  arith, Bool, true, false, Bool-cases, Option, none, some, ◌>>=◌, is_neg, is_nonzero, ◌==◌, ==→eq,
  ==→ne, if◌then◌else◌,
}
use p2p_vn.Pcon.{Timeval, us}
use p2p_vn.Dpeer.World.{World, Session, Polled, failed, idle, readable, other, called}
use p2p_vn.Dpeer.Packets.{dp_recv_packet, dp_send_probe_req}
use p2p_vn.Dpeer.Heads.{is_due, is_full, one_if, Sends, turn-Head}
use p2p_vn.Dpeer.Threads.{
  Watch, Next, go, stop, beat, attend, after_beat, turn, measure_turn, first_watch,
  send_link_states, dp_timeout_probe, dp_timeout_link_mult,
}

-- The microseconds from one time to another, none if the clock was set back.
abbrev pub span_us : (before after : Timeval) → ℕ
span_us before after = us after - us before

pub Polled-cases : (p : Polled) → (p ≡ failed) ⊎ ((p ≡ idle) ⊎ ((p ≡ readable) ⊎ (p ≡ other)))
Polled-cases failed = inl refl
Polled-cases idle = inr (inl refl)
Polled-cases readable = inr (inr (inl refl))
Polled-cases other = inr (inr (inr refl))

module _ (w : World) where
  -- The turns that a thread has done, and the time that they took.
  pub data Turns : (elapsed : ℕ) → Session w → Watch → Type 0 where
    none_yet : (s : Session w) → Turns 0 s first_watch
    one_more :
        {elapsed : ℕ} {s s' : Session w} {l l' : Watch}
        → Turns elapsed s l
        → turn w s l ≡ some (go s' l')
        → Turns (elapsed + span_us l'.before l'.after) s' l'

  -- So many of these turns sent a probe, and so many the link states: the state and the watch behind
  -- the head of each turn, and what was sent between.
  pub data Sent
      : (probes links elapsed : ℕ) (s : Session w) (l : Watch) → Turns elapsed s l → Type 0 where
    nothing_yet : (s : Session w) → Sent 0 0 0 s first_watch (none_yet s)
    in_turn :
        {probes links now_probes now_links elapsed : ℕ} {s s' : Session w} {l l' : Watch}
        (turns : Turns elapsed s l) (run : turn w s l ≡ some (go s' l')) (t : Session w) (m : Watch)
        → Sent probes links elapsed s l turns
        → beat w s l ≡ some (go t m)
        → attend w t m ≡ some (go s' l')
        → Sends w now_probes now_links s t
        → Sent
            (probes + now_probes)
            (links + now_links)
            (elapsed + span_us l'.before l'.after)
            s'
            l'
            (one_more turns run)

  -- What holds of the watch where a step goes on.
  abbrev GoesOn : (Watch → Type 0) → Next w → Type 0
  GoesOn P (go s l) = P l
  GoesOn P (stop s) = Unit {0}

  abbrev Goes : (Watch → Type 0) → Option (Next w) → Type 0
  Goes P n = Each (GoesOn P) n

  module _ {P : Watch → Type 0} where
    stop_or :
        {n : Next w} (s : Session w) (b : Bool)
        → Goes P (some n)
        → Goes P (some (if b then stop s else n))
    stop_or s true h = record { each = tt }
    stop_or s false h = h

    attend-after :
        {Q : Watch → Type 0} (m : Option (Next w))
        → Goes Q m
        → ((s : Session w) (l : Watch) → Q l → Goes P (attend w s l))
        → Goes P (m >>= after_beat w)
    attend-after none q h = record { each = tt }
    attend-after (some (go s l)) q h = h s l q.each
    attend-after (some (stop s)) q h = record { each = tt }

  abbrev next_count : Watch → ℕ
  next_count l = if is_due l then (if is_full l then 0 else l.probe_ct) + 1 else l.probe_ct

  abbrev time_left : Watch → ℕ
  time_left l = if is_due l then dp_timeout_probe else l.wtime

  -- The watch after the head of the loop.
  record IsBeaten (l l' : Watch) : Type 0 where
    count : l'.probe_ct ≡ next_count l
    left : l'.wtime ≡ time_left l

  -- The watch after a turn.
  record IsPaced (l l' : Watch) : Type 0 where
    count : l'.probe_ct ≡ next_count l
    left : l'.wtime ≡ time_left l + us l'.before - us l'.after

  beat-Goes : (s : Session w) (l : Watch) → Goes (IsBeaten l) (beat w s l)
  unfolding beat
  beat-Goes s l = elim (Bool-cases (l.wtime == 0)) [
    | inl due ↦
        rw (due, beat)
          (bind-Each (dp_send_probe_req w s) λ r.
            if-Each {x = some (stop r.1)} (is_neg r.0) (record { each = tt })
              (bind-Each
                (if l.probe_ct % dp_timeout_link_mult == 0
                  then send_link_states w r.1.node
                  else some r.1.node)
                λ node. record { each = record { count = rw due refl; left = rw due refl } }))
    | inr early ↦
        rw (early, beat) (record { each = record { count = rw early refl; left = rw early refl } })
  ]

  measure_turn-Goes :
      (s : Session w) (l₀ l : Watch) → IsBeaten l₀ l → Goes (IsPaced l₀) (some (measure_turn w s l))
  unfolding measure_turn
  measure_turn-Goes s l₀ l b =
      let e = b.left in record { each = record { count = b.count; left = omega arith } }

  attend-Goes :
      (l₀ : Watch) (s : Session w) (l : Watch) → IsBeaten l₀ l → Goes (IsPaced l₀) (attend w s l)
  unfolding attend
  attend-Goes l₀ s l b =
      let s' : Session w = record s { node = called s.node } in
      elim (Polled-cases (w.poll s.node.calls (l.wtime / 1000))) [
        | inl e ↦ rw (e, attend) (measure_turn-Goes s' l₀ l b)
        | inr (inl e) ↦ rw (e, attend) (measure_turn-Goes s' l₀ l b)
        | inr (inr (inl e)) ↦
            rw (e, attend)
              (bind-Each (dp_recv_packet w s')
                λ r. stop_or r.1 (is_nonzero r.0) (measure_turn-Goes r.1 l₀ l b))
        | inr (inr (inr e)) ↦ rw (e, attend) (record { each = tt })
      ]

  turn-IsPaced : (s s' : Session w) (l l' : Watch) → turn w s l ≡ some (go s' l') → IsPaced l l'
  unfolding turn
  turn-IsPaced s s' l l' run =
      let each : Goes (IsPaced l) (turn w s l) =
        attend-after (beat w s l) (beat-Goes s l) (attend-Goes l) in
      (subst (λ n. Goes (IsPaced l) n) run each).each

  -- The counts of a thread and its watch.
  record Counts (probes links elapsed : ℕ) (l : Watch) : Type 0 where
    in_time : probes * dp_timeout_probe ≤ elapsed + l.wtime
    most : l.probe_ct ≤ dp_timeout_link_mult
    in_step :
        (probes + links + l.probe_ct ≡ 0)
        ⊎ ((10 * links + l.probe_ct ≡ probes + 10) × 1 ≤ l.probe_ct)

  -- A turn without a probe, one with a probe only, and one with the link state as well.
  waited-Counts :
      (p k e : ℕ) (l l' : Watch)
      → Counts p k e l
      → l'.probe_ct ≡ l.probe_ct
      → l'.wtime ≡ l.wtime + us l'.before - us l'.after
      → Counts (p + 0) (k + 0) (e + span_us l'.before l'.after) l'
  waited-Counts p k e l l' c count left =
      let i = c.in_time in
      let m = c.most in
      record {
        in_time = omega arith;
        most = omega arith;
        in_step = elim c.in_step [
          | inl zeros ↦ inl (omega arith)
          | inr (same, begun) ↦ inr (omega arith, omega arith)
        ];
      }

  probed-Counts :
      (p k e : ℕ) (l l' : Watch)
      → Counts p k e l
      → l.wtime ≡ 0
      → l.probe_ct % dp_timeout_link_mult ≢ 0
      → l'.probe_ct ≡ l.probe_ct + 1
      → l'.wtime ≡ dp_timeout_probe + us l'.before - us l'.after
      → Counts (p + 1) (k + 0) (e + span_us l'.before l'.after) l'
  probed-Counts p k e l l' c due part count left =
      let i = c.in_time in
      let m = c.most in
      record {
        in_time = omega arith;
        most = omega arith;
        in_step = elim c.in_step [
          | inl zeros ↦ absurd (part (omega arith))
          | inr (same, begun) ↦ inr (omega arith, omega arith)
        ];
      }

  shared-Counts :
      (p k e : ℕ) (l l' : Watch)
      → Counts p k e l
      → l.wtime ≡ 0
      → l.probe_ct % dp_timeout_link_mult ≡ 0
      → l'.probe_ct ≡ 1
      → l'.wtime ≡ dp_timeout_probe + us l'.before - us l'.after
      → Counts (p + 1) (k + 1) (e + span_us l'.before l'.after) l'
  shared-Counts p k e l l' c due full count left =
      let i = c.in_time in
      let m = c.most in
      record {
        in_time = omega arith;
        most = omega arith;
        in_step = elim c.in_step [
          | inl zeros ↦ inr (omega arith, omega arith)
          | inr (same, begun) ↦ inr (omega arith, omega arith)
        ];
      }

  one_more-Counts :
      (p k e : ℕ) (l l' : Watch)
      → Counts p k e l
      → IsPaced l l'
      → Counts (p + one_if (is_due l)) (k + one_if (is_full l)) (e + span_us l'.before l'.after) l'
  one_more-Counts p k e l l' c s = elim (Bool-cases (l.wtime == 0)) [
    | inr early ↦
        let left : l'.wtime ≡ l.wtime + us l'.before - us l'.after = rw early at (s.left) in
        let count : l'.probe_ct ≡ l.probe_ct = rw early at (s.count) in
        rw early (waited-Counts p k e l l' c count left)
    | inl due ↦
        let left : l'.wtime ≡ dp_timeout_probe + us l'.before - us l'.after = rw due at (s.left) in
        let none_left = ==→eq l.wtime 0 due in
        elim (Bool-cases (l.probe_ct % dp_timeout_link_mult == 0)) [
          | inr part ↦
              let count : l'.probe_ct ≡ l.probe_ct + 1 = rw (due, part) at (s.count) in
              rw (due, part)
                (probed-Counts p k e l l' c none_left
                  (==→ne (l.probe_ct % dp_timeout_link_mult) 0 part) count left)
          | inl full ↦
              let count : l'.probe_ct ≡ 1 = rw (due, full) at (s.count) in
              rw (due, full)
                (shared-Counts p k e l l' c none_left
                  (==→eq (l.probe_ct % dp_timeout_link_mult) 0 full) count left)
        ]
  ]

  -- The counts of the turns that a thread has done.
  abbrev Counted : {e : ℕ} {s : Session w} {l : Watch} → Turns e s l → Type 0
  Counted {e} {s} {l} t = (p : ℕ) × (k : ℕ) × Sent p k e s l t × Counts p k e l

  counts : {e : ℕ} {s : Session w} {l : Watch} (t : Turns e s l) → Counted t
  counts (none_yet s) = (
    0,
    0,
    nothing_yet s,
    record { in_time = omega arith; most = omega arith; in_step = inl refl },
  )
  counts (one_more {elapsed} {s} {s'} {l} {l'} turns run) =
      let (p, k, sent, c) = counts turns in
      let (t, m, head, rest, sends) = turn-Head w s s' l l' run in
      (
        p + one_if (is_due l),
        k + one_if (is_full l),
        in_turn turns run t m sent head rest sends,
        one_more-Counts p k elapsed l l' c (turn-IsPaced s s' l l' run),
      )

  -- After any turns of the loop of `dp_th` there are counts of those whose head sent a probe by a
  -- call of `dp_send_probe_req` that did not fail and of those whose head also sent the link
  -- states by a call of `send_link_states`, the heads of the others having sent nothing: the
  -- probes take no more than DP_TIMEOUT_PROBE each of the time that the turns took and the time
  -- that is left, and the link states were sent with the first probe and with every tenth after
  -- it.
  pub Turns-paced :
      {e : ℕ} {s : Session w} {l : Watch} (turns : Turns e s l)
      → (p : ℕ) × (k : ℕ) × Sent p k e s l turns
        × (p * dp_timeout_probe ≤ e + l.wtime)
        × (k ≡ (p + 9) / dp_timeout_link_mult)
  Turns-paced {e} {s} {l} turns =
      let (p, k, sent, c) = counts turns in
      let m = c.most in
      let rate : k ≡ (p + 9) / dp_timeout_link_mult = elim c.in_step [
        | inl zeros ↦ omega arith
        | inr (same, begun) ↦ omega arith
      ] in
      (p, k, sent, c.in_time, rate)
