-- ===== src/Dpeer/Heads.antt =====
-- What the head of the loop of `dp_th` sends in a turn.
use p2p_vn.Base.{
  ℕ, ◌%◌, ◌≡◌, inl, inr, subst, Bool, false, Bool-cases, Option, none, some, Option-cases, ◌>>=◌, ℤ,
  is_neg, ◌==◌, if◌then◌else◌,
}
use p2p_vn.Dpeer.World.{World, Node, Session, called}
use p2p_vn.Dpeer.Packets.{dp_send_probe_req}
use p2p_vn.Dpeer.Threads.{
  Watch, Next, go, stop, beat, attend, after_beat, turn, send_link_states, dp_timeout_link_mult,
}

-- Whether a turn that starts with this watch sends a probe, and whether it sends the link state.
abbrev pub is_due : Watch → Bool
is_due l = l.wtime == 0

abbrev pub is_full : Watch → Bool
is_full l = if is_due l then l.probe_ct % dp_timeout_link_mult == 0 else false

abbrev pub one_if : Bool → ℕ
one_if b = if b then 1 else 0

module _ (w : World) where
  -- What is sent between two states of a thread: nothing, a probe by a call of `dp_send_probe_req`
  -- that does not fail, or such a probe and then the link states by a call of `send_link_states`.
  -- The time is asked for behind them.
  pub data Sends : (probes links : ℕ) → (s t : Session w) → Type 0 where
    nothing : (s : Session w) → Sends 0 0 s s
    probe :
        (s t : Session w) (ret : ℤ)
        → dp_send_probe_req w s ≡ some (ret, t)
        → is_neg ret ≡ false
        → Sends 1 0 s (record t { node = called t.node })
    probe_and_links :
        (s t : Session w) (ret : ℤ) (node : Node)
        → dp_send_probe_req w s ≡ some (ret, t)
        → is_neg ret ≡ false
        → send_link_states w t.node ≡ some node
        → Sends 1 1 s (record t { node = called node })

  -- A step that goes on has sent what the watch calls for.
  abbrev SendsDue : Session w → Watch → Option (Next w) → Type 0
  SendsDue s l none = Unit {0}
  SendsDue s l (some (stop t)) = Unit {0}
  SendsDue s l (some (go t m)) = Sends (one_if (is_due l)) (one_if (is_full l)) s t

  beat-SendsDue : (s : Session w) (l : Watch) → SendsDue s l (beat w s l)
  unfolding beat
  beat-SendsDue s l = elim (Bool-cases (l.wtime == 0)) [
    | inr early ↦ rw (early, beat) (rw early (nothing s))
    | inl due ↦ elim (Option-cases (dp_send_probe_req w s)) [
      | inl e ↦ rw (due, e, beat, ◌>>=◌) tt
      | inr ((ret, t), e) ↦ elim (Bool-cases (is_neg ret)) [
        | inl fail ↦ rw (due, e, fail, beat, ◌>>=◌) tt
        | inr ok ↦ elim (Bool-cases (l.probe_ct % dp_timeout_link_mult == 0)) [
          | inr part ↦ rw (due, e, ok, part, beat, ◌>>=◌) (rw (due, part) (probe s t ret e ok))
          | inl full ↦ elim (Option-cases (send_link_states w t.node)) [
            | inl f ↦ rw (due, e, ok, full, f, beat, ◌>>=◌) tt
            | inr (node, f) ↦
                rw (due, e, ok, full, f, beat, ◌>>=◌)
                  (rw (due, full) (probe_and_links s t ret node e ok f))
          ]
        ]
      ]
    ]
  ]

  -- The head of a turn that goes on: the state and the watch behind it, and what was sent.
  abbrev pub Head : Session w → Watch → (s' : Session w) (l' : Watch) → Type 0
  Head s l s' l' =
      (t : Session w) × (m : Watch) × (beat w s l ≡ some (go t m))
      × (attend w t m ≡ some (go s' l'))
      × Sends (one_if (is_due l)) (one_if (is_full l)) s t

  after_beat-Head :
      (s s' : Session w) (l l' : Watch) (n : Next w)
      → beat w s l ≡ some n
      → SendsDue s l (some n)
      → after_beat w n ≡ some (go s' l')
      → Head s l s' l'
  after_beat-Head s s' l l' (go t m) e sends run = (t, m, e, run, sends)
  after_beat-Head s s' l l' (stop t) e sends run = cc

  pub turn-Head : (s s' : Session w) (l l' : Watch) → turn w s l ≡ some (go s' l') → Head s l s' l'
  unfolding turn
  turn-Head s s' l l' run = elim (Option-cases (beat w s l)) [
    | inl e ↦ let bad : none ≡ some (go s' l') = rw (e, turn, ◌>>=◌) at run in cc
    | inr (n, e) ↦
        after_beat-Head s s' l l' n e (subst (SendsDue s l) e (beat-SendsDue s l))
          (rw (e, turn, ◌>>=◌) at run)
  ]
