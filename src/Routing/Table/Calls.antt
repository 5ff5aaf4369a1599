-- ===== src/Routing/Table/Calls.antt =====
-- routing.c: `rt_dhost_add_link` and `rt_dhost_remove` on memory in order, where every allocation is
-- granted.
use p2p_vn.Base.{
  ℕ, suc, ◌+◌, ◌^◌, ◌<◌, ◌≡◌, ◌≢◌, inl, inr, refl, sym, ◌∙◌, arith, Bool, true, Bool-cases, Option,
  some, ℤ, pos, neg,
}
use p2p_vn.Packet.{Mac, Ipv4Host, ByteOrder}
use p2p_vn.Sorting.{Qsort}
use p2p_vn.Sorting.Keys.{All-get}
use p2p_vn.DArray.{live}
use p2p_vn.Routing.State.{Routing, RtHost, ht_direct, ht_normal, update, mac_of, ◌>>=◌}
use p2p_vn.Routing.Update.{
  same_mac, is_direct, with_cache, direct_host, link_up, put_link, rt_dhost_add_link, unlink_direct,
  rt_dhost_remove,
}
use p2p_vn.Routing.Table.{
  Alive, Leads, Fit, Fit-less, Step, Step-trans, Step-self, Alive-mac, update_self, update_ne,
}
use p2p_vn.Routing.Table.Lookup.{find_host-cases, find_link-cases}
use p2p_vn.Routing.Table.Added.{host_add-Adds}
use p2p_vn.Routing.Table.Linked.{link_add-Step}
use p2p_vn.Routing.Table.Scanned.{same_mac_ne}
use p2p_vn.Routing.Table.Direct.{redirected, redirected-Step, redirected-links, ihost_to_dhost-Step}
use p2p_vn.Routing.Table.Relinked.{renewed-Step, link_remove-Step, live_lt}

-- The address of a peer, which the caller keeps allocated: no host's copy stands there.
pub record IsPeerIp (rd : Routing) (at : ℕ) (ip : Ipv4Host) : Type 0 where
  pub stands : rd.ip_at at ≡ some ip
  pub below : at < rd.calls
  pub no_copy : (p : ℕ) (h : RtHost) → rd.host_at p ≡ some h → h.type ≡ ht_normal → h.host ≢ at

-- A call that returns a code other than 0 with memory in order, or comes to `update_cache` with memory in order.
-- Either way every host that was known still is, with its address.
pub data Handled (grants : ℕ → Bool) (qs : Qsort) (order : ByteOrder) (more : ℕ) (rd : Routing)
    : Option (ℤ × Routing) → Type 0 where
  returned :
      (code : ℤ) (rd' : Routing)
      → code ≢ pos 0
      → Step more rd rd'
      → Handled grants qs order more rd (some (code, rd'))
  cached :
      (failed : ℤ) (rd' : Routing)
      → Step more rd rd'
      → Handled grants qs order more rd (with_cache grants qs order failed rd')

module _ (grants : ℕ → Bool) (qs : Qsort) (order : ByteOrder) (given : (n : ℕ) → grants n ≡ true)
    (rd : Routing) (more : ℕ) (f : Fit (suc (suc more)) rd) where
  unchanged : Step more rd rd
  unchanged = Step-self more rd (Fit-less more rd (Fit-less (suc more) rd f))

  at_most : rd.hosts.ct < 2 ^ 60
  at_most = let lt = f.room.hosts.ct_lt in omega arith

  direct_host-Step :
      (at : ℕ) (ip : Ipv4Host)
      → IsPeerIp rd at ip
      → (rd' : Routing) × (h : ℕ) × (direct_host grants qs order rd at ip.mac
          ≡ some (pos 0, rd', h))
        × Step (suc more) rd rd'
        × Alive rd' h
        × (mac_of rd' h ≡ ip.mac)
  unfolding direct_host
  direct_host-Step at ip v = elim (find_host-cases rd ip.mac f.table at_most) [
    | inr (e, fresh) ↦
        let (rd', run, step, alive, mac) =
          host_add-Adds grants qs given rd ht_direct (suc more) at ip (λ z. cc) f v.stands v.below
            v.no_copy fresh in
        (rd', rd.calls, rw (e, direct_host) run, step, alive, mac)
    | inl (i, e, w) ↦
        let (rd', run, step) =
          ihost_to_dhost-Step (suc more) rd w.at at ip (Fit-less (suc more) rd f) w.alive v.stands
            (sym w.same) v.below v.no_copy in
        (
          rd',
          w.at,
          rw (e, w.reads, run, direct_host, ◌>>=◌) refl,
          step,
          step.keeps.alive w.at w.alive,
          step.keeps.mac w.at w.alive ∙ w.same,
        )
  ]

  link_up-Handled :
      (sh at rtt_us now_ms : ℕ) (ip : Ipv4Host)
      → Alive rd sh
      → mac_of rd sh ≢ ip.mac
      → rtt_us < 2 ^ 32
      → IsPeerIp rd at ip
      → Handled grants qs order more rd (link_up grants qs order rd sh at ip.mac rtt_us now_ms)
  unfolding link_up
  link_up-Handled sh at rtt_us now_ms ip a other narrow v =
      let (rd₁, h, run, step, alive, mac) = direct_host-Step at ip v in
      let (rd₂, added, last) =
        link_add-Step grants qs given rd₁ more sh h rtt_us now_ms step.fit (step.keeps.alive sh a)
          alive (λ q. other (sym (step.keeps.mac sh a) ∙ sym q ∙ mac)) narrow in
      rw (run, added, link_up, ◌>>=◌)
        (cached (neg 5) rd₂ (Step-trans (suc more) more rd rd₁ rd₂ step last))

  put_link-Handled :
      (sh at rtt_us now_ms : ℕ) (ip : Ipv4Host)
      → Alive rd sh
      → mac_of rd sh ≢ ip.mac
      → rtt_us < 2 ^ 32
      → IsPeerIp rd at ip
      → Handled grants qs order more rd (put_link grants qs order rd sh at ip.mac rtt_us now_ms)
  unfolding put_link
  put_link-Handled sh at rtt_us now_ms ip a other narrow v =
      let host = f.table.each sh a.host a.points in
      let small = f.room.links sh a.host a.points in
      let lt = small.ct_lt in
      elim (find_link-cases rd a.host.links ip.mac host.array (omega arith)) [
        | inr e ↦
            rw (a.points, e, put_link, ◌>>=◌)
              (link_up-Handled sh at rtt_us now_ms ip a other narrow v)
        | inl (stod, e, (link, reads, there)) ↦
            rw (a.points, e, there, put_link, ◌>>=◌)
              (cached (neg 5) _ (
                renewed-Step more rd sh stod rtt_us now_ms a.host link
                  (Fit-less more rd (Fit-less (suc more) rd f)) narrow a.points reads))
      ]

  pub rt_dhost_add_link-Handled :
      (at rtt_us now_ms : ℕ) (ip : Ipv4Host)
      → rtt_us < 2 ^ 32
      → IsPeerIp rd at ip
      → Handled grants qs order more rd (rt_dhost_add_link grants qs order rd at rtt_us now_ms)
  unfolding rt_dhost_add_link
  rt_dhost_add_link-Handled at rtt_us now_ms ip narrow v =
      elim (find_host-cases rd (mac_of rd rd.own) f.table at_most) [
        | inr (e, fresh) ↦ rw (e, rt_dhost_add_link) (returned (neg 1) rd (λ z. cc) unchanged)
        | inl (i, e, w) ↦ elim (Bool-cases (same_mac (mac_of rd w.at) ip.mac)) [
          | inl same ↦
              rw (e, w.reads, v.stands, same, rt_dhost_add_link, ◌>>=◌)
                (returned (neg 2) rd (λ z. cc) unchanged)
          | inr other ↦
              rw (e, w.reads, v.stands, other, rt_dhost_add_link, ◌>>=◌)
                (put_link-Handled w.at at rtt_us now_ms ip w.alive
                  (same_mac_ne (mac_of rd w.at) ip.mac other) narrow v)
        ]
      ]

  -- `rt_dhost_remove` of the host `h`, to which the link `l` of the host `sh` leads.
  unlink_direct-Handled :
      (sh l h : ℕ) (s : RtHost)
      → rd.host_at sh ≡ some s
      → l < s.links.ct
      → Alive rd h
      → Handled grants qs order more rd (unlink_direct grants qs order rd sh l h)
  unfolding unlink_direct
  unlink_direct-Handled sh l h s e lt a =
      let c : ℕ = rd.calls in
      let ips : ℕ → Option Ipv4Host = update rd.ip_at c (some a.ip) in
      let demoted : Routing = redirected rd h c (c + 1) a.host ht_normal ips in
      let old_ne : (q : ℕ) (k : RtHost) → rd.host_at q ≡ some k → k.host ≢ c =
        λ q k g t. let b = f.table.old q k g in absurd (omega arith) in
      let step : Step more rd demoted =
        redirected-Step rd h c (c + 1) a.host ht_normal ips
          (record {
            stands = a.points;
            ip = a.ip;
            points = update_self rd.ip_at c (some a.ip);
            address = sym (Alive-mac rd h a);
            later = omega arith;
            below = omega arith;
            same = λ q k g ne. update_ne rd.ip_at c k.host (some a.ip) (old_ne q k g);
            copy = λ t q k g ne. old_ne q k g;
            no_copy = λ q k g ne t. old_ne q k g;
          })
          more unchanged.fit in
      let (s', there, links) =
        redirected-links rd h c (c + 1) sh a.host s ht_normal ips a.points e in
      let (rd', run, last) = link_remove-Step more demoted sh l s' step.fit there (rw links lt) in
      elim (Bool-cases (is_direct a.host.type)) [
        | inl direct ↦
            rw (a.points, a.stands, run, direct, given c, unlink_direct, ◌>>=◌)
              (cached (neg 2) rd' (Step-trans more more rd demoted rd' step last))
        | inr other ↦
            rw (a.points, a.stands, run, other, unlink_direct, ◌>>=◌)
              (returned (neg 5) rd (λ z. cc) unchanged)
      ]

  pub rt_dhost_remove-Handled :
      (dmac : Mac) → Handled grants qs order more rd (rt_dhost_remove grants qs order rd dmac)
  unfolding rt_dhost_remove
  rt_dhost_remove-Handled dmac = elim (find_host-cases rd (mac_of rd rd.own) f.table at_most) [
    | inr (e, fresh) ↦ rw (e, rt_dhost_remove) (returned (neg 10) rd (λ z. cc) unchanged)
    | inl (i, e, w) ↦
        let s : RtHost = w.alive.host in
        let host = f.table.each w.at s w.alive.points in
        let small = f.room.links w.at s w.alive.points in
        let lt = small.ct_lt in
        elim (find_link-cases rd s.links dmac host.array (omega arith)) [
          | inr g ↦
              rw (e, w.reads, w.alive.points, g, rt_dhost_remove, ◌>>=◌)
                (returned (pos 1) rd (λ z. cc) unchanged)
          | inl (l, g, (link, reads, there)) ↦
              rw (e, w.reads, w.alive.points, g, there, rt_dhost_remove, ◌>>=◌)
                (unlink_direct-Handled w.at l link.dst s w.alive.points
                  (live_lt s.links l link host.array reads)
                  (All-get (Leads rd w.at) (live s.links) l link reads host.dsts).alive)
        ]
  ]
