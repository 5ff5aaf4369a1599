-- ===== src/Routing/Locked.antt =====
-- The read lock and the list when `rt_dhosts_to_host` returns.
use p2p_vn.Base.{
  ℕ, suc, ◌+◌, ◌≡◌, ◌⊎◌, inl, inr, refl, Bool, true, false, Bool-cases, Option, none, some,
  Option-cases, [], pos, is_nonzero, ◌==◌,
}
use p2p_vn.Dpg.Insert.{Search-cases}
use p2p_vn.Packet.{Mac}
use p2p_vn.Paths.{at, path_discon}
use p2p_vn.Routing.Reads.{entry}
use p2p_vn.Forward.{multicast, unicast}
use p2p_vn.Routing.State.{Routing, ◌>>=◌, mac_of}
use p2p_vn.Routing.Hosts.{find_host_by_addr}
use p2p_vn.Routing.Cache.{compute_paths}
use p2p_vn.Routing.Query.{
  Answer, ether_addr_is_mcast, addr_at, addr_list, multicast_answer, unicast_answer, route,
  rt_dhosts_to_host,
}

-- The lock is held and the code is 0, or the lock is given up and there are no addresses.
abbrev pub IsSettled : Answer → Type 0
IsSettled a = ((a.held ≡ true) × (a.code ≡ pos 0)) ⊎ ((a.held ≡ false) × (a.addrs ≡ []))

abbrev Settles : Option Answer → Type 0
Settles none = Unit {0}
Settles (some a) = IsSettled a

multicast_answer-Settles :
    (grants : ℕ → Bool) (rd : Routing) (src_mac : Mac) (cur_i : ℕ)
    → Settles (multicast_answer grants rd src_mac cur_i)
unfolding multicast_answer
multicast_answer-Settles grants rd src_mac cur_i =
    elim (Search-cases (find_host_by_addr rd src_mac)) [
      | inr (inr e) ↦ rw (e, multicast_answer, ◌>>=◌) tt
      | inr (inl e) ↦ rw (e, multicast_answer, ◌>>=◌) (inr (refl, refl))
      | inl (i, e) ↦ elim (Bool-cases (grants rd.calls)) [
        | inr f ↦ rw (e, f, multicast_answer, ◌>>=◌) (inr (refl, refl))
        | inl f ↦ elim (Option-cases (entry rd.tables.path i cur_i)) [
          | inl o ↦ rw (e, f, o, multicast_answer, ◌>>=◌) tt
          | inr (path, o) ↦ elim (Bool-cases (path == path_discon)) [
            | inl g ↦ rw (e, f, o, g, multicast_answer, ◌>>=◌) (inr (refl, refl))
            | inr g ↦ elim (Bool-cases (grants (rd.calls + 1))) [
              | inr h ↦ rw (e, f, o, g, h, multicast_answer, ◌>>=◌) (inr (refl, refl))
              | inl h ↦
                  elim (Option-cases (
                    multicast (suc (at rd.tables.path i cur_i + rd.m_ct)) rd.m_ct rd.tables i
                      cur_i)) [
                        | inl m ↦ rw (e, f, o, g, h, m, multicast_answer, ◌>>=◌) tt
                        | inr (dsts, m) ↦
                            elim (Option-cases (addr_list grants rd (rd.calls + 2) dsts)) [
                              | inl l ↦ rw (e, f, o, g, h, m, l, multicast_answer, ◌>>=◌) tt
                              | inr (addrs, l) ↦
                                  rw (e, f, o, g, h, m, l, multicast_answer, ◌>>=◌)
                                    (inl (refl, refl))
                            ]
                      ]
            ]
          ]
        ]
      ]
    ]

unicast_answer-Settles :
    (grants : ℕ → Bool) (rd : Routing) (dst_mac : Mac) (cur_i : ℕ)
    → Settles (unicast_answer grants rd dst_mac cur_i)
unfolding unicast_answer
unicast_answer-Settles grants rd dst_mac cur_i =
    elim (Search-cases (find_host_by_addr rd dst_mac)) [
      | inr (inr e) ↦ rw (e, unicast_answer) tt
      | inr (inl e) ↦ rw (e, unicast_answer) (inr (refl, refl))
      | inl (i, e) ↦ elim (Option-cases (entry rd.tables.path cur_i i)) [
        | inl o ↦ rw (e, o, unicast_answer, ◌>>=◌) tt
        | inr (path, o) ↦ elim (Option-cases (unicast rd.tables cur_i i)) [
          | inl f ↦ rw (e, o, f, unicast_answer, ◌>>=◌) (inl (refl, refl))
          | inr (next_i, f) ↦ elim (Option-cases (addr_at rd next_i)) [
            | inl g ↦ rw (e, o, f, g, unicast_answer, ◌>>=◌) tt
            | inr (a, g) ↦ elim (Bool-cases (grants rd.calls)) [
              | inl h ↦ rw (e, o, f, g, h, unicast_answer, ◌>>=◌) (inl (refl, refl))
              | inr h ↦ rw (e, o, f, g, h, unicast_answer, ◌>>=◌) (inr (refl, refl))
            ]
          ]
        ]
      ]
    ]

route-Settles :
    (grants : ℕ → Bool) (rd : Routing) (src_mac dst_mac : Mac)
    → Settles (route grants rd src_mac dst_mac)
unfolding route
route-Settles grants rd src_mac dst_mac =
    elim (Search-cases (find_host_by_addr rd (mac_of rd rd.own))) [
      | inr (inr e) ↦ rw (e, route) tt
      | inr (inl e) ↦ rw (e, route) (inr (refl, refl))
      | inl (i, e) ↦ elim (Bool-cases (ether_addr_is_mcast dst_mac)) [
        | inl f ↦ rw (e, f, route) (multicast_answer-Settles grants rd src_mac i)
        | inr f ↦ rw (e, f, route) (unicast_answer-Settles grants rd dst_mac i)
      ]
    ]

abbrev Ends : Option (Answer × Routing) → Type 0
Ends none = Unit {0}
Ends (some (a, rd)) = IsSettled a

routed-Ends : (rd : Routing) (o : Option Answer) → Settles o → Ends (o >>= (λ a. some (a, rd)))
routed-Ends rd none s = tt
routed-Ends rd (some a) s = s

call-Ends :
    (grants : ℕ → Bool) (rd : Routing) (src_mac dst_mac : Mac)
    → Ends (rt_dhosts_to_host grants rd src_mac dst_mac)
unfolding rt_dhosts_to_host
call-Ends grants rd src_mac dst_mac = elim (Bool-cases (rd.m_ct == rd.hosts.ct)) [
  | inl e ↦
      rw (e, rt_dhosts_to_host)
        (routed-Ends rd (route grants rd src_mac dst_mac) (route-Settles grants rd src_mac dst_mac))
  | inr e ↦ elim (Option-cases (compute_paths grants rd)) [
    | inl f ↦ rw (e, f, rt_dhosts_to_host) tt
    | inr (r, f) ↦ elim (Bool-cases (is_nonzero r.0)) [
      | inl g ↦ rw (e, f, g, rt_dhosts_to_host) (inr (refl, refl))
      | inr g ↦
          rw (e, f, g, rt_dhosts_to_host)
            (routed-Ends r.1 (route grants r.1 src_mac dst_mac)
              (route-Settles grants r.1 src_mac dst_mac))
    ]
  ]
]

-- When `rt_dhosts_to_host` returns, on any branch, the read lock is held and the code is 0, or the
-- lock is given up and the list of addresses is empty.
pub rt_dhosts_to_host-IsSettled :
    (grants : ℕ → Bool) (rd rd' : Routing) (src_mac dst_mac : Mac) (a : Answer)
    → rt_dhosts_to_host grants rd src_mac dst_mac ≡ some (a, rd')
    → IsSettled a
rt_dhosts_to_host-IsSettled grants rd rd' src_mac dst_mac a run =
    rw run at (call-Ends grants rd src_mac dst_mac)
