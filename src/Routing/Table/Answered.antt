-- ===== src/Routing/Table/Answered.antt =====
-- routing.c: `rt_dhosts_to_host` on memory in order with the tables filled, where every allocation is
-- granted.
use mathlib.Core.List.{Memᴰ}
use mathlib.Core.Option.{some-injective}
use p2p_vn.Base.{
  ℕ, suc, ◌+◌, ◌^◌, ◌<◌, ◌≤◌, ◌≡◌, ◌≢◌, inl, inr, refl, sym, ap, subst, ◌∙◌, arith, Bool, true,
  Bool-cases, Option, some, Option-cases, pos, neg, List, [], ◌∷◌, All, length, length-take,
  get_elem?, ◌==◌, ==_self,
}
use p2p_vn.Packet.{Mac}
use p2p_vn.Search.{Search}
use p2p_vn.Search.Sorted.{get_elem?-some}
use p2p_vn.Sorting.Keys.{All-get}
use p2p_vn.Paths.{Tables, Links, at, path_discon, next_discon, tables_of}
use p2p_vn.Forward.{multicast, unicast}
use p2p_vn.Forward.Linked.{IsTarget, unicast_linked, multicast-IsTarget}
use p2p_vn.DArray.{live}
use p2p_vn.Routing.Reads.{entry, entry-tables_of}
use p2p_vn.Routing.State.{Routing, RtHost, ◌>>=◌, mac_of}
use p2p_vn.Routing.Hosts.{find_host_by_addr}
use p2p_vn.Routing.Query.{
  Answer, give, error_ret, addr_at, addr_list, ether_addr_is_mcast, multicast_answer,
  unicast_answer, route, rt_dhosts_to_host,
}
use p2p_vn.Routing.Table.{Alive, IsTable}
use p2p_vn.Routing.Table.Lookup.{find_host-cases, find_host-known, get_elem?-take}
use p2p_vn.Routing.Table.Indexed.{IsFilled}

-- The address of a host of the array, by its index, that is another than `cur` and to which `cur` has a
-- link.
pub record IsNeighbour (rd : Routing) (hosts : List Links) (cur a : ℕ) : Type 0 where
  pub index : ℕ
  pub target : IsTarget hosts cur index
  pub pointer : ℕ
  pub reads : get_elem? (live rd.hosts) index ≡ some pointer
  pub host : RtHost
  pub points : rd.host_at pointer ≡ some host
  pub same : host.host ≡ a

found-injective : (k i : ℕ) → Search.found k ≡ Search.found i → k ≡ i
found-injective k i e = ap index_of e
  where
    index_of : Search → ℕ
    index_of (Search.found j) = j
    index_of _ = 0

module _ (grants : ℕ → Bool) (given : (n : ℕ) → grants n ≡ true) (rd : Routing) (table : IsTable rd)
    (small : rd.hosts.ct < 2 ^ 60) (filled : IsFilled rd) (cur : ℕ)
    (inside : cur < rd.hosts.ct) where
  few : length filled.hosts ≤ next_discon
  few = omega (arith, filled.len)

  addr_at-IsNeighbour :
      (i : ℕ)
      → IsTarget filled.hosts cur i
      → (a : ℕ) × (addr_at rd i ≡ some a) × IsNeighbour rd filled.hosts cur a
  unfolding addr_at
  addr_at-IsNeighbour i t =
      let len = length-take rd.hosts.ct rd.hosts.items table.keyed.array.written in
      let lt = t.0 in
      let (p, reads) = get_elem?-some (live rd.hosts) i (omega (arith, filled.len)) in
      let alive = All-get (Alive rd) (live rd.hosts) i p reads table.alive in
      (
        alive.host.host,
        rw (get_elem?-take rd.hosts.ct rd.hosts.items i p reads, alive.points, addr_at, ◌>>=◌) refl,
        record {
          index = i;
          target = t;
          pointer = p;
          reads = reads;
          host = alive.host;
          points = alive.points;
          same = refl;
        },
      )

  addr_list-IsNeighbour :
      (is : List ℕ) (call : ℕ)
      → All (IsTarget filled.hosts cur) is
      → (addrs : List ℕ) × (addr_list grants rd call is ≡ some addrs)
        × All (IsNeighbour rd filled.hosts cur) addrs
  unfolding addr_list
  addr_list-IsNeighbour [] call t = ([], refl, tt)
  addr_list-IsNeighbour (i ∷ is) call t =
      let (a, run, n) = addr_at-IsNeighbour i t.0 in
      let (addrs, rest, ns) = addr_list-IsNeighbour is (suc call) t.1 in
      (a ∷ addrs, rw (run, rest, given call, addr_list, ◌>>=◌) refl, (n, ns))

  -- The table is read between hosts of the array.
  reads_path :
      (i j : ℕ)
      → i < rd.hosts.ct
      → j < rd.hosts.ct
      → entry rd.tables.path i j ≡ some (at rd.tables.path i j)
  reads_path i j hi hj =
      let len = filled.len in
      subst (λ (t : Tables). entry t.path i j ≡ some (at t.path i j)) (sym filled.tables)
        (entry-tables_of filled.hosts i j filled.net (omega (arith, len)) (omega (arith, len)))

  -- An answer, which names neighbours only.
  abbrev Answers : Option Answer → Type 0
  Answers o = (a : Answer) × (o ≡ some a) × All (IsNeighbour rd filled.hosts cur) a.addrs

  unicast_answer-Answers :
      (dst_mac : Mac)
      → ((i : ℕ) → find_host_by_addr rd dst_mac ≡ Search.found i → i ≢ cur)
      → Answers (unicast_answer grants rd dst_mac cur)
  unfolding unicast_answer
  unicast_answer-Answers dst_mac other = elim (find_host-cases rd dst_mac table small) [
    | inr (e, fresh) ↦ (error_ret (neg 1), rw (e, unicast_answer) refl, tt)
    | inl (i, e, v) ↦ elim (Option-cases (unicast rd.tables cur i)) [
      | inl f ↦
          (give [], rw (e, f, reads_path cur i inside v.below, unicast_answer, ◌>>=◌) refl, tt)
      | inr (h, f) ↦
          let below = v.below in
          let f' : unicast (tables_of filled.hosts) cur i ≡ some h =
            subst (λ t. unicast t cur i ≡ some h) filled.tables f in
          let t =
            unicast_linked filled.hosts filled.net few cur i h (omega (arith, filled.len))
              (omega (arith, filled.len)) (λ q. other i e (sym q)) f' in
          let (a, run, n) = addr_at-IsNeighbour h t in
          (
            give (a ∷ []),
            rw (e, f, reads_path cur i inside v.below, run, given rd.calls, unicast_answer, ◌>>=◌)
                refl,
            (n, tt),
          )
    ]
  ]

  multicast_answer-Answers : (src_mac : Mac) → Answers (multicast_answer grants rd src_mac cur)
  unfolding multicast_answer
  multicast_answer-Answers src_mac = elim (find_host-cases rd src_mac table small) [
    | inr (e, fresh) ↦ (error_ret (neg 2), rw (e, multicast_answer) refl, tt)
    | inl (s, e, v) ↦ elim (Bool-cases (at rd.tables.path s cur == path_discon)) [
      | inl cut ↦ (
        error_ret (pos 0),
        rw (e, given rd.calls, reads_path s cur v.below inside, cut, multicast_answer, ◌>>=◌) refl,
        tt,
      )
      | inr path ↦
          let below = v.below in
          let fuel : ℕ = suc (at rd.tables.path s cur + rd.m_ct) in
          let (dsts, run, targets) =
            multicast-IsTarget filled.hosts filled.net few fuel s cur (omega (arith, filled.len))
              (omega (arith, filled.len))
              (subst (λ (t : Tables). at t.path s cur + length filled.hosts < fuel) filled.tables
                (let c = filled.count in let l = filled.len in omega (arith, c, l))) in
          let count : length filled.hosts ≡ rd.m_ct = filled.len ∙ sym filled.count in
          let run' : multicast fuel rd.m_ct rd.tables s cur ≡ some dsts =
            subst (λ (t : Tables). multicast fuel rd.m_ct t s cur ≡ some dsts) (sym filled.tables)
              (subst (λ n. multicast fuel n (tables_of filled.hosts) s cur ≡ some dsts) count
                run) in
          let (addrs, rest, ns) = addr_list-IsNeighbour dsts (rd.calls + 2) targets in
          (
            give addrs,
            rw
                (
                  e,
                  given rd.calls,
                  given (rd.calls + 1),
                  reads_path s cur v.below inside,
                  path,
                  run',
                  rest,
                  multicast_answer,
                  ◌>>=◌,
                )
                refl,
            ns,
          )
    ]
  ]

  route-Answers :
      (src_mac dst_mac : Mac)
      → find_host_by_addr rd (mac_of rd rd.own) ≡ Search.found cur
      → ((i : ℕ) → find_host_by_addr rd dst_mac ≡ Search.found i → i ≢ cur)
      → Answers (route grants rd src_mac dst_mac)
  unfolding route
  route-Answers src_mac dst_mac e other = elim (Bool-cases (ether_addr_is_mcast dst_mac)) [
    | inl m ↦ let (a, run, ns) = multicast_answer-Answers src_mac in (a, rw (e, m, route) run, ns)
    | inr u ↦
        let (a, run, ns) = unicast_answer-Answers dst_mac other in (a, rw (e, u, route) run, ns)
  ]

-- Where the memory of the routing state is in order with fewer than 2^60 hosts, the local host is
-- in the array, the tables are those of the links of all the hosts, and every allocation is
-- granted: for any source address and any destination address but that of the local host,
-- `rt_dhosts_to_host` returns without a fault and changes nothing, and every address it gives is
-- that of a known host other than the local one to which the local host has a link.
pub rt_dhosts_to_host-IsNeighbour :
    (grants : ℕ → Bool) (rd : Routing) (filled : IsFilled rd) (src_mac dst_mac : Mac)
    → ((n : ℕ) → grants n ≡ true)
    → IsTable rd
    → rd.hosts.ct < 2 ^ 60
    → Memᴰ rd.own (live rd.hosts)
    → dst_mac ≢ mac_of rd rd.own
    → (cur : ℕ) × (a : Answer) × (find_host_by_addr rd (mac_of rd rd.own) ≡ Search.found cur)
      × (rt_dhosts_to_host grants rd src_mac dst_mac ≡ some (a, rd))
      × All (IsNeighbour rd filled.hosts cur) a.addrs
unfolding rt_dhosts_to_host
rt_dhosts_to_host-IsNeighbour grants rd filled src_mac dst_mac given table small own ne =
    let (cur, e, v) = find_host-known rd (mac_of rd rd.own) table small rd.own own refl in
    let other : (i : ℕ) → find_host_by_addr rd dst_mac ≡ Search.found i → i ≢ cur = λ i f same.
      elim (find_host-cases rd dst_mac table small) [
        | inr (g, fresh) ↦ cc
        | inl (k, g, w) ↦
            let here : k ≡ i = found-injective k i (sym g ∙ f) in
            let at_own : some w.at ≡ some v.at =
              sym w.live_at ∙ ap (get_elem? (live rd.hosts)) (here ∙ same) ∙ v.live_at in
            ne (sym w.same ∙ ap (mac_of rd) (some-injective _ _ at_own) ∙ v.same)
      ] in
    let (a, run, ns) =
      route-Answers grants given rd table small filled cur v.below src_mac dst_mac e other in
    let current : (rd.m_ct == rd.hosts.ct) ≡ true = rw filled.count (==_self rd.hosts.ct) in
    (cur, a, e, rw (current, run, rt_dhosts_to_host, ◌>>=◌) refl, ns)
