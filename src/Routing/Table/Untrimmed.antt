-- ===== src/Routing/Table/Untrimmed.antt =====
-- routing.c: `update_cache` where no host is trimmed, and what the calls that end with it come to.
use mathlib.Core.List.{Memᴰ}
use p2p_vn.Base.{
  ℕ, zero, suc, ◌+◌, ◌^◌, ◌<◌, ◌≡◌, ◌≢◌, ◌⊎◌, inl, inr, refl, arith, Bool, true, false, Bool-cases,
  some, ℤ, pos, length-take, get_elem?, ◌==◌, ==→eq, ==→ne, ltb, ltb→lt,
}
use p2p_vn.Packet.{ByteOrder}
use p2p_vn.Sorting.{Qsort}
use p2p_vn.Search.Sorted.{get_elem?-some}
use p2p_vn.DArray.{live}
use p2p_vn.Routing.Reads.{entry}
use p2p_vn.Routing.State.{Routing, ◌>>=◌, mac_of}
use p2p_vn.Routing.Trim.{trim_from, trim_disjoint_hosts}
use p2p_vn.Routing.Cache.{update_cache}
use p2p_vn.Routing.Update.{with_cache}
use p2p_vn.Routing.Table.{IsTable, Keeps, Fit}
use p2p_vn.Routing.Table.Lookup.{find_host-known}
use p2p_vn.Routing.Table.Filled.{IsShort, exported_hosts, recompute-Filled}
use p2p_vn.Routing.Table.Indexed.{IsFilled}
use p2p_vn.Routing.Table.Described.{Describes, IsFilled-Describes}

-- The tables are not of as many hosts as there are, or they have a path from the local host to every
-- other host.
abbrev pub IsJoined : Routing → Type 0
IsJoined rd =
    (rd.m_ct ≢ rd.hosts.ct)
    ⊎ ((s i p q : ℕ)
        → get_elem? (live rd.hosts) s ≡ some p
        → mac_of rd p ≡ mac_of rd rd.own
        → get_elem? (live rd.hosts) i ≡ some q
        → (path : ℕ) × (entry rd.tables.path s i ≡ some path) × (i ≢ s → path ≢ 0))

module _ (rd : Routing) (table : IsTable rd) (small : rd.hosts.ct < 2 ^ 60)
    (own : Memᴰ rd.own (live rd.hosts)) where
  -- The row of the table that belongs to the index `s` is read, and has a path to every other host.
  abbrev ReachesAll : ℕ → Type 0
  ReachesAll s =
      (i q : ℕ)
      → get_elem? (live rd.hosts) i ≡ some q
      → (path : ℕ) × (entry rd.tables.path s i ≡ some path) × (i ≢ s → path ≢ 0)

  trim_from-untrimmed : (s : ℕ) → ReachesAll s → (fuel i : ℕ) → trim_from fuel s i rd ≡ some rd
  unfolding trim_from
  trim_from-untrimmed s joined zero i = refl
  trim_from-untrimmed s joined (suc fuel) i = elim (Bool-cases (ltb i rd.hosts.ct)) [
    | inr over ↦ rw (over, trim_from) refl
    | inl more ↦
        let len = length-take rd.hosts.ct rd.hosts.items table.keyed.array.written in
        let lt = ltb→lt i rd.hosts.ct more in
        let (q, reads) = get_elem?-some (live rd.hosts) i (omega arith) in
        let (p, read, there) = joined i q reads in
        elim (Bool-cases (p == 0)) [
          | inr path ↦
              rw (more, read, path, trim_from, ◌>>=◌) (trim_from-untrimmed s joined fuel (i + 1))
          | inl no_path ↦ elim (Bool-cases (i == s)) [
            | inl same ↦
                rw (more, read, no_path, same, trim_from, ◌>>=◌)
                  (trim_from-untrimmed s joined fuel (i + 1))
            | inr other ↦ absurd (there (==→ne i s other) (==→eq p 0 no_path))
          ]
        ]
  ]

  trim-untrimmed : IsJoined rd → (code : ℕ) × (trim_disjoint_hosts rd ≡ some (pos code, rd))
  unfolding trim_disjoint_hosts
  trim-untrimmed joined =
      let (s, e, v) = find_host-known rd (mac_of rd rd.own) table small rd.own own refl in
      elim (Bool-cases (rd.m_ct == rd.hosts.ct)) [
        | inr stale ↦ (1, rw (e, stale, trim_disjoint_hosts) refl)
        | inl current ↦ elim joined [
          | inl n ↦ absurd (n (==→eq _ _ current))
          | inr paths ↦ (
            0,
            rw
                (
                  e,
                  current,
                  trim_from-untrimmed s (λ i q r. paths s i v.at q v.live_at v.same r) rd.hosts.ct
                      0,
                  trim_disjoint_hosts,
                  ◌>>=◌,
                )
                refl,
          )
        ]
      ]

  -- Where the memory of the routing state is in order with fewer than 2^60 hosts and fewer than
  -- 2^60 links of each, every allocation is granted, no failed call of `compute_paths` has left
  -- its pointers dangling, the local host is in the array, no host has more links than there are
  -- hosts, and the tables are not of as many hosts as there are or have a path from the local host
  -- to every other: `with_cache`, the end of each call that changes the hosts or links, returns 0,
  -- and so reads through no pointer that is unset or freed and outside no row. The memory is again
  -- in order, every host is still there with its address, the local host is the same, and the
  -- tables are those of `tables_of` for the links of all the hosts, taken one by one: each by the
  -- index at which the array has a host with the address of the destination, and by its round trip
  -- time. The exported edges grow by as many as there are links at whose number the row of their
  -- host is not 0.
  pub with_cache-Filled :
      (grants : ℕ → Bool) (qs : Qsort) (order : ByteOrder)
      → (given : (n : ℕ) → grants n ≡ true) → (more : ℕ) (failed : ℤ) → Fit more rd
      → rd.dangling ≡ false
      → IsShort rd.hosts.ct rd
      → IsJoined rd
      → (rd' : Routing) × (with_cache grants qs order failed rd ≡ some (pos 0, rd'))
        × (Fit more rd' × Keeps rd rd')
        × ((filled : IsFilled rd') × Describes rd' (live rd'.hosts) filled.hosts)
        × (rd'.own ≡ rd.own)
        × (rd'.edges.ct ≡ rd.edges.ct + exported_hosts rd rd'.tables 0 (live rd.hosts))
  unfolding with_cache update_cache
  with_cache-Filled grants qs order given more failed f sound short joined =
      let (code, trimmed) = trim-untrimmed joined in
      let (rd', run, fit, filled, same, count) =
        recompute-Filled grants given rd table small sound order more f short in
      let room = fit.0.room.hosts.ct_lt in
      let describes = IsFilled-Describes rd' fit.0.table (omega arith) filled in
      (
        rd',
        rw (trimmed, run, with_cache, update_cache, ◌>>=◌) refl,
        fit,
        (filled, describes),
        same,
        count,
      )
