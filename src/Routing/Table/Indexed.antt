-- ===== src/Routing/Table/Indexed.antt =====
-- routing.c: the links of the hosts by their indices, as `compute_paths` reads them, on memory in order.
use mathlib.Core.Option.{some-injective}
use p2p_vn.Base.{
  ℕ, zero, suc, ◌+◌, ◌^◌, ◌<◌, ◌≡◌, ◌≢◌, inl, inr, refl, sym, ap, subst, ◌∙◌, arith, some,
  Option-cases, List, [], ◌∷◌, All, length, length-take, get_elem?, get_or,
}
use p2p_vn.Packet.{PktEdge}
use p2p_vn.Paths.{Tables, Links, tables_of}
use p2p_vn.Paths.Seed.{IsLink, IsNetwork}
use p2p_vn.DArray.{DArray, live}
use p2p_vn.Routing.State.{Routing, RtLink, ◌>>=◌, mac_of}
use p2p_vn.Routing.Hosts.{find_host_by_addr}
use p2p_vn.Routing.Cache.{indexed_links, indexed_hosts}
use p2p_vn.Routing.Table.{Alive, Leads, IsTable}
use p2p_vn.Routing.Table.Lookup.{find_host-known}

-- The tables are those of the links of all the hosts, by their indices, which are among the hosts.
pub record IsFilled (rd : Routing) : Type 0 where
  pub hosts : List Links
  pub indexed : indexed_hosts rd (live rd.hosts) ≡ some hosts
  pub len : length hosts ≡ rd.hosts.ct
  pub net : IsNetwork hosts
  pub count : rd.m_ct ≡ rd.hosts.ct
  pub tables : rd.tables ≡ tables_of hosts

-- The indices do not depend on the tables.
module _ (rd : Routing) (m_ct n : ℕ) (tables : Tables) (edges : DArray PktEdge) where
  abbrev other_tables : Routing
  other_tables = record rd { m_ct = m_ct; tables = tables; edges = edges; calls = n }

  indexed_links-recorded : (ls : List RtLink) → indexed_links other_tables ls ≡ indexed_links rd ls
  unfolding indexed_links find_host_by_addr
  indexed_links-recorded [] = refl
  indexed_links-recorded (l ∷ ls) = rw (indexed_links-recorded ls) refl

  pub indexed_hosts-recorded : (ps : List ℕ) → indexed_hosts other_tables ps ≡ indexed_hosts rd ps
  unfolding indexed_hosts
  indexed_hosts-recorded [] = refl
  indexed_hosts-recorded (p ∷ ps) = elim (Option-cases (rd.host_at p)) [
    | inl e ↦ rw (e, indexed_hosts, ◌>>=◌) refl
    | inr (h, e) ↦
        rw
          (
            e,
            indexed_links-recorded (live h.links),
            indexed_hosts-recorded ps,
            indexed_hosts,
            ◌>>=◌,
          )
          refl
  ]

rows :
    (n k : ℕ) (links : Links) (hosts : List Links)
    → All (IsLink n (k + 0)) links
    → ((j : ℕ) → j < length hosts → All (IsLink n (k + 1 + j)) (get_or hosts j []))
    → (j : ℕ) → j < length (links ∷ hosts)
    → All (IsLink n (k + j)) (get_or (links ∷ hosts) j [])
rows n k links hosts net all zero lt = net
rows n k links hosts net all (suc j) lt =
    let next : k + 1 + j ≡ k + suc j = omega arith in
    subst (λ m. All (IsLink n m) (get_or hosts j [])) next (all j (omega arith))

module _ (rd : Routing) (table : IsTable rd) (small : rd.hosts.ct < 2 ^ 60) where
  -- The links of the host `p`, which stands at the index `k`.
  indexed_links-some :
      (k p : ℕ) (ls : List RtLink)
      → get_elem? (live rd.hosts) k ≡ some p
      → All (Leads rd p) ls
      → (links : Links) × (indexed_links rd ls ≡ some links) × All (IsLink rd.hosts.ct k) links
  unfolding indexed_links
  indexed_links-some k p [] at_k a = ([], refl, tt)
  indexed_links-some k p (l ∷ ls) at_k a =
      let (links, run, net) = indexed_links-some k p ls at_k a.1 in
      let dst = a.0.alive in
      let (i, e, v) =
        find_host-known rd (mac_of rd l.dst) table small l.dst
          (table.whole l.dst dst.host dst.points) refl in
      let other : i ≢ k = λ same.
        let here : some v.at ≡ some p =
          sym v.live_at ∙ ap (get_elem? (live rd.hosts)) same ∙ at_k in
        a.0.other (sym v.same ∙ ap (mac_of rd) (some-injective _ _ here)) in
      (
        (i, l.rtt_us) ∷ links,
        rw (run, e, indexed_links, ◌>>=◌) refl,
        ((v.below, other, a.0.narrow), net),
      )

  -- The hosts from the index `k` on.
  indexed_hosts-some :
      (ps : List ℕ) (k : ℕ)
      → ((j p : ℕ) → get_elem? ps j ≡ some p → get_elem? (live rd.hosts) (k + j) ≡ some p)
      → All (Alive rd) ps
      → (hosts : List Links) × (indexed_hosts rd ps ≡ some hosts)
        × (length hosts ≡ length ps)
        × ((j : ℕ) → j < length hosts → All (IsLink rd.hosts.ct (k + j)) (get_or hosts j []))
  unfolding indexed_hosts
  indexed_hosts-some [] k places a = ([], refl, refl, λ j lt. absurd (omega arith))
  indexed_hosts-some (p ∷ ps) k places a =
      let host = table.each p a.0.host a.0.points in
      let first : k + 0 ≡ k = omega arith in
      let (links, run, net) =
        indexed_links-some (k + 0) p (live a.0.host.links) (places 0 p refl) host.dsts in
      let (hosts, rest, len, all) =
        indexed_hosts-some ps (k + 1)
          (λ j q e.
            let next : k + suc j ≡ k + 1 + j = omega arith in
            subst (λ n. get_elem? (live rd.hosts) n ≡ some q) next (places (suc j) q e))
          a.1 in
      (
        links ∷ hosts,
        rw (a.0.points, run, rest, indexed_hosts, ◌>>=◌) refl,
        ap suc len,
        rows rd.hosts.ct k links hosts net all,
      )

  -- The links of all the hosts are a network.
  pub indexed_hosts-IsNetwork :
      (hosts : List Links) × (indexed_hosts rd (live rd.hosts) ≡ some hosts)
      × (length hosts ≡ rd.hosts.ct)
      × IsNetwork hosts
  indexed_hosts-IsNetwork =
      let zero_plus : (j : ℕ) → 0 + j ≡ j = λ j. omega arith in
      let (hosts, run, len, all) =
        indexed_hosts-some (live rd.hosts) 0
          (λ j p e. subst (λ n. get_elem? (live rd.hosts) n ≡ some p) (sym (zero_plus j)) e)
          table.alive in
      let count = len ∙ length-take rd.hosts.ct rd.hosts.items table.keyed.array.written in
      (
        hosts,
        run,
        count,
        λ j lt.
            subst (λ n. All (IsLink n j) (get_or hosts j [])) (sym count)
              (subst (λ n. All (IsLink rd.hosts.ct n) (get_or hosts j [])) (zero_plus j)
                (all j lt)),
      )
