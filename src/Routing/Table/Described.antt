-- ===== src/Routing/Table/Described.antt =====
-- routing.c: what the links that `compute_paths` reads are, on memory in order.

use mathlib.Core.Option.{some-injective}
use p2p_vn.Base.{ℕ, ◌^◌, ◌<◌, ◌≡◌, refl, sym, subst, ◌∙◌, some, List, [], ◌∷◌, All, get_elem?}
use p2p_vn.Paths.{Links}
use p2p_vn.DArray.{live}
use p2p_vn.Routing.State.{Routing, RtLink, ◌>>=◌, mac_of}
use p2p_vn.Routing.Cache.{indexed_links, indexed_hosts}
use p2p_vn.Routing.Table.{Alive, Leads, IsTable}
use p2p_vn.Routing.Table.Lookup.{find_host-known}
use p2p_vn.Routing.Table.Indexed.{IsFilled}

-- A link as an index and a weight: the host of the array at the index has the address of the link's
-- destination, and the weight is the round trip time of the link.
pub record IsIndexed (rd : Routing) (l : RtLink) (x : ℕ × ℕ) : Type 0 where
  pub pointer : ℕ
  pub reads : get_elem? (live rd.hosts) x.0 ≡ some pointer
  pub address : mac_of rd pointer ≡ mac_of rd l.dst
  pub weight : x.1 ≡ l.rtt_us

-- The links of a host, one by one.
abbrev pub AreIndexed : Routing → List RtLink → Links → Type 0
AreIndexed rd [] [] = Unit {0}
AreIndexed rd [] (x ∷ xs) = x ∷ xs ≡ []
AreIndexed rd (l ∷ ls) [] = l ∷ ls ≡ []
AreIndexed rd (l ∷ ls) (x ∷ xs) = IsIndexed rd l x × AreIndexed rd ls xs

-- The hosts, one by one: each stands at its number with these links.
abbrev pub Describes : Routing → List ℕ → List Links → Type 0
Describes rd [] [] = Unit {0}
Describes rd [] (links ∷ hosts) = links ∷ hosts ≡ []
Describes rd (p ∷ ps) [] = p ∷ ps ≡ []
Describes rd (p ∷ ps) (links ∷ hosts) =
    ((a : Alive rd p) × AreIndexed rd (live a.host.links) links) × Describes rd ps hosts

module _ (rd : Routing) (table : IsTable rd) (small : rd.hosts.ct < 2 ^ 60) where
  indexed_links-AreIndexed :
      (p : ℕ) (ls : List RtLink)
      → All (Leads rd p) ls
      → (links : Links) × (indexed_links rd ls ≡ some links) × AreIndexed rd ls links
  unfolding indexed_links
  indexed_links-AreIndexed p [] a = ([], refl, tt)
  indexed_links-AreIndexed p (l ∷ ls) a =
      let (links, run, are) = indexed_links-AreIndexed p ls a.1 in
      let dst = a.0.alive in
      let (i, e, v) =
        find_host-known rd (mac_of rd l.dst) table small l.dst
          (table.whole l.dst dst.host dst.points) refl in
      (
        (i, l.rtt_us) ∷ links,
        rw (run, e, indexed_links, ◌>>=◌) refl,
        (record { pointer = v.at; reads = v.live_at; address = v.same; weight = refl }, are),
      )

  indexed_hosts-Describes :
      (ps : List ℕ)
      → All (Alive rd) ps
      → (hosts : List Links) × (indexed_hosts rd ps ≡ some hosts) × Describes rd ps hosts
  unfolding indexed_hosts
  indexed_hosts-Describes [] a = ([], refl, tt)
  indexed_hosts-Describes (p ∷ ps) a =
      let host = table.each p a.0.host a.0.points in
      let (links, run, are) = indexed_links-AreIndexed p (live a.0.host.links) host.dsts in
      let (hosts, rest, describes) = indexed_hosts-Describes ps a.1 in
      (
        links ∷ hosts,
        rw (a.0.points, run, rest, indexed_hosts, ◌>>=◌) refl,
        ((a.0, are), describes),
      )

  -- The links that the tables are made of are those of the hosts of the array.
  pub IsFilled-Describes : (filled : IsFilled rd) → Describes rd (live rd.hosts) filled.hosts
  IsFilled-Describes filled =
      let (hosts, run, describes) = indexed_hosts-Describes (live rd.hosts) table.alive in
      subst (Describes rd (live rd.hosts)) (some-injective _ _ (sym run ∙ filled.indexed)) describes
