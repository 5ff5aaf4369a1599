-- ===== src/Forward/Linked.antt =====
-- Whatever `rt_dhosts_to_host` answers, it names hosts to which this host has a link.
use p2p_vn.Base.{
  ℕ, zero, suc, ◌+◌, ◌<◌, ◌≤◌, ◌≡◌, ◌≢◌, ◌↔◌, sym, subst, ◌∙◌, arith, List, [], ◌∷◌, length, All,
  true, inl, inr, none, some, ◌==◌, Bool-cases, ==→eq, ==→ne,
}
use p2p_vn.Paths.{Links, at, tables_of, next_discon}
use p2p_vn.Paths.Seed.{IsNetwork, weight}
use p2p_vn.Paths.Hops.{tables_of-IsHop}
use p2p_vn.Paths.Reach.{tables_of-no_link}
use p2p_vn.Forward.{passes, destinations, multicast, unicast}
use p2p_vn.Forward.Trail.{IsTrail, follow_ends}

-- `i` is another host, and `cur` has a link to it.
abbrev pub IsTarget : List Links → (cur i : ℕ) → Type 0
IsTarget hosts cur i = (i < length hosts) × (i ≢ cur) × (weight hosts cur i ≢ 0)

module _ (hosts : List Links) (net : IsNetwork hosts) (few : length hosts ≤ next_discon) where
  -- For links between hosts of the network, not more hosts than NEXT_DISCON: `unicast` finds no
  -- path exactly if this host has no link of non-zero weight to the destination.
  pub unicast-none :
      (cur_i dst_i : ℕ)
      → cur_i < length hosts
      → dst_i < length hosts
      → (unicast (tables_of hosts) cur_i dst_i ≡ none) ↔ (weight hosts cur_i dst_i ≡ 0)
  unfolding unicast
  unicast-none cur_i dst_i hc hd =
      let e = tables_of-no_link hosts net cur_i dst_i hc hd in
      (λ h. e.0 (ground arith), λ h. let z = e.1 h in ground arith)

  -- For links between hosts of the network, not more hosts than NEXT_DISCON: if `unicast` names a
  -- host on the way to another host than this one, it names a host of the network that is not this
  -- one and to which this host has a link.
  pub unicast_linked :
      (cur_i dst_i h : ℕ)
      → cur_i < length hosts
      → dst_i < length hosts
      → cur_i ≢ dst_i
      → unicast (tables_of hosts) cur_i dst_i ≡ some h
      → IsTarget hosts cur_i h
  unfolding unicast
  unicast_linked cur_i dst_i h hc hd ne e =
      elim (Bool-cases (at (tables_of hosts).path cur_i dst_i == 0)) [
        | inl z ↦ cc (rw z at e)
        | inr pos ↦ elim (tables_of-IsHop hosts net cur_i dst_i hc hd) [
          | inl stop ↦
              let same : dst_i ≡ h = ground arith in
              (
                omega arith,
                omega arith,
                λ z. ==→ne _ 0 pos (
                    (tables_of-no_link hosts net cur_i dst_i hc hd).1
                      (subst (λ x. weight hosts cur_i x ≡ 0) (sym same) z)),
              )
          | inr v ↦
              let inside = v.inside in
              let same : at (tables_of hosts).next cur_i dst_i ≡ h = ground arith in
              let off = v.off in
              (
                omega arith,
                omega arith,
                λ z. v.to (
                    (tables_of-no_link hosts net cur_i _ hc inside).1
                      (subst (λ x. weight hosts cur_i x ≡ 0) (sym same) z)),
              )
        ]
      ]

  -- What the inner loop has seen when it accepts a destination.
  passes_linked :
      (i cur c : ℕ) (xs : List ℕ)
      → i < length hosts
      → cur < length hosts
      → c < length hosts
      → IsTrail (length hosts) (tables_of hosts) cur c xs
      → passes (tables_of hosts) i c xs ≡ true
      → (at (tables_of hosts).path cur i ≢ 0) × (i ≢ cur)
  unfolding passes
  passes_linked i cur c [] hi hcur hc trail e = absurd trail
  passes_linked i cur c (x ∷ []) hi hcur hc trail e =
      let hop = ==→eq _ x e in
      let last = trail.0 in
      let stop = trail.1 in
      elim (tables_of-IsHop hosts net c i hc hi) [
        | inl d ↦ absurd (omega arith)
        | inr v ↦ (
          subst (λ y. at (tables_of hosts).path y i ≢ 0) (hop ∙ last) v.from,
          λ same. omega (arith, subst (λ y. at (tables_of hosts).next c y ≡ x) same hop),
        )
      ]
  passes_linked i cur c (x ∷ y ∷ xs) hi hcur hc trail e =
      let hop : at (tables_of hosts).next c i ≡ x = ground arith in
      passes_linked i cur x (y ∷ xs) hi hcur trail.0 trail.2
        (subst (λ z. passes (tables_of hosts) i z (y ∷ xs) ≡ true) hop (ground arith))

  destinations-IsTarget :
      (src cur : ℕ) (xs : List ℕ) (rounds i : ℕ)
      → src < length hosts
      → cur < length hosts
      → IsTrail (length hosts) (tables_of hosts) cur src xs
      → i + rounds ≤ length hosts
      → All (IsTarget hosts cur) (destinations (tables_of hosts) src xs rounds i)
  unfolding destinations
  destinations-IsTarget src cur xs zero i hs hc trail h = tt
  destinations-IsTarget src cur xs (suc rounds) i hs hc trail h =
      let rest = destinations-IsTarget src cur xs rounds (suc i) hs hc trail (omega arith) in
      let hi : i < length hosts = omega arith in
      elim (Bool-cases (passes (tables_of hosts) i src xs)) [
        | inr e ↦ rw e rest
        | inl e ↦
            let found = passes_linked i cur src xs hi hc hs trail e in
            rw e ((hi, found.1, λ z. found.0 ((tables_of-no_link hosts net cur i hc hi).1 z)), rest)
      ]

  -- For links between hosts of the network, not more hosts than NEXT_DISCON, and with more fuel
  -- than the weight of the path from the source and the count of hosts together: `multicast` gives
  -- a list of destinations, and each is a host of the network other than this one to which this
  -- host has a link.
  pub multicast-IsTarget :
      (fuel src_i cur_i : ℕ)
      → src_i < length hosts
      → cur_i < length hosts
      → at (tables_of hosts).path src_i cur_i + length hosts < fuel
      → (dsts : List ℕ) × (multicast fuel (length hosts) (tables_of hosts) src_i cur_i ≡ some dsts)
        × All (IsTarget hosts cur_i) dsts
  unfolding multicast
  multicast-IsTarget fuel src_i cur_i hs hc enough =
      elim (Bool-cases (at (tables_of hosts).path src_i cur_i == 0)) [
        | inl z ↦ ([], rw z, tt)
        | inr pos ↦
            let (xs, run, trail) =
              follow_ends hosts net few fuel src_i cur_i hs hc (==→ne _ 0 pos) enough in
            (
              destinations (tables_of hosts) src_i xs (length hosts) 0,
              rw (pos, run),
              destinations-IsTarget src_i cur_i xs (length hosts) 0 hs hc trail (omega arith),
            )
      ]
