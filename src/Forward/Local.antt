-- ===== src/Forward/Local.antt =====
-- A multicast packet of this host itself.
use p2p_vn.Base.{
  ℕ, zero, suc, ◌+◌, ◌<◌, ◌≤◌, ◌≡◌, refl, ap, arith, List, [], ◌∷◌, length, false, inl, inr, some,
  ne→==,
}
use p2p_vn.Paths.{Links, tables_of, next_discon}
use p2p_vn.Paths.Seed.{IsNetwork}
use p2p_vn.Paths.Hops.{tables_of-IsHop, tables_of-diag, tables_of-diag_hop}
use p2p_vn.Forward.{follow, passes, destinations, multicast}

module _ (hosts : List Links) (net : IsNetwork hosts) (few : length hosts ≤ next_discon) where
  passes_self :
      (cur i : ℕ)
      → cur < length hosts
      → i < length hosts
      → passes (tables_of hosts) i cur (cur ∷ []) ≡ false
  unfolding passes
  passes_self cur i hc hi = elim (tables_of-IsHop hosts net cur i hc hi) [
    | inl d ↦ ne→== _ cur (omega arith)
    | inr v ↦ ne→== _ cur v.off
  ]

  destinations_self :
      (cur rounds i : ℕ)
      → cur < length hosts
      → i + rounds ≤ length hosts
      → destinations (tables_of hosts) cur (cur ∷ []) rounds i ≡ []
  unfolding destinations
  destinations_self cur zero i hc h = refl
  destinations_self cur (suc rounds) i hc h =
      rw (passes_self cur i hc (omega arith))
        (destinations_self cur rounds (suc i) hc (omega arith))

  -- For links between hosts of the network, not more hosts than NEXT_DISCON: a multicast packet
  -- whose source is this host itself is forwarded to nobody, whatever the links.
  pub multicast_self :
      (fuel cur_i : ℕ)
      → cur_i < length hosts
      → multicast (suc fuel) (length hosts) (tables_of hosts) cur_i cur_i ≡ some []
  unfolding multicast follow
  multicast_self fuel cur_i hc =
      rw (tables_of-diag hosts net cur_i hc, tables_of-diag_hop hosts net cur_i hc)
        (ap some (destinations_self cur_i (length hosts) 0 hc (omega arith)))
