-- ===== src/Paths/Tests.antt =====
-- Runs of `compute_paths` on small networks.
use p2p_vn.Base.{ℕ, zero, suc, ◌<◌, ◌≤◌, ◌≡◌, ◌≢◌, ◌↔◌, refl, arith, List, [], ◌∷◌, count_up}
use p2p_vn.Paths.{
  Links, at, tables_of, via_cost, floyd, round, relax, seed_hosts, seed_links, clear,
}
use p2p_vn.Paths.Round.{cell}
use p2p_vn.Paths.Simultaneous.{rounds}
use p2p_vn.Paths.Seed.{IsNetwork, weight, link_weight, direct, direct-IsSeeded, tables_of-rounds}
use p2p_vn.Paths.Reach.{tables_of-no_link}
use p2p_vn.Paths.Walk.{Walk, tables_of-Walk}
use p2p_vn.Paths.Mesh.{IsMesh, Trip, leap, tables_of_shortest}
use p2p_vn.Paths.Hops.{IsHop, tables_of-IsHop}

-- Three hosts in a row.
abbrev pub row : List Links
row = ((1, 10) ∷ []) ∷ (((0, 10) ∷ (2, 20) ∷ []) ∷ (((1, 20) ∷ []) ∷ []))

pub row-IsNetwork : IsNetwork row
row-IsNetwork zero h = ((omega arith, omega arith, omega arith), tt)
row-IsNetwork (suc zero) h =
    ((omega arith, omega arith, omega arith), ((omega arith, omega arith, omega arith), tt))
row-IsNetwork (suc (suc zero)) h = ((omega arith, omega arith, omega arith), tt)
row-IsNetwork (suc (suc (suc i))) h = absurd (omega arith)

-- Three hosts, all linked, with a detour from 0 to 2 over 1.
abbrev pub triangle : List Links
triangle = ((1, 10) ∷ (2, 50) ∷ []) ∷ (((0, 10) ∷ (2, 20) ∷ []) ∷ (((0, 50) ∷ (1, 20) ∷ []) ∷ []))

pub triangle-IsNetwork : IsNetwork triangle
triangle-IsNetwork zero h =
    ((omega arith, omega arith, omega arith), ((omega arith, omega arith, omega arith), tt))
triangle-IsNetwork (suc zero) h =
    ((omega arith, omega arith, omega arith), ((omega arith, omega arith, omega arith), tt))
triangle-IsNetwork (suc (suc zero)) h =
    ((omega arith, omega arith, omega arith), ((omega arith, omega arith, omega arith), tt))
triangle-IsNetwork (suc (suc (suc i))) h = absurd (omega arith)

detour : at (tables_of triangle).path 0 2 ≡ 30
unfolding tables_of floyd round relax via_cost seed_hosts seed_links clear count_up
detour = refl

tables_of-rounds_example : cell (tables_of triangle) 0 2 ≡ rounds 3 (direct triangle) 0 2
tables_of-rounds_example =
    tables_of-rounds triangle triangle-IsNetwork 0 2 (omega arith) (omega arith)

tables_of-no_link_example : (at (tables_of row).path 0 2 ≡ 0) ↔ (weight row 0 2 ≡ 0)
tables_of-no_link_example = tables_of-no_link row row-IsNetwork 0 2 (omega arith) (omega arith)

triangle-IsMesh : IsMesh 3 (direct triangle)
unfolding weight link_weight
triangle-IsMesh = record { seeded = direct-IsSeeded triangle triangle-IsNetwork; linked = linked }
  where
    linked : (a b : ℕ) → a < 3 → b < 3 → a ≢ b → 1 < (direct triangle a b).dist
    linked zero zero ha hb ne = absurd (ne refl)
    linked zero (suc zero) ha hb ne = omega arith
    linked zero (suc (suc zero)) ha hb ne = omega arith
    linked (suc zero) zero ha hb ne = omega arith
    linked (suc zero) (suc zero) ha hb ne = absurd (ne refl)
    linked (suc zero) (suc (suc zero)) ha hb ne = omega arith
    linked (suc (suc zero)) zero ha hb ne = omega arith
    linked (suc (suc zero)) (suc zero) ha hb ne = omega arith
    linked (suc (suc zero)) (suc (suc zero)) ha hb ne = absurd (ne refl)
    linked (suc (suc (suc a))) b ha hb ne = absurd (omega arith)
    linked zero (suc (suc (suc b))) ha hb ne = absurd (omega arith)
    linked (suc zero) (suc (suc (suc b))) ha hb ne = absurd (omega arith)
    linked (suc (suc zero)) (suc (suc (suc b))) ha hb ne = absurd (omega arith)

straight : Trip triangle 0 2 50
unfolding weight link_weight
straight = leap (omega arith) (omega arith) refl

tables_of_shortest_example :
    Trip triangle 0 2 (at (tables_of triangle).path 0 2) × (at (tables_of triangle).path 0 2 ≤ 50)
tables_of_shortest_example =
    tables_of_shortest triangle triangle-IsMesh triangle-IsNetwork 0 2 50 (omega arith)
      (omega arith) straight

reached : at (tables_of triangle).path 0 2 ≢ 0
reached e = omega (arith, detour, e)

tables_of-Walk_example : Walk triangle 0 2 (at (tables_of triangle).path 0 2)
tables_of-Walk_example =
    tables_of-Walk triangle triangle-IsNetwork 0 2 (omega arith) (omega arith) reached

tables_of-IsHop_example : IsHop 3 3 (cell (tables_of triangle)) 0 2
tables_of-IsHop_example =
    tables_of-IsHop triangle triangle-IsNetwork 0 2 (omega arith) (omega arith)
