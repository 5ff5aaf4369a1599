-- ===== src/Paths/Reach.antt =====
-- Which pairs of hosts the tables of `compute_paths` connect.
use p2p_vn.Base.{ℕ, zero, suc, ◌<◌, ◌≤◌, ◌≡◌, ◌↔◌, ap, arith, List, length}
use p2p_vn.Paths.{Links, at, tables_of, u32_mod}
use p2p_vn.Paths.Cost.{via_cost-pos}
use p2p_vn.Paths.Round.{Cell, Grid, relax_cell, relax_cell-le, IsSeeded}
use p2p_vn.Paths.Simultaneous.{rounds, rounds-IsSeeded}
use p2p_vn.Paths.Seed.{IsNetwork, weight, direct, direct-IsSeeded, tables_of-rounds}

pub relax_cell-zero :
    (k p q : ℕ) (c : Cell)
    → p < u32_mod
    → q < u32_mod
    → ((relax_cell k p q c).dist ≡ 0) ↔ (c.dist ≡ 0)
unfolding relax_cell
relax_cell-zero k p q c hp hq = (λ h. ground (arith, via_cost-pos p q hp hq), λ h. ground arith)

module _ {n : ℕ} {g : Grid} (seeded : IsSeeded n g) where
  -- A round neither connects a pair of hosts nor separates one.
  pub rounds-zero :
      (k a b : ℕ) → k ≤ n → a < n → b < n → ((rounds k g a b).dist ≡ 0) ↔ ((g a b).dist ≡ 0)
  unfolding rounds
  rounds-zero zero a b hk ha hb = (λ h. h, λ h. h)
  rounds-zero (suc k) a b hk ha hb =
      let s = rounds-IsSeeded n k g (omega arith) seeded in
      let one =
        relax_cell-zero k _ _ (rounds k g a b) (s.small a k ha (omega arith))
          (s.small k b (omega arith) hb) in
      let rest = rounds-zero k a b (omega arith) ha hb in
      (λ h. rest.0 (one.0 h), λ h. one.1 (rest.1 h))

pub rounds-le : (g : Grid) (k a b : ℕ) → (rounds k g a b).dist ≤ (g a b).dist
unfolding rounds
rounds-le g zero a b = omega arith
rounds-le g (suc k) a b = omega (
  arith,
  rounds-le g k a b,
  relax_cell-le k (rounds k g a k).dist (rounds k g k b).dist (rounds k g a b),
)

-- For links between hosts of the network, the final table has no path from one host to another
-- (its entry is PATH_DISCON) exactly if the weight of the link from the one to the other is 0;
-- that weight is 1 from a host to itself and 0 where there is no link.
pub tables_of-no_link :
    (hosts : List Links)
    → IsNetwork hosts
    → (a b : ℕ) → a < length hosts
    → b < length hosts
    → (at (tables_of hosts).path a b ≡ 0) ↔ (weight hosts a b ≡ 0)
tables_of-no_link hosts net a b ha hb =
    let e = ap (λ c. c.dist) (tables_of-rounds hosts net a b ha hb) in
    rw e (rounds-zero (direct-IsSeeded hosts net) (length hosts) a b (omega arith) ha hb)

-- No entry of the final table is above the weight of the link.
pub tables_of-le :
    (hosts : List Links)
    → IsNetwork hosts
    → (a b : ℕ) → a < length hosts
    → b < length hosts
    → at (tables_of hosts).path a b ≤ weight hosts a b
tables_of-le hosts net a b ha hb =
    let e = ap (λ c. c.dist) (tables_of-rounds hosts net a b ha hb) in
    rw e (rounds-le (direct hosts) (length hosts) a b)
