-- ===== src/Paths/Cost.antt =====
-- The sum of two path weights in `compute_paths`: wrap-around, saturation and the "len hack".
use p2p_vn.Base.{ℕ, ◌+◌, ◌≤◌, ◌<◌, ◌≡◌, ◌≢◌, arith}
use p2p_vn.Paths.{via_cost, path_max, u32_mod}

module _ (p q : ℕ) (hp : p < u32_mod) (hq : q < u32_mod) (np : p ≢ 0) (nq : q ≢ 0) where
  pub via_cost-lt : via_cost p q < u32_mod
  unfolding via_cost
  via_cost-lt = ground arith

  pub via_cost-pos : via_cost p q ≢ 0
  unfolding via_cost
  via_cost-pos = ground arith

  pub via_cost-ge_left : p ≤ via_cost p q
  unfolding via_cost
  via_cost-ge_left = ground arith

  pub via_cost-ge_right : q ≤ via_cost p q
  unfolding via_cost
  via_cost-ge_right = ground arith

  pub via_cost-le : via_cost p q ≤ p + q
  unfolding via_cost
  via_cost-le = ground arith

  -- With a weight above 1 on one side, a sum that is not saturated is exact.
  pub via_cost-exact : via_cost p q < path_max → 2 < p + q → via_cost p q ≡ p + q
  unfolding via_cost
  via_cost-exact h g = ground arith
