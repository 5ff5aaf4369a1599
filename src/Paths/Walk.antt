-- ===== src/Paths/Walk.antt =====
-- The weights in the tables of `compute_paths` are those of walks in the network.
use p2p_vn.Base.{
  ℕ, zero, suc, ◌<◌, ◌≤◌, ◌≡◌, ◌≢◌, refl, sym, ap, subst, arith, List, length, inl, inr,
}
use p2p_vn.Paths.{Links, at, tables_of, via_cost}
use p2p_vn.Paths.Round.{Cell, Grid, relax_cell_cases}
use p2p_vn.Paths.Simultaneous.{rounds}
use p2p_vn.Paths.Seed.{IsNetwork, weight, direct, tables_of-rounds}

-- A walk from host `a` to host `b`: a link, or two walks whose weights are added as the code adds
-- them.
pub data Walk (hosts : List Links) : ℕ → ℕ → ℕ → Type 0 where
  link : {a b w : ℕ} → w ≡ weight hosts a b → w ≢ 0 → Walk hosts a b w
  join :
      {a b w : ℕ} (k v u : ℕ)
      → k < length hosts
      → Walk hosts a k v
      → Walk hosts k b u
      → w ≡ via_cost v u
      → Walk hosts a b w

module _ (hosts : List Links) where
  rounds-Walk :
      (k a b : ℕ)
      → k ≤ length hosts
      → (rounds k (direct hosts) a b).dist ≢ 0
      → Walk hosts a b (rounds k (direct hosts) a b).dist
  unfolding rounds
  rounds-Walk zero a b hk h = link refl h
  rounds-Walk (suc k) a b hk h =
      let g : Grid = rounds k (direct hosts) in
      elim (relax_cell_cases k (g a k).dist (g k b).dist (g a b)) [
        | inl e ↦
            let kept = ap (λ (c : Cell). c.dist) e in
            subst (Walk hosts a b) (sym kept) (rounds-Walk k a b (omega arith) (λ z. h (rw e z)))
        | inr (np, nq, lower, e) ↦
            let set = ap (λ (c : Cell). c.dist) e in
            subst (Walk hosts a b) (sym set) (
              join k _ _ (omega arith) (rounds-Walk k a k (omega arith) np)
                (rounds-Walk k k b (omega arith) nq) refl)
      ]

  -- For links between hosts of the network, every non-zero entry of the final table is the weight
  -- of a walk over links of the network, weights being added as the code adds them.
  pub tables_of-Walk :
      IsNetwork hosts
      → (a b : ℕ) → a < length hosts
      → b < length hosts
      → at (tables_of hosts).path a b ≢ 0
      → Walk hosts a b (at (tables_of hosts).path a b)
  tables_of-Walk net a b ha hb h =
      let e = ap (λ (c : Cell). c.dist) (tables_of-rounds hosts net a b ha hb) in
      subst (Walk hosts a b) (sym e)
        (rounds-Walk (length hosts) a b (omega arith) (λ z. h (omega (arith, e, z))))
