-- ===== src/Paths/Mesh.antt =====
-- `compute_paths` in a full mesh, where every host has a link to every other: there the test against
-- PATH_DISCON plays no part, and the loops do find the shortest paths.
use p2p_vn.Base.{
  ℕ, zero, suc, ◌+◌, ◌<◌, ◌≤◌, ◌≡◌, ◌≢◌, refl, sym, ap, subst, ◌∙◌, ◌⊎◌, arith, List, length, inl,
  inr, ◌==◌, Bool-cases, ==→eq, ==→ne,
}
use p2p_vn.Paths.{Links, at, tables_of}
use p2p_vn.Paths.Cost.{via_cost-exact, via_cost-le}
use p2p_vn.Paths.Round.{
  Cell, Grid, IsSeeded, relax_cell_cases, relax_cell-le, relax_cell-le_via, relaxed, relaxed-row,
  relaxed-col, relaxed-IsSeeded,
}
use p2p_vn.Paths.Simultaneous.{rounds}
use p2p_vn.Paths.Reach.{rounds-le}
use p2p_vn.Paths.Seed.{IsNetwork, weight, direct, tables_of-rounds}

-- Two different hosts are linked, with a weight above 1.
pub record IsMesh (n : ℕ) (g : Grid) : Type 0 where
  pub seeded : IsSeeded n g
  pub linked : (a b : ℕ) → a < n → b < n → a ≢ b → 1 < (g a b).dist

module _ {n : ℕ} {g : Grid} (mesh : IsMesh n g) where
  Mesh-pos : (a b : ℕ) → a < n → b < n → (g a b).dist ≢ 0
  Mesh-pos a b ha hb z = elim (Bool-cases (a == b)) [
    | inl e ↦
        let d : (g a a).dist ≡ 0 = subst (λ x. (g a x).dist ≡ 0) (sym (==→eq a b e)) z in
        omega (arith, mesh.seeded.diag a ha)
    | inr e ↦ omega (arith, mesh.linked a b ha hb (==→ne a b e))
  ]

  -- The weight over `k` between two hosts of which one differs from `k`.
  Mesh-sum : (a b k : ℕ) → a < n → b < n → k < n → a ≢ b → 2 < (g a k).dist + (g k b).dist
  Mesh-sum a b k ha hb hk h = elim (Bool-cases (a == k)) [
    | inl e ↦
        let far = mesh.linked k b hk hb (λ c. h (omega (arith, ==→eq a k e, c))) in
        omega (arith, far, Mesh-pos a k ha hk)
    | inr e ↦ omega (arith, mesh.linked a k ha hk (==→ne a k e), Mesh-pos k b hk hb)
  ]

  module _ (k : ℕ) (hk : k < n) where
    -- A round replaces a weight by an exact sum, if it replaces it.
    relaxed_cases :
        (a b : ℕ)
        → a < n
        → b < n
        → a ≢ b
        → ((relaxed k g a b).dist ≡ (g a b).dist)
          ⊎ ((relaxed k g a b).dist ≡ (g a k).dist + (g k b).dist)
    relaxed_cases a b ha hb h = elim (relax_cell_cases k (g a k).dist (g k b).dist (g a b)) [
      | inl e ↦ inl (ap (λ (c : Cell). c.dist) e)
      | inr (np, nq, lower, e) ↦
          let sum =
            via_cost-exact (g a k).dist (g k b).dist (mesh.seeded.small a k ha hk)
              (mesh.seeded.small k b hk hb) np nq in
          inr (
            ap (λ (c : Cell). c.dist) e
            ∙ sum (omega (arith, lower, mesh.seeded.small a b ha hb)) (Mesh-sum a b k ha hb hk h))
    ]

    relaxed-le_sum :
        (a b : ℕ) → a < n → b < n → (relaxed k g a b).dist ≤ (g a k).dist + (g k b).dist
    relaxed-le_sum a b ha hb =
        let p = mesh.seeded.small a k ha hk in
        let q = mesh.seeded.small k b hk hb in
        let np = Mesh-pos a k ha hk in
        let nq = Mesh-pos k b hk hb in
        omega (
          arith,
          relax_cell-le_via k (g a k).dist (g k b).dist (g a b) p q np nq,
          via_cost-le (g a k).dist (g k b).dist p q np nq,
        )

    relaxed-IsMesh : IsMesh n (relaxed k g)
    relaxed-IsMesh = record {
      seeded = relaxed-IsSeeded mesh.seeded k hk;
      linked = λ a b ha hb h. elim (relaxed_cases a b ha hb h) [
        | inl e ↦ omega (arith, e, mesh.linked a b ha hb h)
        | inr e ↦ omega (arith, e, Mesh-sum a b k ha hb hk h)
      ];
    }

-- No detour over a host below `k` is shorter.
abbrev IsClosed : (n k : ℕ) → Grid → Type 0
IsClosed n k g =
    (a b m : ℕ) → a < n → b < n → m < n → m < k → (g a b).dist ≤ (g a m).dist + (g m b).dist

-- What round `k` makes of the two legs of a detour over `m`.
Leg : Grid → (k a m : ℕ) → Type 0
Leg g k a m =
    ((relaxed k g a m).dist ≡ (g a m).dist) ⊎ ((relaxed k g a m).dist ≡ (g a k).dist + (g k m).dist)

module _ {n : ℕ} {g : Grid} (mesh : IsMesh n g) (k : ℕ) (hk : k < n) (closed : IsClosed n k g) where
  leg : (a m : ℕ) → a < n → m < n → Leg g k a m
  unfolding Leg
  leg a m ha hm = elim (Bool-cases (a == m)) [
    | inr e ↦ relaxed_cases mesh k hk a m ha hm (==→ne a m e)
    | inl e ↦
        let same : a ≡ m = ==→eq a m e in
        let at_diag : (relaxed k g a a).dist ≡ (g a a).dist =
          (relaxed-IsSeeded mesh.seeded k hk).diag a ha ∙ sym (mesh.seeded.diag a ha) in
        inl (subst (λ x. (relaxed k g a x).dist ≡ (g a x).dist) same at_diag)
  ]

  detour :
      (a b m : ℕ)
      → a < n
      → b < n
      → m < n
      → m < k
      → (relaxed k g a b).dist ≤ (relaxed k g a m).dist + (relaxed k g m b).dist
  unfolding Leg
  detour a b m ha hb hm lower =
      let le = relax_cell-le k (g a k).dist (g k b).dist (g a b) in
      let via = relaxed-le_sum mesh k hk a b ha hb in
      let direct_m = closed a b m ha hb hm lower in
      let to_k = closed a k m ha hk hm lower in
      let from_k = closed k b m hk hb hm lower in
      elim (leg a m ha hm) [
        | inl e ↦ elim (leg m b hm hb) [ inl f ↦ omega arith | inr f ↦ omega arith ]
        | inr e ↦ elim (leg m b hm hb) [ inl f ↦ omega arith | inr f ↦ omega arith ]
      ]

  over_k :
      (a b : ℕ)
      → a < n
      → b < n
      → (relaxed k g a b).dist ≤ (relaxed k g a k).dist + (relaxed k g k b).dist
  over_k a b ha hb = omega (
    arith,
    relaxed-le_sum mesh k hk a b ha hb,
    ap (λ (c : Cell). c.dist) (relaxed-col mesh.seeded k hk a ha),
    ap (λ (c : Cell). c.dist) (relaxed-row mesh.seeded k hk b hb),
  )

  relaxed-IsClosed : IsClosed n (suc k) (relaxed k g)
  relaxed-IsClosed a b m ha hb hm h = elim (Bool-cases (m == k)) [
    | inr e ↦ let lower : m < k = omega (arith, ==→ne m k e) in detour a b m ha hb hm lower
    | inl e ↦
        subst (λ x. (relaxed k g a b).dist ≤ (relaxed k g a x).dist + (relaxed k g x b).dist)
          (sym (==→eq m k e)) (over_k a b ha hb)
  ]

rounds-IsMesh : (n k : ℕ) (g : Grid) → k ≤ n → IsMesh n g → IsMesh n (rounds k g)
unfolding rounds
rounds-IsMesh n zero g h m = m
rounds-IsMesh n (suc k) g h m = relaxed-IsMesh (rounds-IsMesh n k g (omega arith) m) k (omega arith)

rounds-IsClosed : (n k : ℕ) (g : Grid) → k ≤ n → IsMesh n g → IsClosed n k (rounds k g)
unfolding rounds
rounds-IsClosed n zero g h mesh a b m ha hb hm lower = absurd (omega arith)
rounds-IsClosed n (suc k) g h mesh a b m ha hb hm lower =
    relaxed-IsClosed (rounds-IsMesh n k g (omega arith) mesh) k (omega arith)
      (rounds-IsClosed n k g (omega arith) mesh) a b m ha hb hm lower

-- A trip from `a` to `b`: a link, or two trips whose weights are added without bound.
pub data Trip (hosts : List Links) : ℕ → ℕ → ℕ → Type 0 where
  leap : {a b w : ℕ} → a < length hosts → b < length hosts → w ≡ weight hosts a b → Trip hosts a b w
  then_on :
      {a b w : ℕ} (k v u : ℕ)
      → k < length hosts
      → Trip hosts a k v
      → Trip hosts k b u
      → w ≡ v + u
      → Trip hosts a b w

Trip-start : {hosts : List Links} {a b w : ℕ} → Trip hosts a b w → a < length hosts
Trip-start (leap ha hb e) = ha
Trip-start (then_on k v u hk p q e) = Trip-start p

Trip-end : {hosts : List Links} {a b w : ℕ} → Trip hosts a b w → b < length hosts
Trip-end (leap ha hb e) = hb
Trip-end (then_on k v u hk p q e) = Trip-end q

module _ (hosts : List Links) (mesh : IsMesh (length hosts) (direct hosts)) where
  Trip-le : {a b w : ℕ} → Trip hosts a b w → (rounds (length hosts) (direct hosts) a b).dist ≤ w
  Trip-le {a} {b} (leap ha hb e) = omega (arith, rounds-le (direct hosts) (length hosts) a b, e)
  Trip-le {a} {b} (then_on k v u hk p q e) = omega (
    arith,
    rounds-IsClosed (length hosts) (length hosts) (direct hosts) (omega arith) mesh a b k
        (Trip-start p) (Trip-end q) hk hk,
    Trip-le p,
    Trip-le q,
  )

  rounds-Trip :
      (k a b : ℕ)
      → k ≤ length hosts
      → a < length hosts
      → b < length hosts
      → Trip hosts a b (rounds k (direct hosts) a b).dist
  unfolding rounds Leg
  rounds-Trip zero a b hk ha hb = leap ha hb refl
  rounds-Trip (suc k) a b hk ha hb =
      let n = length hosts in
      let m = rounds-IsMesh n k (direct hosts) (omega arith) mesh in
      elim (leg m k (omega arith) (rounds-IsClosed n k (direct hosts) (omega arith) mesh) a b ha
        hb) [
          | inl e ↦ subst (Trip hosts a b) (sym e) (rounds-Trip k a b (omega arith) ha hb)
          | inr e ↦
              then_on k _ _ (omega arith) (rounds-Trip k a k (omega arith) ha (omega arith))
                (rounds-Trip k k b (omega arith) (omega arith) hb) e
        ]

  -- In a full mesh of hosts of the network whose links all weigh more than 1, the final table
  -- holds for two hosts the weight of some trip between them, and no trip between them weighs
  -- less.
  pub tables_of_shortest :
      IsNetwork hosts
      → (a b w : ℕ) → a < length hosts
      → b < length hosts
      → Trip hosts a b w
      → Trip hosts a b (at (tables_of hosts).path a b) × (at (tables_of hosts).path a b ≤ w)
  tables_of_shortest net a b w ha hb trip =
      let e = ap (λ (c : Cell). c.dist) (tables_of-rounds hosts net a b ha hb) in
      (
        subst (Trip hosts a b) (sym e) (rounds-Trip (length hosts) a b (omega arith) ha hb),
        omega (arith, e, Trip-le trip),
      )
