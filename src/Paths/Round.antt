-- ===== src/Paths/Round.antt =====
-- One round `k` of the loops of `compute_paths`, against the relaxation of all cells at once. The
-- loops write into the table that they read; row and column `k` do not change in round `k`, since
-- the cells of the diagonal hold PATH_MIN.
use p2p_vn.Base.{
  ℕ, suc, ◌<◌, ◌≤◌, ◌≡◌, ◌≢◌, refl, subst, ap, ◌∙◌, Bool, true, false, ◌||◌, ◌&&◌, arith, ltb, ◌==◌,
  if◌then◌else◌, ◌⊎◌, inl, inr, Bool-cases, ==→eq, ==→ne, ltb→lt, count_up, count_up_inv,
}
use p2p_vn.Paths.{Tables, at, via_cost, u32_mod, relax, round}
use p2p_vn.Paths.Matrix.{IsTables, at-put_self, at-put_ne, put-IsSquare}
use p2p_vn.Paths.Cost.{via_cost-ge_left, via_cost-ge_right, via_cost-lt, via_cost-pos}

pub record Cell : Type 0 where
  pub dist : ℕ
  pub hop : ℕ

abbrev pub Grid : Type 0
Grid = ℕ → ℕ → Cell

abbrev pub cell : Tables → Grid
cell t i j = record { dist = at t.path i j; hop = at t.next i j }

-- What the two tests of the loop body make of a cell `c`, given `path[i][k]` and `path[k][j]`.
unfoldable pub relax_cell : (k p q : ℕ) → Cell → Cell
relax_cell k p q c =
    if p == 0 || q == 0
    then c
    else if ltb (via_cost p q) c.dist
    then record { dist = via_cost p q; hop = k }
    else c

abbrev pub relaxed : ℕ → Grid → Grid
relaxed k g i j = relax_cell k (g i k).dist (g k j).dist (g i j)

-- Weights fit `uint32_t`, and the diagonal holds PATH_MIN.
pub record IsSeeded (n : ℕ) (g : Grid) : Type 0 where
  pub small : (i j : ℕ) → i < n → j < n → (g i j).dist < u32_mod
  pub diag : (i : ℕ) → i < n → (g i i).dist ≡ 1

-- A cell is left alone, or it gets the weight over `k`, which is lower.
pub relax_cell_cases :
    (k p q : ℕ) (c : Cell)
    → (relax_cell k p q c ≡ c)
      ⊎ ((p ≢ 0)
          × (q ≢ 0)
          × (via_cost p q < c.dist)
          × (relax_cell k p q c ≡ record { dist = via_cost p q; hop = k }))
unfolding relax_cell
relax_cell_cases k p q c = elim (Bool-cases (p == 0 || q == 0)) [
  | inl e ↦ inl (rw e)
  | inr e ↦ elim (Bool-cases (ltb (via_cost p q) c.dist)) [
    | inr f ↦ inl (rw (e, f))
    | inl f ↦ inr (ground arith, ground arith, ltb→lt (via_cost p q) c.dist f, rw (e, f))
  ]
]

pub relax_cell-le : (k p q : ℕ) (c : Cell) → (relax_cell k p q c).dist ≤ c.dist
unfolding relax_cell
relax_cell-le k p q c = ground arith

-- The new weight is at most that over `k`.
pub relax_cell-le_via :
    (k p q : ℕ) (c : Cell)
    → p < u32_mod
    → q < u32_mod
    → p ≢ 0
    → q ≢ 0
    → (relax_cell k p q c).dist ≤ via_cost p q
unfolding relax_cell
relax_cell-le_via k p q c hp hq np nq = ground arith

relax_cell-row : (k q : ℕ) (c : Cell) → c.dist < u32_mod → c.dist ≡ q → relax_cell k 1 q c ≡ c
unfolding relax_cell
relax_cell-row k q c h e =
    ground (arith, via_cost-ge_right 1 q (omega arith) (omega arith) (omega arith))

relax_cell-col : (k p : ℕ) (c : Cell) → c.dist < u32_mod → c.dist ≡ p → relax_cell k p 1 c ≡ c
unfolding relax_cell
relax_cell-col k p c h e = ground (arith, via_cost-ge_left p 1 (omega arith) (omega arith))

module _ {n : ℕ} {g : Grid} (seeded : IsSeeded n g) (k : ℕ) (hk : k < n) where
  pub relaxed-row : (j : ℕ) → j < n → relaxed k g k j ≡ g k j
  relaxed-row j hj =
      ap (λ p. relax_cell k p (g k j).dist (g k j)) (seeded.diag k hk)
      ∙ relax_cell-row k (g k j).dist (g k j) (seeded.small k j hk hj) refl

  pub relaxed-col : (i : ℕ) → i < n → relaxed k g i k ≡ g i k
  relaxed-col i hi =
      ap (λ q. relax_cell k (g i k).dist q (g i k)) (seeded.diag k hk)
      ∙ relax_cell-col k (g i k).dist (g i k) (seeded.small i k hi hk) refl

  relax_cell-one :
      (p q : ℕ) (c : Cell) → p < u32_mod → q < u32_mod → c.dist ≡ 1 → (relax_cell k p q c).dist ≡ 1
  unfolding relax_cell
  relax_cell-one p q c hp hq hc = ground (arith, via_cost-pos p q hp hq)

  relax_cell-small :
      (p q : ℕ) (c : Cell)
      → p < u32_mod
      → q < u32_mod
      → c.dist < u32_mod
      → (relax_cell k p q c).dist < u32_mod
  unfolding relax_cell
  relax_cell-small p q c hp hq hc = ground (arith, via_cost-lt p q hp hq)

  pub relaxed-IsSeeded : IsSeeded n (relaxed k g)
  relaxed-IsSeeded = record {
    small = λ i j hi hj.
        relax_cell-small _ _ (g i j) (seeded.small i k hi hk) (seeded.small k j hk hj)
          (seeded.small i j hi hj);
    diag = λ i hi.
        relax_cell-one _ _ (g i i) (seeded.small i k hi hk) (seeded.small k i hk hi)
          (seeded.diag i hi);
  }

-- The loop body on the cell that it is at, and on the others.
module _ {n : ℕ} {t : Tables} (sq : IsTables n t) (k i j : ℕ) (hi : i < n) (hj : j < n) where
  relax_self : cell (relax k i j t) i j ≡ relax_cell k (at t.path i k) (at t.path k j) (cell t i j)
  unfolding relax relax_cell
  relax_self = ground (
    arith,
    at-put_self n t.path sq.path_square i j (via_cost (at t.path i k) (at t.path k j)) hi hj,
    at-put_self n t.next sq.next_square i j k hi hj,
  )

  relax-other : (a b : ℕ) → (i ≢ a) ⊎ (j ≢ b) → cell (relax k i j t) a b ≡ cell t a b
  unfolding relax
  relax-other a b h = ground (
    arith,
    at-put_ne n t.path sq.path_square i j (via_cost (at t.path i k) (at t.path k j)) a b hi h,
    at-put_ne n t.next sq.next_square i j k a b hi h,
  )

  relax-IsTables : IsTables n (relax k i j t)
  unfolding relax
  relax-IsTables = elim (Bool-cases (at t.path i k == 0 || at t.path k j == 0)) [
    | inl e ↦ rw e sq
    | inr e ↦
        rw e (elim (Bool-cases (ltb (via_cost (at t.path i k) (at t.path k j)) (at t.path i j))) [
          | inr f ↦ rw f sq
          | inl f ↦ rw f (record {
            path_square = put-IsSquare n t.path sq.path_square i j _ hi;
            next_square = put-IsSquare n t.next sq.next_square i j _ hi;
          })
        ])
  ]

-- The cells that the loops have passed when they are at `(i, x)`.
abbrev passed : (i x a b : ℕ) → Bool
passed i x a b = ltb a i || (a == i && ltb b x)

abbrev pick : Bool → Cell → Cell → Cell
pick b u v = if b then u else v

pick_same : (b : Bool) (u v : Cell) → u ≡ v → pick b u v ≡ v
pick_same true u v e = e
pick_same false u v e = refl

passed_next : (i x a b : ℕ) → (i ≢ a) ⊎ (x ≢ b) → passed i x a b ≡ passed i (suc x) a b
passed_next i x a b h = ground arith

passed_here : (i x : ℕ) → passed i x i x ≡ false
passed_here i x = ground arith

passed_start : (a b : ℕ) → passed 0 0 a b ≡ false
passed_start a b = ground arith

passed_all : (n a b : ℕ) → a < n → passed n 0 a b ≡ true
passed_all n a b h = ground arith

passed_end : (n i a b : ℕ) → b < n → passed i n a b ≡ passed (suc i) 0 a b
passed_end n i a b h = ground arith

-- The loops of round `k` over the table `start` are at `(i, x)`: the cells passed are relaxed.
record Inv (n k : ℕ) (start : Tables) (i x : ℕ) (t : Tables) : Type 0 where
  square : IsTables n t
  cells :
      (a b : ℕ)
      → a < n
      → b < n
      → cell t a b ≡ pick (passed i x a b) (relaxed k (cell start) a b) (cell start a b)

module _ {n : ℕ} {start : Tables} (seeded : IsSeeded n (cell start)) (k : ℕ) (hk : k < n) where
  module _ (i x : ℕ) (t : Tables) (hi : i < n) (hx : x < n) (inv : Inv n k start i x t) where
    reached : cell (relax k i x t) i x ≡ relaxed k (cell start) i x
    reached =
        relax_self inv.square k i x hi hx
        ∙ ap (λ c. relax_cell k c.dist (cell t k x).dist (cell t i x))
            (inv.cells i k hi hk ∙ pick_same _ _ _ (relaxed-col seeded k hk i hi))
        ∙ ap (λ c. relax_cell k (cell start i k).dist c.dist (cell t i x))
            (inv.cells k x hk hx ∙ pick_same _ _ _ (relaxed-row seeded k hk x hx))
        ∙ ap (relax_cell k (cell start i k).dist (cell start k x).dist) (inv.cells i x hi hx ∙ here)
      where
        here : pick (passed i x i x) (relaxed k (cell start) i x) (cell start i x) ≡ cell start i x
        here = ap (λ p. pick p (relaxed k (cell start) i x) (cell start i x)) (passed_here i x)

    relax-Inv : Inv n k start i (suc x) (relax k i x t)
    relax-Inv = record {
      square = relax-IsTables inv.square k i x hi hx;
      cells = λ a b ha hb. elim (Bool-cases (i == a && x == b)) [
        | inl e ↦ same a b (==→eq i a (ground arith)) (==→eq x b (ground arith))
        | inr e ↦ other a b ha hb (apart a b e)
      ];
    }
      where
        apart : (a b : ℕ) → (i == a && x == b) ≡ false → (i ≢ a) ⊎ (x ≢ b)
        apart a b e = elim (Bool-cases (i == a)) [
          | inr f ↦ inl (==→ne i a f)
          | inl f ↦ inr (==→ne x b (ground arith))
        ]

        same :
            (a b : ℕ)
            → i ≡ a
            → x ≡ b
            → cell (relax k i x t) a b
              ≡ pick (passed i (suc x) a b) (relaxed k (cell start) a b) (cell start a b)
        same a b ea eb =
            let p : passed i (suc x) a b ≡ true = ground arith in
            rw p (
              subst (λ y. cell (relax k i x t) y b ≡ relaxed k (cell start) y b) ea
                (subst (λ y. cell (relax k i x t) i y ≡ relaxed k (cell start) i y) eb reached))

        other :
            (a b : ℕ)
            → a < n
            → b < n
            → (i ≢ a) ⊎ (x ≢ b)
            → cell (relax k i x t) a b
              ≡ pick (passed i (suc x) a b) (relaxed k (cell start) a b) (cell start a b)
        other a b ha hb h =
            relax-other inv.square k i x hi hx a b h
            ∙ inv.cells a b ha hb
            ∙ ap (λ p. pick p (relaxed k (cell start) a b) (cell start a b)) (passed_next i x a b h)

  row-Inv :
      (i : ℕ) (t : Tables)
      → i < n
      → Inv n k start i 0 t
      → Inv n k start (suc i) 0 (count_up (λ j. relax k i j) n 0 t)
  row-Inv i t hi inv =
      let done : Inv n k start i n (count_up (λ j. relax k i j) n 0 t) =
        count_up_inv (Inv n k start i) (λ j. relax k i j) n (λ x s hx v. relax-Inv i x s hi hx v) n
          0 t (omega arith) inv in
      record {
        square = done.square;
        cells = λ a b ha hb.
            done.cells a b ha hb
            ∙ ap (λ p. pick p (relaxed k (cell start) a b) (cell start a b))
                (passed_end n i a b hb);
      }

  rounds-Inv : IsTables n start → Inv n k start n 0 (round n k start)
  unfolding round
  rounds-Inv sq =
      count_up_inv (λ i. Inv n k start i 0) (λ i. count_up (λ j. relax k i j) n 0) n
        (λ i s hi v. row-Inv i s hi v) n 0 start (omega arith)
        (record { square = sq; cells = λ a b ha hb. rw (passed_start a b) })

  pub round-IsTables : IsTables n start → IsTables n (round n k start)
  round-IsTables sq = (rounds-Inv sq).square

  -- A round in place relaxes every cell by the values from before the round.
  pub round-relaxed :
      IsTables n start
      → (a b : ℕ) → a < n
      → b < n
      → cell (round n k start) a b ≡ relaxed k (cell start) a b
  round-relaxed sq a b ha hb =
      (rounds-Inv sq).cells a b ha hb
      ∙ ap (λ p. pick p (relaxed k (cell start) a b) (cell start a b)) (passed_all n a b ha)
