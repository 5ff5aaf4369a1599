-- ===== src/Paths/Simultaneous.antt =====
-- The loops of `compute_paths` against the textbook recursion, in which each round reads only the
-- table of the round before.
use p2p_vn.Base.{ℕ, zero, suc, ◌≤◌, ◌<◌, ◌≡◌, refl, sym, ap, ◌∙◌, arith, count_up_inv}
use p2p_vn.Paths.{Tables, round, floyd}
use p2p_vn.Paths.Matrix.{IsTables}
use p2p_vn.Paths.Round.{
  Grid, cell, relax_cell, relaxed, IsSeeded, relaxed-IsSeeded, round-IsTables, round-relaxed,
}

-- The table after the first `k` rounds.
unfoldable pub rounds : ℕ → Grid → Grid
rounds zero g = g
rounds (suc k) g = relaxed k (rounds k g)

-- Two grids agree on the `n` by `n` cells.
abbrev pub Agree : ℕ → Grid → Grid → Type 0
Agree n g h = (a b : ℕ) → a < n → b < n → g a b ≡ h a b

relaxed-Agree : (n k : ℕ) (g h : Grid) → k < n → Agree n g h → Agree n (relaxed k g) (relaxed k h)
relaxed-Agree n k g h hk e a b ha hb =
    ap (λ c. relax_cell k c.dist (g k b).dist (g a b)) (e a k ha hk)
    ∙ ap (λ c. relax_cell k (h a k).dist c.dist (g a b)) (e k b hk hb)
    ∙ ap (relax_cell k (h a k).dist (h k b).dist) (e a b ha hb)

pub IsSeeded-Agree : (n : ℕ) (g h : Grid) → Agree n g h → IsSeeded n g → IsSeeded n h
IsSeeded-Agree n g h e s = record {
  small = λ i j hi hj. rw (← e i j hi hj) (s.small i j hi hj);
  diag = λ i hi. rw (← e i i hi hi) (s.diag i hi);
}

pub rounds-IsSeeded : (n k : ℕ) (g : Grid) → k ≤ n → IsSeeded n g → IsSeeded n (rounds k g)
unfolding rounds
rounds-IsSeeded n zero g h s = s
rounds-IsSeeded n (suc k) g h s =
    relaxed-IsSeeded (rounds-IsSeeded n k g (omega arith) s) k (omega arith)

pub rounds-Agree : (n k : ℕ) (g h : Grid) → k ≤ n → Agree n g h → Agree n (rounds k g) (rounds k h)
unfolding rounds
rounds-Agree n zero g h hk e = e
rounds-Agree n (suc k) g h hk e =
    relaxed-Agree n k (rounds k g) (rounds k h) (omega arith) (rounds-Agree n k g h (omega arith) e)

record Inv (n : ℕ) (t : Tables) (k : ℕ) (s : Tables) : Type 0 where
  square : IsTables n s
  agree : Agree n (cell s) (rounds k (cell t))

module _ {n : ℕ} {t : Tables} (sq : IsTables n t) (seeded : IsSeeded n (cell t)) where
  round-Inv : (k : ℕ) (s : Tables) → k < n → Inv n t k s → Inv n t (suc k) (round n k s)
  unfolding rounds
  round-Inv k s hk inv = record {
    square = round-IsTables seeded' k hk inv.square;
    agree = λ a b ha hb.
        round-relaxed seeded' k hk inv.square a b ha hb
        ∙ relaxed-Agree n k (cell s) (rounds k (cell t)) hk inv.agree a b ha hb;
  }
    where
      seeded' : IsSeeded n (cell s)
      seeded' =
          IsSeeded-Agree n (rounds k (cell t)) (cell s) (λ a b ha hb. sym (inv.agree a b ha hb))
            (rounds-IsSeeded n k (cell t) (omega arith) seeded)

  floyd-Inv : Inv n t n (floyd n t)
  unfolding floyd rounds
  floyd-Inv =
      count_up_inv (Inv n t) (round n) n (λ k s hk v. round-Inv k s hk v) n 0 t (omega arith)
        (record { square = sq; agree = λ a b ha hb. refl })

  pub floyd-IsTables : IsTables n (floyd n t)
  floyd-IsTables = floyd-Inv.square

  pub floyd-rounds : Agree n (cell (floyd n t)) (rounds n (cell t))
  floyd-rounds = floyd-Inv.agree
