-- ===== src/Paths/Matrix.antt =====
-- Reads and writes of the tables `path` and `next`.
use p2p_vn.Base.{
  ℕ, ◌<◌, ◌≡◌, ◌≢◌, ap, ◌∙◌, [], arith, length, get_or, replicate, All, length-set,
  length-replicate, get_or-set_self, get_or-set_ne, get_or-replicate_in, All-get_or, All-set,
  All-replicate, ◌⊎◌, inl, inr, ◌==◌, Bool-cases, ==→eq, ==→ne,
}
use p2p_vn.Paths.{Matrix, at, put, Tables}

-- `n` rows of `n` cells.
pub record IsSquare (n : ℕ) (m : Matrix) : Type 0 where
  pub rows : length m ≡ n
  pub row : All (λ r. length r ≡ n) m

pub record IsTables (n : ℕ) (t : Tables) : Type 0 where
  pub path_square : IsSquare n t.path
  pub next_square : IsSquare n t.next

module _ (n : ℕ) (m : Matrix) (sq : IsSquare n m) where
  pub length-row : (i : ℕ) → i < n → length (get_or m i []) ≡ n
  length-row i h =
      let h' : i < length m = omega (arith, sq.rows) in
      All-get_or (λ r. length r ≡ n) m i [] h' sq.row

  pub at-put_self : (i j v : ℕ) → i < n → j < n → at (put m i j v) i j ≡ v
  at-put_self i j v hi hj =
      ap (λ r. get_or r j 0) (get_or-set_self m i _ [] (omega (arith, sq.rows)))
      ∙ get_or-set_self (get_or m i []) j v 0 (omega (arith, length-row i hi))

  pub at-put_col : (i j v b : ℕ) → i < n → j ≢ b → at (put m i j v) i b ≡ at m i b
  at-put_col i j v b hi h =
      ap (λ r. get_or r b 0) (get_or-set_self m i _ [] (omega (arith, sq.rows)))
      ∙ get_or-set_ne (get_or m i []) j b v 0 h

  pub put-IsSquare : (i j v : ℕ) → i < n → IsSquare n (put m i j v)
  put-IsSquare i j v hi = record {
    rows = length-set m i _ ∙ sq.rows;
    row =
        All-set (λ r. length r ≡ n) m i _ (length-set (get_or m i []) j v ∙ length-row i hi) sq.row;
  }

pub at-put_row : (m : Matrix) (i j v a b : ℕ) → i ≢ a → at (put m i j v) a b ≡ at m a b
at-put_row m i j v a b h = ap (λ r. get_or r b 0) (get_or-set_ne m i a _ [] h)

-- The other cells are left alone.
pub at-put_ne :
    (n : ℕ) (m : Matrix)
    → IsSquare n m
    → (i j v a b : ℕ) → i < n
    → (i ≢ a) ⊎ (j ≢ b)
    → at (put m i j v) a b ≡ at m a b
at-put_ne n m sq i j v a b hi (inl h) = at-put_row m i j v a b h
at-put_ne n m sq i j v a b hi (inr h) = elim (Bool-cases (i == a)) [
  | inr f ↦ at-put_row m i j v a b (==→ne i a f)
  | inl t ↦
      let e : i ≡ a = ==→eq i a t in
      ap (λ x. at (put m i j v) x b) (omega arith)
      ∙ at-put_col n m sq i j v b hi h
      ∙ ap (λ x. at m x b) e
]

pub replicate-IsSquare : (n v : ℕ) → IsSquare n (replicate n (replicate n v))
replicate-IsSquare n v = record {
  rows = length-replicate n _;
  row = All-replicate (λ r. length r ≡ n) n _ (length-replicate n v);
}

pub at-replicate : (n v i j : ℕ) → i < n → j < n → at (replicate n (replicate n v)) i j ≡ v
at-replicate n v i j hi hj =
    ap (λ r. get_or r j 0) (get_or-replicate_in n i (replicate n v) [] hi)
    ∙ get_or-replicate_in n j v 0 hj
