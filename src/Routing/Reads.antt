-- ===== src/Routing/Reads.antt =====
-- routing.c: the reads `path[i][j]` of the table that the pointer `rd->path` leads to.
use p2p_vn.Base.{
  ℕ, zero, suc, ◌<◌, ◌≡◌, refl, arith, Option, some, List, [], ◌∷◌, length, get_elem?, get_or,
}
use p2p_vn.Paths.{Matrix, Links, at, tables_of}
use p2p_vn.Paths.Matrix.{length-row}
use p2p_vn.Paths.Seed.{IsNetwork, tables_of-IsTables}
use p2p_vn.Routing.State.{◌>>=◌}

-- `m[i][j]` through a pointer; `none` is a read outside a row, behind the last row, or of a table that
-- is freed.
abbrev pub entry : Matrix → ℕ → ℕ → Option ℕ
entry m i j = get_elem? m i >>= λ row. get_elem? row j

get_elem?-get_or :
    {A : Type 0} (xs : List A) (i : ℕ) (d : A)
    → i < length xs
    → get_elem? xs i ≡ some (get_or xs i d)
get_elem?-get_or [] i d h = absurd (omega arith)
get_elem?-get_or (x ∷ xs) zero d h = refl
get_elem?-get_or (x ∷ xs) (suc i) d h = get_elem?-get_or xs i d (omega arith)

-- The tables of a network are read between its hosts.
pub entry-tables_of :
    (hosts : List Links) (i j : ℕ)
    → IsNetwork hosts
    → i < length hosts
    → j < length hosts
    → entry (tables_of hosts).path i j ≡ some (at (tables_of hosts).path i j)
entry-tables_of hosts i j net hi hj =
    let path = (tables_of hosts).path in
    let sq = (tables_of-IsTables hosts net).path_square in
    let row = length-row (length hosts) path sq i hi in
    rw (get_elem?-get_or path i [] (omega (arith, sq.rows)), ◌>>=◌)
      (get_elem?-get_or (get_or path i []) j 0 (omega (arith, row)))
