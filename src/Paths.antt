-- ===== src/Paths.antt =====
-- routing.c, `compute_paths`: the tables `path` and `next` of `routing_t`, their reset, the adjacency
-- set-up and the Floyd-Warshall loops. The allocations of that function are in `Routing`.
-- A table is a list of rows; a read out of range gives 0 and a write out of range changes nothing,
-- which `IsSquare` rules out.
pub mod Matrix
pub mod Cost
pub mod Round
pub mod Simultaneous
pub mod Seed
pub mod Reach
pub mod Walk
pub mod Mesh
pub mod Hops
mod Tests
use p2p_vn.Base.{
  ℕ, zero, suc, ◌+◌, ◌-◌, ◌%◌, ◌^◌, List, [], ◌∷◌, ◌||◌, ◌&&◌, ltb, ◌==◌, if◌then◌else◌, length,
  get_or, set, replicate, count_up,
}

-- NEXT_DISCON is SIZE_MAX, PATH_MAX is UINT32_MAX.
abbrev pub next_discon : ℕ
next_discon = 2 ^ 64 - 1

abbrev pub path_discon : ℕ
path_discon = 0

abbrev pub path_max : ℕ
path_max = 2 ^ 32 - 1

abbrev pub path_min : ℕ
path_min = 1

abbrev pub u32_mod : ℕ
u32_mod = 2 ^ 32

abbrev pub Matrix : Type 0
Matrix = List (List ℕ)

-- `m[i][j]`
abbrev pub at : Matrix → ℕ → ℕ → ℕ
at m i j = get_or (get_or m i []) j 0

-- `m[i][j] = v`
abbrev pub put : Matrix → ℕ → ℕ → ℕ → Matrix
put m i j v = set m i (set (get_or m i []) j v)

pub record Tables : Type 0 where
  pub path : Matrix
  pub next : Matrix

-- The reset of both tables for `n` hosts.
unfoldable pub clear : ℕ → Tables
clear n = record {
  path = replicate n (replicate n path_discon);
  next = replicate n (replicate n next_discon);
}

-- The links of host `i`, each as the index of its destination and its `rtt_us`.
abbrev pub Links : Type 0
Links = List (ℕ × ℕ)

unfoldable pub seed_links : ℕ → Links → Tables → Tables
seed_links i [] t = t
seed_links i ((dst_i, rtt_us) ∷ ls) t =
    seed_links i ls (record t { path = put t.path i dst_i rtt_us })

unfoldable pub seed_hosts : ℕ → List Links → Tables → Tables
seed_hosts i [] t = t
seed_hosts i (links ∷ hosts) t =
    seed_hosts (suc i) hosts (seed_links i links (record t { path = put t.path i i path_min }))

-- `uint32_t x = p + q`, less one if both are 1, and PATH_MAX if the sum wrapped.
unfoldable pub via_cost : ℕ → ℕ → ℕ
via_cost p q =
    let sum = (p + q) % u32_mod in
    let x = if p == 1 && q == 1 then (sum + u32_mod - 1) % u32_mod else sum in
    if ltb x p || ltb x q then path_max else x

-- The body of the three loops.
unfoldable pub relax : ℕ → ℕ → ℕ → Tables → Tables
relax k i j t =
    let p = at t.path i k in
    let q = at t.path k j in
    if p == path_discon || q == path_discon
    then t
    else if ltb (via_cost p q) (at t.path i j)
    then record { path = put t.path i j (via_cost p q); next = put t.next i j k }
    else t

unfoldable pub round : ℕ → ℕ → Tables → Tables
round n k = count_up (λ i. count_up (λ j. relax k i j) n 0) n 0

unfoldable pub floyd : ℕ → Tables → Tables
floyd n = count_up (round n) n 0

-- The tables that `compute_paths` leaves for hosts with the given links.
unfoldable pub tables_of : List Links → Tables
tables_of hosts = floyd (length hosts) (seed_hosts 0 hosts (clear (length hosts)))
