-- ===== src/Forward.antt =====
-- routing.c, `rt_dhosts_to_host`: which hosts a packet is forwarded to, on the indices of the tables
-- `path` and `next`. The lookups of the addresses and the lock are in `Routing.Query`.
pub mod Trail
pub mod Linked
pub mod Local
mod Tests
use p2p_vn.Base.{
  ℕ, zero, suc, ◌+◌, Bool, true, false, Option, none, some, List, [], ◌∷◌, ◌==◌, if◌then◌else◌,
}
use p2p_vn.Paths.{Tables, at, next_discon, path_discon}

abbrev pub cons_to : ℕ → Option (List ℕ) → Option (List ℕ)
cons_to h none = none
cons_to h (some hs) = some (h ∷ hs)

-- `for(;;)` along the path from `next_i` to `cur_i`; `src_to_cur` is the list of the hosts met, and
-- `none` means that the fuel ran out.
unfoldable pub follow : ℕ → Tables → (cur_i next_i : ℕ) → Option (List ℕ)
follow zero t cur_i next_i = none
follow (suc fuel) t cur_i next_i =
    let hop = at t.next next_i cur_i in
    let rest = follow fuel t cur_i hop in
    if hop == next_discon then some (cur_i ∷ []) else cons_to hop rest

-- The inner `for(;;)`: does the path from `next_i` to `i` go through the hosts `src_to_cur.items[j..]`?
unfoldable pub passes : Tables → (i next_i : ℕ) → List ℕ → Bool
passes t i next_i [] = false
passes t i next_i (item ∷ []) = at t.next next_i i == item
passes t i next_i (item ∷ items) =
    let hop = at t.next next_i i in
    let rest = passes t i hop items in
    if hop == item then (if hop == next_discon then false else rest) else false

-- `for(i = 0; i < rd->m_ct; i++)`, from `i` with `rounds` left: the list `dsts`.
unfoldable pub destinations : Tables → (src_i : ℕ) → List ℕ → (rounds i : ℕ) → List ℕ
destinations t src_i src_to_cur zero i = []
destinations t src_i src_to_cur (suc rounds) i =
    let rest = destinations t src_i src_to_cur rounds (suc i) in
    if passes t i src_i src_to_cur then i ∷ rest else rest

-- The branch for a multicast address: `none` if the fuel ran out.
unfoldable pub multicast : (fuel m_ct : ℕ) → Tables → (src_i cur_i : ℕ) → Option (List ℕ)
multicast fuel m_ct t src_i cur_i =
    if at t.path src_i cur_i == path_discon then some [] else elim (follow fuel t cur_i src_i) [
      | none ↦ none
      | some src_to_cur ↦ some (destinations t src_i src_to_cur m_ct 0)
    ]

-- The other branch: the host to send to, `none` for "no path".
unfoldable pub unicast : Tables → (cur_i dst_i : ℕ) → Option ℕ
unicast t cur_i dst_i =
    if at t.path cur_i dst_i == path_discon
    then none
    else if at t.next cur_i dst_i == next_discon
    then some dst_i
    else some (at t.next cur_i dst_i)
