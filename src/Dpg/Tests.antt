-- ===== src/Dpg/Tests.antt =====
-- Runs of the calls on a group of peers.
use mathlib.Core.List.{Permᴰ}
use p2p_vn.Base.{◌≡◌, refl, arith, [], ◌∷◌, inl, true, some, Ordering, pos, neg, ℕ}
use p2p_vn.Order.Bytes.{memcmp}
use p2p_vn.Sorting.Insertion.{insertion}
use p2p_vn.DArray.{live}
use p2p_vn.DArray.Keyed.{IsKeyed}
use p2p_vn.Dpg.{Group, Peer, dp_cmp, dpg_insert, dpg_remove}
use p2p_vn.Dpg.Insert.{IsGroup, IsAbsent, dpg_insert_new, dpg_insert_duplicate}
use p2p_vn.Dpg.Remove.{dpg_remove_found, dpg_remove_missing}

abbrev peer : ℕ → ℕ → Peer
peer p m = record { dp = p; mac = 2 ∷ 0 ∷ 0 ∷ 0 ∷ 0 ∷ m ∷ [] }

-- Two peers, in memory for eight.
abbrev pair : Group
pair = record {
  dps = record { ct = 2; mem = 8; items = peer 100 1 ∷ peer 200 4 ∷ [] };
  l_addr = record { mac = []; sin_family = 2; s_addr = 1; sin_port = 9004 };
}

pair-IsGroup : IsGroup pair
unfolding dp_cmp memcmp
pair-IsGroup = record {
  keyed = record {
    array = record { written = omega arith; fits = omega arith; room = omega arith };
    sorted = ((refl, tt), (tt, tt));
  };
  small = omega arith;
}

third-IsAbsent : IsAbsent pair (peer 300 3)
unfolding dp_cmp memcmp
third-IsAbsent = ((λ e. cc), ((λ e. cc), tt))

twin-IsPresent : ¬ IsAbsent pair (peer 300 4)
unfolding dp_cmp memcmp
twin-IsPresent a = a.1.0 refl

dpg_insert_new_example :
    (g' : Group) × (dpg_insert insertion (pos 0) true pair (peer 300 3) ≡ some (pos 0, g'))
    × IsKeyed dp_cmp g'.dps
    × Permᴰ (live g'.dps) (peer 300 3 ∷ live pair.dps)
    × (g'.l_addr ≡ pair.l_addr)
dpg_insert_new_example =
    dpg_insert_new insertion (pos 0) true pair (peer 300 3) pair-IsGroup refl (omega arith)
      third-IsAbsent (inl refl)

dpg_insert_duplicate_example :
    dpg_insert insertion (pos 0) true pair (peer 300 4) ≡ some (pos 1, pair)
dpg_insert_duplicate_example =
    dpg_insert_duplicate insertion (pos 0) true pair (peer 300 4) pair-IsGroup refl (omega arith)
      twin-IsPresent

dpg_remove_found_example :
    (g' : Group) × (p : Peer) × (dpg_remove (pos 0) pair (peer 300 4) ≡ some (pos 0, g'))
    × (dp_cmp (peer 300 4) p ≡ Ordering.eq)
    × Permᴰ (live pair.dps) (p ∷ live g'.dps)
    × IsKeyed dp_cmp g'.dps
    × IsAbsent g' (peer 300 4)
dpg_remove_found_example =
    dpg_remove_found (pos 0) pair (peer 300 4) pair-IsGroup refl twin-IsPresent

dpg_remove_missing_example : dpg_remove (pos 0) pair (peer 300 3) ≡ some (neg 2, pair)
dpg_remove_missing_example =
    dpg_remove_missing (pos 0) pair (peer 300 3) pair-IsGroup refl third-IsAbsent
