-- ===== src/DArray/Tests.antt =====
-- Runs of the array macros and of the search.

use p2p_vn.Base.{ℕ, ◌≡◌, inl, refl, arith, true, false, [], ◌∷◌, ◌++◌}
use p2p_vn.DArray.{DArray, live, add_to_end, store, check_and_realloc}
use p2p_vn.DArray.Laws.{IsArray, add_to_end-live}

-- Two elements in full memory.
abbrev full : DArray ℕ
full = record { ct = 2; mem = 2; items = 3 ∷ 5 ∷ [] }

full-IsArray : IsArray full
full-IsArray = record { written = omega arith; fits = omega arith; room = omega arith }

appended : live (add_to_end true full 4).1 ≡ 3 ∷ 5 ∷ 4 ∷ []
unfolding add_to_end check_and_realloc store
appended = refl

add_to_end-live_example :
    ((add_to_end true full 4).0 ≡ false)
    × (live (add_to_end true full 4).1 ≡ live full ++ 4 ∷ [])
    × IsArray (add_to_end true full 4).1
add_to_end-live_example = add_to_end-live true full 4 full-IsArray (omega arith) (inl refl)

refused : (add_to_end false full 4).0 ≡ true
unfolding add_to_end check_and_realloc
refused = refl
