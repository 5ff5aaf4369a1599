-- ===== src/Search/Tests.antt =====
-- Runs of the search.
use p2p_vn.Base.{◌≡◌, refl, arith, List, [], ◌∷◌, ℕ}
use p2p_vn.Order.Bytes.{memcmp, memcmp-IsOrder}
use p2p_vn.Order.{IsSorted}
use p2p_vn.Sorting.Keys.{IsSorted-Falls}
use p2p_vn.Search.{found, bsearch, bsearch_loop}
use p2p_vn.Search.Sorted.{Answers, bsearch-Answers}

abbrev keys : List (List ℕ)
keys = (1 ∷ 2 ∷ []) ∷ ((1 ∷ 4 ∷ []) ∷ ((3 ∷ 0 ∷ []) ∷ []))

keys-IsSorted : IsSorted memcmp keys
unfolding memcmp
keys-IsSorted = ((refl, (refl, tt)), ((refl, tt), (tt, tt)))

third : bsearch (memcmp (3 ∷ 0 ∷ [])) keys 3 ≡ found 2
unfolding bsearch bsearch_loop memcmp
third = refl

bsearch-Answers_example : Answers (memcmp (1 ∷ 3 ∷ [])) keys (bsearch (memcmp (1 ∷ 3 ∷ [])) keys 3)
bsearch-Answers_example =
    bsearch-Answers (memcmp (1 ∷ 3 ∷ [])) keys
      (IsSorted-Falls memcmp-IsOrder (1 ∷ 3 ∷ []) keys keys-IsSorted) (omega arith)
