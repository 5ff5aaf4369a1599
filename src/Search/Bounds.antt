-- ===== src/Search/Bounds.antt =====
-- The binary search on an array in any order.
use p2p_vn.Base.{
  ℕ, zero, suc, ◌+◌, ◌-◌, ◌/◌, ◌%◌, ◌^◌, ◌<◌, ◌≤◌, ◌≡◌, arith, Ordering, List, some, get_elem?,
  length, ltb, ltb→lt, Bool-cases, Ordering-cases, inl, inr,
}
use p2p_vn.Search.{Search, found, missing, fault, bsearch_loop, bsearch}
use p2p_vn.Search.Sorted.{get_elem?-some}

-- The search ends, and what it finds is an element.
abbrev pub Within : {A : Type 0} → List A → Search → Type 0
Within {A} xs (found i) = (x : A) × (get_elem? xs i ≡ some x)
Within xs missing = Unit {0}
Within xs fault = ⊥

module _ {A : Type 0} (probe : A → Ordering) (xs : List A) (small : length xs ≤ 2 ^ 63) where
  bsearch_loop-Within :
      (fuel l u : ℕ) → u - l < fuel → u ≤ length xs → Within xs (bsearch_loop fuel probe xs l u)
  unfolding bsearch_loop
  bsearch_loop-Within zero l u enough fits = absurd (omega arith)
  bsearch_loop-Within (suc fuel) l u enough fits = elim (Bool-cases (ltb l u)) [
    | inr done ↦ rw (done, bsearch_loop) tt
    | inl more ↦
        let open_range : l < u = ltb→lt l u more in
        let idx : ℕ = (l + u) % 2 ^ 64 / 2 in
        let at_mid = get_elem?-some xs idx (omega arith) in
        let mid_lt : idx < u = omega arith in
        let mid_ge : l ≤ idx = omega arith in
        elim (Ordering-cases (probe at_mid.0)) [
          | inl lower ↦
              rw (more, at_mid.1, lower, bsearch_loop)
                (bsearch_loop-Within fuel l idx (omega arith) (omega arith))
          | inr (inl hit) ↦ rw (more, at_mid.1, hit, bsearch_loop) at_mid
          | inr (inr higher) ↦
              rw (more, at_mid.1, higher, bsearch_loop)
                (bsearch_loop-Within fuel (idx + 1) u (omega arith) fits)
        ]
  ]

  -- On an array of at most 2^63 elements in any order, the search ends and reads inside the array.
  pub bsearch-Within : Within xs (bsearch probe xs (length xs))
  unfolding bsearch
  bsearch-Within = bsearch_loop-Within (suc (length xs)) 0 (length xs) (omega arith) (omega arith)
