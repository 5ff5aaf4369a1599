-- ===== src/Search/Sorted.antt =====
-- The binary search on an array in which the comparison with the key falls from `gt` to `lt`.
use p2p_vn.Base.{
  ℕ, zero, suc, ◌+◌, ◌-◌, ◌/◌, ◌%◌, ◌^◌, ◌<◌, ◌≤◌, ◌≡◌, ◌≢◌, refl, arith, Ordering, List, [], ◌∷◌,
  some, get_elem?, length, ltb, ltb→lt, ltb→le, Bool-cases, Ordering-cases, inl, inr,
}
use p2p_vn.Search.{Search, found, missing, fault, bsearch_loop, bsearch}

module _ {A : Type 0} where
  pub get_elem?-some : (xs : List A) (i : ℕ) → i < length xs → (x : A) × (get_elem? xs i ≡ some x)
  get_elem?-some [] i h = absurd (omega arith)
  get_elem?-some (x ∷ xs) zero h = (x, refl)
  get_elem?-some (x ∷ xs) (suc i) h = get_elem?-some xs i (omega arith)

  -- An element before a lower one is lower, and one behind a higher one is higher.
  pub record Falls (probe : A → Ordering) (xs : List A) : Type 0 where
    pub up :
        (i j : ℕ) (x y : A)
        → i ≤ j
        → get_elem? xs i ≡ some x
        → get_elem? xs j ≡ some y
        → probe x ≡ Ordering.lt
        → probe y ≡ Ordering.lt
    pub down :
        (i j : ℕ) (x y : A)
        → i ≤ j
        → get_elem? xs i ≡ some x
        → get_elem? xs j ≡ some y
        → probe y ≡ Ordering.gt
        → probe x ≡ Ordering.gt

  -- An index that compares equal to the key, or no element does.
  abbrev pub Answers : (A → Ordering) → List A → Search → Type 0
  Answers probe xs (found i) = (x : A) × (get_elem? xs i ≡ some x) × (probe x ≡ Ordering.eq)
  Answers probe xs missing = (i : ℕ) (x : A) → get_elem? xs i ≡ some x → probe x ≢ Ordering.eq
  Answers probe xs fault = ⊥

  pub get_elem?_lt : (xs : List A) (i : ℕ) (x : A) → get_elem? xs i ≡ some x → i < length xs
  get_elem?_lt [] i x e = cc
  get_elem?_lt (y ∷ ys) zero x e = omega arith
  get_elem?_lt (y ∷ ys) (suc i) x e = omega (arith, get_elem?_lt ys i x e)

module _ {A : Type 0} (probe : A → Ordering) (xs : List A) (falls : Falls probe xs)
    (small : length xs ≤ 2 ^ 63) where
  abbrev Left : ℕ → Type 0
  Left l = (i : ℕ) (x : A) → i < l → get_elem? xs i ≡ some x → probe x ≡ Ordering.gt

  abbrev Right : ℕ → Type 0
  Right u = (i : ℕ) (x : A) → u ≤ i → get_elem? xs i ≡ some x → probe x ≡ Ordering.lt

  bsearch_loop-missing : (l u : ℕ) → u ≤ l → Left l → Right u → Answers probe xs missing
  bsearch_loop-missing l u h left right i x e q = elim (Bool-cases (ltb i l)) [
    | inl below ↦ cc (left i x (ltb→lt i l below) e)
    | inr above ↦ let ge = ltb→le i l above in cc (right i x (omega arith) e)
  ]

  bsearch_loop-Answers :
      (fuel l u : ℕ)
      → u - l < fuel
      → u ≤ length xs
      → Left l
      → Right u
      → Answers probe xs (bsearch_loop fuel probe xs l u)
  unfolding bsearch_loop
  bsearch_loop-Answers zero l u enough fits left right = absurd (omega arith)
  bsearch_loop-Answers (suc fuel) l u enough fits left right = elim (Bool-cases (ltb l u)) [
    | inr done ↦ rw (done, bsearch_loop) (bsearch_loop-missing l u (ltb→le l u done) left right)
    | inl more ↦
        let open_range : l < u = ltb→lt l u more in
        let idx : ℕ = (l + u) % 2 ^ 64 / 2 in
        let at_mid = get_elem?-some xs idx (omega arith) in
        let mid_lt : idx < u = omega arith in
        let mid_ge : l ≤ idx = omega arith in
        elim (Ordering-cases (probe at_mid.0)) [
          | inl lower ↦
              rw (more, at_mid.1, lower, bsearch_loop)
                (bsearch_loop-Answers fuel l idx (omega arith) (omega arith) left
                  (λ i x h e. falls.up idx i at_mid.0 x h at_mid.1 e lower))
          | inr (inl hit) ↦ rw (more, at_mid.1, hit, bsearch_loop) (at_mid.0, at_mid.1, hit)
          | inr (inr higher) ↦
              rw (more, at_mid.1, higher, bsearch_loop)
                (bsearch_loop-Answers fuel (idx + 1) u (omega arith) fits
                  (λ i x h e. falls.down i idx x at_mid.0 (omega arith) e at_mid.1 higher) right)
        ]
  ]

  -- On an array of at most 2^63 elements, in which the comparison with the key falls from `gt` to
  -- `lt`, the search ends, reads inside the array, and answers right: the index of an element
  -- equal to the key, or NULL if there is none.
  pub bsearch-Answers : Answers probe xs (bsearch probe xs (length xs))
  unfolding bsearch
  bsearch-Answers =
      bsearch_loop-Answers (suc (length xs)) 0 (length xs) (omega arith) (omega arith)
        (λ i x h e. absurd (omega arith)) (λ i x h e. absurd (omega (arith, get_elem?_lt xs i x e)))
