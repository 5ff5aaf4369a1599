-- ===== src/Search.antt =====
-- stdparam.h, DEF_BSEARCH: binary search in an array of `nmemb` elements.
pub mod Sorted
pub mod Bounds
mod Tests
use p2p_vn.Base.{
  ℕ, zero, suc, ◌+◌, ◌/◌, ◌%◌, ◌^◌, ◌<◌, ◌≤◌, ◌≡◌, ◌≢◌, refl, arith, Ordering, List, Option, none,
  some, get_elem?, length, ltb, Bool, true, false, ltb→lt, ltb→le, Bool-cases, Option-cases,
  Ordering-cases, inl, inr,
}

-- The pointer returned is an index; `missing` is NULL. `fault` is a read out of bounds, or fuel that
-- ran out.
pub data Search : Type 0 where
  found : ℕ → Search
  missing fault : Search

-- `while (l < u)`; `probe p` is `cmp(key, p)`.
unfoldable pub bsearch_loop {ℓ} : {A : Type ℓ} → ℕ → (A → Ordering) → List A → (l u : ℕ) → Search
bsearch_loop zero probe base l u = fault
bsearch_loop (suc fuel) probe base l u =
    let idx = (l + u) % 2 ^ 64 / 2 in
    elim (ltb l u) [
      | false ↦ missing
      | true ↦ elim (get_elem? base idx) [
        | none ↦ fault
        | some p ↦ elim (probe p) [
          | Ordering.lt ↦ bsearch_loop fuel probe base l idx
          | Ordering.gt ↦ bsearch_loop fuel probe base (idx + 1) u
          | Ordering.eq ↦ found idx
        ]
      ]
    ]

-- `nmemb + 1` rounds are enough, as `Search.Sorted` shows.
unfoldable pub bsearch {ℓ} : {A : Type ℓ} → (A → Ordering) → List A → ℕ → Search
unfolding bsearch_loop
bsearch probe base nmemb = bsearch_loop (suc nmemb) probe base 0 nmemb
