-- ===== src/DArray/Laws.antt =====
-- The array macros as operations on the list of the live elements.

use p2p_vn.Base.{
  ℕ, zero, suc, ◌+◌, ◌-◌, ◌%◌, ◌^◌, ◌≤◌, ◌<◌, ◌≡◌, ◌⊎◌, inl, inr, refl, ap, subst, ◌∙◌, arith, Bool,
  true, false, List, [], ◌∷◌, ◌++◌, length, take, drop, length-append, length-take,
}
use p2p_vn.DArray.{DArray, store, check_and_realloc, add_to_end, remove, live}

module _ {A : Type 0} where
  -- The count lies within the cells written, and these within the memory.
  pub record IsArray (d : DArray A) : Type 0 where
    pub written : d.ct ≤ length d.items
    pub fits : length d.items ≤ d.mem
    pub room : d.mem < 2 ^ 64

  -- The list without the element at an index.
  unfoldable pub erase_at : List A → ℕ → List A
  erase_at [] i = []
  erase_at (x ∷ xs) zero = xs
  erase_at (x ∷ xs) (suc i) = x ∷ erase_at xs i

  pub take-store :
      (xs : List A) (n : ℕ) (v : A)
      → n ≤ length xs
      → take (suc n) (store xs n v) ≡ take n xs ++ v ∷ []
  unfolding store
  take-store [] zero v h = refl
  take-store [] (suc n) v h = absurd (omega arith)
  take-store (x ∷ xs) zero v h = refl
  take-store (x ∷ xs) (suc n) v h = ap (λ l. x ∷ l) (take-store xs n v (omega arith))

  pub length-store :
      (xs : List A) (n m : ℕ) (v : A)
      → n ≤ length xs
      → length xs ≤ m
      → n < m
      → (suc n ≤ length (store xs n v)) × (length (store xs n v) ≤ m)
  unfolding store
  length-store [] zero m v h k l = omega arith
  length-store [] (suc n) m v h k l = absurd (omega arith)
  length-store (x ∷ xs) zero m v h k l = omega arith
  length-store (x ∷ xs) (suc n) zero v h k l = absurd (omega arith)
  length-store (x ∷ xs) (suc n) (suc m) v h k l =
      let r = length-store xs n m v (omega arith) (omega arith) (omega arith) in omega arith

  add_room :
      (granted : Bool) (d : DArray A)
      → IsArray d
      → d.mem < 2 ^ 62
      → (granted ≡ true) ⊎ (d.ct < d.mem)
      → let r = check_and_realloc granted d (d.ct + 1) in
        (r.0 ≡ false)
        × (r.1.ct ≡ d.ct)
        × (r.1.items ≡ d.items)
        × (d.ct < r.1.mem)
        × (d.mem ≤ r.1.mem)
        × (r.1.mem < 2 ^ 64)
  unfolding check_and_realloc
  add_room granted d v small (inl e) = ground arith
  add_room granted d v small (inr e) = ground arith

  -- For an array whose cells are in order, with memory below 2^62, and room or memory granted:
  -- DA_ADD_TO_END does not fail, appends the item to the live elements, and leaves the cells in
  -- order.
  pub add_to_end-live :
      (granted : Bool) (d : DArray A) (item : A)
      → IsArray d
      → d.mem < 2 ^ 62
      → (granted ≡ true) ⊎ (d.ct < d.mem)
      → let r = add_to_end granted d item in
        (r.0 ≡ false) × (live r.1 ≡ live d ++ item ∷ []) × IsArray r.1
  unfolding add_to_end
  add_to_end-live granted d item v small given =
      let room = add_room granted d v small given in
      let grown = (check_and_realloc granted d (d.ct + 1)).1 in
      let (ok, same_ct, same_items, ct_lt, le, lt) = room in
      let sized =
        length-store d.items d.ct grown.mem item v.written (omega (arith, v.fits)) ct_lt in
      let next : suc d.ct ≡ d.ct + 1 = omega arith in
      rw (ok, same_ct, same_items)
        (
          refl,
          subst (λ n. take n (store d.items d.ct item) ≡ live d ++ item ∷ []) next
              (take-store d.items d.ct item v.written),
          record { written = omega (arith, sized.0); fits = sized.1; room = lt },
        )

  -- Where DA_ADD_TO_END reports failure, the array is as it was, `realloc` gave no memory, and the
  -- array was full.
  pub add_to_end-failed :
      (granted : Bool) (d : DArray A) (item : A)
      → (add_to_end granted d item).0 ≡ true
      → ((add_to_end granted d item).1 ≡ d) × (granted ≡ false) × (d.mem ≤ d.ct)
  unfolding add_to_end
  add_to_end-failed granted d item h = ground arith

  take-take : (m : ℕ) (r t : List A) → m ≤ length r → take m (take m r ++ t) ≡ take m r
  take-take zero r t h = refl
  take-take (suc m) [] t h = absurd (omega arith)
  take-take (suc m) (x ∷ r) t h = ap (λ l. x ∷ l) (take-take m r t (omega arith))

  -- The cells after the `memmove`.
  abbrev moved : List A → (i cnt : ℕ) → List A
  moved xs i cnt = take i xs ++ (take cnt (drop (suc i) xs) ++ drop (i + cnt) xs)

  take-moved :
      (i cnt : ℕ) (xs : List A)
      → suc (i + cnt) ≤ length xs
      → take (i + cnt) (moved xs i cnt) ≡ erase_at (take (suc (i + cnt)) xs) i
  unfolding erase_at
  take-moved i cnt [] h = absurd (omega arith)
  take-moved zero cnt (x ∷ xs) h =
      let e : 0 + cnt ≡ cnt = omega arith in
      rw e (take-take cnt xs (drop cnt (x ∷ xs)) (omega arith))
  take-moved (suc i) cnt (x ∷ xs) h =
      let e : suc i + cnt ≡ suc (i + cnt) = omega arith in
      rw e (ap (λ l. x ∷ l) (take-moved i cnt xs (omega arith)))

  length-drop : (n : ℕ) (xs : List A) → length (drop n xs) ≡ length xs - n
  length-drop zero xs = omega arith
  length-drop (suc n) [] = omega arith
  length-drop (suc n) (x ∷ xs) = omega (arith, length-drop n xs)

  length-moved :
      (i cnt : ℕ) (xs : List A) → suc (i + cnt) ≤ length xs → length (moved xs i cnt) ≡ length xs
  length-moved i cnt xs h = omega (
    arith,
    length-append (take i xs) (take cnt (drop (suc i) xs) ++ drop (i + cnt) xs),
    length-append (take cnt (drop (suc i) xs)) (drop (i + cnt) xs),
    length-take i xs (omega arith),
    length-take cnt (drop (suc i) xs) (omega (arith, length-drop (suc i) xs)),
    length-drop (suc i) xs,
    length-drop (i + cnt) xs,
  )

  remove_cells :
      (d : DArray A) (i : ℕ)
      → IsArray d
      → i < d.ct
      → remove d i ≡ record d { ct = i + (d.ct - 1 - i); items = moved d.items i (d.ct - 1 - i) }
  unfolding remove
  remove_cells d i v h =
      let w = v.written in
      let f = v.fits in
      let m = v.room in
      let ct : (d.ct + 2 ^ 64 - 1) % 2 ^ 64 ≡ i + (d.ct - 1 - i) = omega arith in
      let cnt : (i + (d.ct - 1 - i) + 2 ^ 64 - i) % 2 ^ 64 ≡ d.ct - 1 - i = omega arith in
      rw (ct, cnt)

  -- For an array whose cells are in order, DA_REMOVE at an index below the count drops that
  -- element from the live ones, keeps the others in order, and leaves the cells in order.
  pub remove-live :
      (d : DArray A) (i : ℕ)
      → IsArray d
      → i < d.ct
      → (live (remove d i) ≡ erase_at (live d) i) × IsArray (remove d i)
  remove-live d i v h =
      let w = v.written in
      let same : suc (i + (d.ct - 1 - i)) ≡ d.ct = omega arith in
      let len = length-moved i (d.ct - 1 - i) d.items (omega arith) in
      rw (remove_cells d i v h) (
        take-moved i (d.ct - 1 - i) d.items (omega arith)
            ∙ ap (λ n. erase_at (take n d.items) i) same,
        record { written = omega (arith, len); fits = omega (arith, len, v.fits); room = v.room },
      )

  pub remove_small :
      (d : DArray A) (i : ℕ)
      → IsArray d
      → i < d.ct
      → ((remove d i).ct ≤ d.ct) × ((remove d i).mem ≡ d.mem)
  remove_small d i v h = rw (remove_cells d i v h) (omega arith, refl)
