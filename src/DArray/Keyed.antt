-- ===== src/DArray/Keyed.antt =====
-- A growable array that is kept sorted by a key, and searched with `bsearch`: the arrays of hosts,
-- links, peers and connection attempts.
use mathlib.Core.List.Permᴰ
use mathlib.Core.List.{Permᴰ}
use p2p_vn.Base.{
  ℕ, zero, suc, ◌^◌, ◌≤◌, ◌<◌, ◌≡◌, ◌≢◌, ◌⊎◌, refl, ap, subst, ◌∙◌, arith, Bool, true, false, List,
  [], ◌∷◌, ◌++◌, length, take, drop, All, length-take, length-append, Ordering,
}
use p2p_vn.Order.{IsOrder, IsSorted}
use p2p_vn.Search.{Search, missing, bsearch}
use p2p_vn.Search.Sorted.{Answers, bsearch-Answers}
use p2p_vn.Sorting.{Qsort}
use p2p_vn.Sorting.Keys.{All-of_get, sort-IsSorted, IsSorted-Falls}
use p2p_vn.DArray.{DArray, add_to_end, remove, live, sort_items}
use p2p_vn.DArray.Laws.{IsArray, erase_at, add_to_end-live, remove-live}

-- `bsearch_…(key, items, ct)`: a read behind the first `ct` elements is a fault.
unfoldable pub find_in : {A : Type 0} → (A → Ordering) → DArray A → Search
find_in probe d = bsearch probe (live d) d.ct

pub record IsKeyed {A : Type 0} (cmp : A → A → Ordering) (d : DArray A) : Type 0 where
  pub array : IsArray d
  pub sorted : IsSorted cmp (live d)

module _ {A : Type 0} where
  pub length-perm : {xs ys : List A} → Permᴰ xs ys → length xs ≡ length ys
  length-perm Permᴰ.nil = refl
  length-perm (Permᴰ.cons e p) = ap suc (length-perm p)
  length-perm (Permᴰ.swap e f) = refl
  length-perm (Permᴰ.trans p q) = length-perm p ∙ length-perm q

  take-append : (n : ℕ) (xs ys : List A) → length xs ≡ n → take n (xs ++ ys) ≡ xs
  take-append zero [] ys e = refl
  take-append zero (x ∷ xs) ys e = absurd (omega arith)
  take-append (suc n) [] ys e = absurd (omega arith)
  take-append (suc n) (x ∷ xs) ys e = ap (λ l. x ∷ l) (take-append n xs ys (omega arith))

  pub take-drop : (n : ℕ) (xs : List A) → take n xs ++ drop n xs ≡ xs
  take-drop zero xs = refl
  take-drop (suc n) [] = refl
  take-drop (suc n) (x ∷ xs) = ap (λ l. x ∷ l) (take-drop n xs)

  pub All-erase_at : (P : A → Type 0) (xs : List A) (i : ℕ) → All P xs → All P (erase_at xs i)
  unfolding erase_at
  All-erase_at P [] i a = tt
  All-erase_at P (x ∷ xs) zero a = a.1
  All-erase_at P (x ∷ xs) (suc i) a = (a.0, All-erase_at P xs i a.1)

  IsSorted-erase_at :
      (cmp : A → A → Ordering) (xs : List A) (i : ℕ)
      → IsSorted cmp xs
      → IsSorted cmp (erase_at xs i)
  unfolding erase_at
  IsSorted-erase_at cmp [] i s = tt
  IsSorted-erase_at cmp (x ∷ xs) zero s = s.1
  IsSorted-erase_at cmp (x ∷ xs) (suc i) s =
      (All-erase_at (λ y. cmp x y ≡ Ordering.lt) xs i s.0, IsSorted-erase_at cmp xs i s.1)

module _ {A : Type 0} {cmp : A → A → Ordering} (order : IsOrder cmp) where
  pub length-live : (d : DArray A) → IsArray d → length (live d) ≡ d.ct
  length-live d v = length-take d.ct d.items v.written

  -- The search in a sorted array answers right for any key, and does not read past the end.
  pub find_in-Answers :
      (d : DArray A) (k : A)
      → IsKeyed cmp d
      → d.ct ≤ 2 ^ 63
      → Answers (cmp k) (live d) (find_in (cmp k) d)
  unfolding find_in
  find_in-Answers d k v small =
      let len = length-live d v.array in
      subst (λ n. Answers (cmp k) (live d) (bsearch (cmp k) (live d) n)) len
        (bsearch-Answers (cmp k) (live d) (IsSorted-Falls order k (live d) v.sorted)
          (omega (arith, len)))

  pub sort_items-live :
      (qs : Qsort) (d : DArray A)
      → IsArray d
      → (live (sort_items qs cmp d) ≡ qs.sort A cmp (live d)) × IsArray (sort_items qs cmp d)
  unfolding sort_items
  sort_items-live qs d v =
      let len = length-perm (qs.sort_perm A cmp (live d)) ∙ length-live d v in
      let whole = length-append (qs.sort A cmp (live d)) (drop d.ct d.items) in
      let parts = length-append (live d) (drop d.ct d.items) in
      let same = ap length (take-drop d.ct d.items) in
      let total : length (qs.sort A cmp (live d) ++ drop d.ct d.items) ≡ length d.items =
        omega (arith, len, whole, parts, same, length-live d v) in
      (
        take-append d.ct (qs.sort A cmp (live d)) (drop d.ct d.items) len,
        record {
          written = omega (arith, v.written, total);
          fits = omega (arith, v.fits, total);
          room = v.room;
        },
      )

  -- Adding an element with a new key at the end, and sorting.
  pub insert-IsKeyed :
      (qs : Qsort) (granted : Bool) (d : DArray A) (k : A)
      → IsKeyed cmp d
      → d.mem < 2 ^ 62
      → (granted ≡ true) ⊎ (d.ct < d.mem)
      → All (λ y. cmp k y ≢ Ordering.eq) (live d)
      → let r = add_to_end granted d k in
        (r.0 ≡ false)
        × IsKeyed cmp (sort_items qs cmp r.1)
        × Permᴰ (live (sort_items qs cmp r.1)) (k ∷ live d)
  insert-IsKeyed qs granted d k v small given fresh =
      let (ok, added, arr) = add_to_end-live granted d k v.array small given in
      let (sorted, arr') = sort_items-live qs (add_to_end granted d k).1 arr in
      let shape : live (sort_items qs cmp (add_to_end granted d k).1)
          ≡ qs.sort A cmp (live d ++ k ∷ []) =
        sorted ∙ ap (qs.sort A cmp) added in
      (
        ok,
        record {
          array = arr';
          sorted = rw shape (sort-IsSorted order qs (live d) k v.sorted fresh);
        },
        rw shape (
            Permᴰ.trans (qs.sort_perm A cmp (live d ++ k ∷ []))
              (Permᴰ.append_comm (live d) (k ∷ []))),
      )

  pub remove-IsKeyed :
      (d : DArray A) (i : ℕ)
      → IsKeyed cmp d
      → i < d.ct
      → IsKeyed cmp (remove d i) × (live (remove d i) ≡ erase_at (live d) i)
  remove-IsKeyed d i v h =
      let (shape, arr) = remove-live d i v.array h in
      (record { array = arr; sorted = rw shape (IsSorted-erase_at cmp (live d) i v.sorted) }, shape)

  -- The key that a search does not find is new.
  pub missing-fresh :
      (d : DArray A) (k : A)
      → Answers (cmp k) (live d) missing
      → All (λ y. cmp k y ≢ Ordering.eq) (live d)
  missing-fresh d k a = All-of_get (λ y. cmp k y ≢ Ordering.eq) (live d) a
