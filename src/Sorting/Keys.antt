-- ===== src/Sorting/Keys.antt =====
-- Sorted arrays without two equal keys, as the program keeps its hosts, links, peers and attempts.
use mathlib.Core.List.Permᴰ
use mathlib.Core.List.{Memᴰ, Permᴰ}
use p2p_vn.Base.{
  ℕ, zero, suc, ◌≤◌, ◌≡◌, ◌≢◌, refl, sym, ap, subst, ◌∙◌, arith, Ordering, List, [], ◌∷◌, ◌++◌, All,
  get_elem?, some, inl, inr, Ordering-cases,
}
use p2p_vn.Order.{IsOrder, IsSorted, gt→lt, lt→gt, flip}
use p2p_vn.Sorting.{Qsort, IsAscending}
use p2p_vn.Search.Sorted.{Falls}

module _ {A : Type 0} where
  pub All-perm : (P : A → Type 0) {xs ys : List A} → Permᴰ xs ys → All P xs → All P ys
  All-perm P Permᴰ.nil h = tt
  All-perm P (Permᴰ.cons e p) h = (subst P e h.0, All-perm P p h.1)
  All-perm P (Permᴰ.swap e f) h = (subst P f h.1.0, (subst P e h.0, h.1.1))
  All-perm P (Permᴰ.trans p q) h = All-perm P q (All-perm P p h)

  pub Memᴰ-perm : {x : A} {xs ys : List A} → Permᴰ xs ys → Memᴰ x xs → Memᴰ x ys
  Memᴰ-perm Permᴰ.nil m = m
  Memᴰ-perm (Permᴰ.cons e p) (Memᴰ.head f) = Memᴰ.head (f ∙ e)
  Memᴰ-perm (Permᴰ.cons e p) (Memᴰ.tail m) = Memᴰ.tail (Memᴰ-perm p m)
  Memᴰ-perm (Permᴰ.swap e f) (Memᴰ.head g) = Memᴰ.tail (Memᴰ.head (g ∙ e))
  Memᴰ-perm (Permᴰ.swap e f) (Memᴰ.tail (Memᴰ.head g)) = Memᴰ.head (g ∙ f)
  Memᴰ-perm (Permᴰ.swap e f) (Memᴰ.tail (Memᴰ.tail m)) = Memᴰ.tail (Memᴰ.tail m)
  Memᴰ-perm (Permᴰ.trans p q) m = Memᴰ-perm q (Memᴰ-perm p m)

  pub All-Mem : (P : A → Type 0) {x : A} {xs : List A} → Memᴰ x xs → All P xs → P x
  All-Mem P (Memᴰ.head e) a = subst P (sym e) a.0
  All-Mem P (Memᴰ.tail m) a = All-Mem P m a.1

  pub All-append : (P : A → Type 0) (xs ys : List A) → All P xs → All P ys → All P (xs ++ ys)
  All-append P [] ys hx hy = hy
  All-append P (x ∷ xs) ys hx hy = (hx.0, All-append P xs ys hx.1 hy)

  pub All-map : (P Q : A → Type 0) (xs : List A) → ((x : A) → P x → Q x) → All P xs → All Q xs
  All-map P Q [] f h = tt
  All-map P Q (x ∷ xs) f h = (f x h.0, All-map P Q xs f h.1)

  pub All-get :
      (P : A → Type 0) (xs : List A) (i : ℕ) (x : A) → get_elem? xs i ≡ some x → All P xs → P x
  All-get P [] i x e h = cc
  All-get P (y ∷ ys) zero x e h = subst P (ground arith) h.0
  All-get P (y ∷ ys) (suc i) x e h = All-get P ys i x e h.1

  pub All-of_get :
      (P : A → Type 0) (xs : List A) → ((i : ℕ) (x : A) → get_elem? xs i ≡ some x → P x) → All P xs
  All-of_get P [] f = tt
  All-of_get P (x ∷ xs) f = (f 0 x refl, All-of_get P xs (λ i y e. f (suc i) y e))

  abbrev pub Distinct : (A → A → Ordering) → List A → Type 0
  Distinct cmp [] = Unit {0}
  Distinct cmp (x ∷ xs) = All (λ y. cmp x y ≢ Ordering.eq) xs × Distinct cmp xs

module _ {A : Type 0} {cmp : A → A → Ordering} (order : IsOrder cmp) where
  Distinct-perm : {xs ys : List A} → Permᴰ xs ys → Distinct cmp xs → Distinct cmp ys
  Distinct-perm Permᴰ.nil d = tt
  Distinct-perm (Permᴰ.cons {a} {b} {l₂} e p) d = (
    subst (λ z. All (λ y. cmp z y ≢ Ordering.eq) l₂) e
        (All-perm (λ y. cmp a y ≢ Ordering.eq) p d.0),
    Distinct-perm p d.1,
  )
  Distinct-perm (Permᴰ.swap {a} {b} {a'} {b'} {l} e f) d = (
    (
      λ q. d.0.0 (rw (e, f) (order.turn a' b' ∙ ap flip q)),
      subst (λ z. All (λ y. cmp z y ≢ Ordering.eq) l) f d.1.0,
    ),
    (subst (λ z. All (λ y. cmp z y ≢ Ordering.eq) l) e d.0.1, d.1.1),
  )
  Distinct-perm (Permᴰ.trans p q) d = Distinct-perm q (Distinct-perm p d)

  sorted_head :
      (x : A) (xs : List A)
      → All (λ y. cmp x y ≢ Ordering.gt) xs
      → All (λ y. cmp x y ≢ Ordering.eq) xs
      → All (λ y. cmp x y ≡ Ordering.lt) xs
  sorted_head x [] g e = tt
  sorted_head x (y ∷ ys) g e = (
    elim (Ordering-cases (cmp x y)) [
      | inl l ↦ l
      | inr (inl q) ↦ absurd (e.0 q)
      | inr (inr h) ↦ absurd (g.0 h)
    ],
    sorted_head x ys g.1 e.1,
  )

  -- Ascending without two equal keys is strictly ascending.
  pub IsSorted-of_Distinct : (xs : List A) → IsAscending cmp xs → Distinct cmp xs → IsSorted cmp xs
  IsSorted-of_Distinct [] a d = tt
  IsSorted-of_Distinct (x ∷ xs) a d = (sorted_head x xs a.0 d.0, IsSorted-of_Distinct xs a.1 d.1)

  pub Distinct-of_sorted : (xs : List A) → IsSorted cmp xs → Distinct cmp xs
  Distinct-of_sorted [] s = tt
  Distinct-of_sorted (x ∷ xs) s =
      (All-map _ _ xs (λ y (e : cmp x y ≡ Ordering.lt) q. cc) s.0, Distinct-of_sorted xs s.1)

  Distinct-append :
      (xs : List A) (k : A)
      → Distinct cmp xs
      → All (λ y. cmp k y ≢ Ordering.eq) xs
      → Distinct cmp (xs ++ k ∷ [])
  Distinct-append [] k d a = (tt, tt)
  Distinct-append (x ∷ xs) k d a = (
    All-append _ xs (k ∷ []) d.0 ((λ q. a.0 (order.turn x k ∙ ap flip q)), tt),
    Distinct-append xs k d.1 a.1,
  )

  -- Appending an element with a new key and sorting again gives a sorted array.
  pub sort-IsSorted :
      (qs : Qsort) (xs : List A) (k : A)
      → IsSorted cmp xs
      → All (λ y. cmp k y ≢ Ordering.eq) xs
      → IsSorted cmp (qs.sort A cmp (xs ++ k ∷ []))
  sort-IsSorted qs xs k s a =
      IsSorted-of_Distinct _ (qs.sort_ascending A cmp (xs ++ k ∷ []) order) (
        Distinct-perm (Permᴰ.symm (qs.sort_perm A cmp (xs ++ k ∷ [])))
          (Distinct-append xs k (Distinct-of_sorted xs s) a))

  -- In a sorted array the comparison with any key falls, as the binary search needs it.
  Falls-tail_up :
      (k x : A) (xs : List A) (j : ℕ) (y : A)
      → All (λ z. cmp x z ≡ Ordering.lt) xs
      → get_elem? xs j ≡ some y
      → cmp k x ≡ Ordering.lt
      → cmp k y ≡ Ordering.lt
  Falls-tail_up k x xs j y a e l =
      order.lt_trans k x y l (All-get (λ z. cmp x z ≡ Ordering.lt) xs j y e a)

  up_lem :
      (k : A) (xs : List A) (i j : ℕ) (x y : A)
      → IsSorted cmp xs
      → i ≤ j
      → get_elem? xs i ≡ some x
      → get_elem? xs j ≡ some y
      → cmp k x ≡ Ordering.lt
      → cmp k y ≡ Ordering.lt
  up_lem k [] i j x y s h e f l = cc
  up_lem k (z ∷ zs) zero zero x y s h e f l = ground arith
  up_lem k (z ∷ zs) zero (suc j) x y s h e f l = Falls-tail_up k z zs j y s.0 f (ground arith)
  up_lem k (z ∷ zs) (suc i) zero x y s h e f l = absurd (omega arith)
  up_lem k (z ∷ zs) (suc i) (suc j) x y s h e f l = up_lem k zs i j x y s.1 (omega arith) e f l

  down_lem :
      (k : A) (xs : List A) (i j : ℕ) (x y : A)
      → IsSorted cmp xs
      → i ≤ j
      → get_elem? xs i ≡ some x
      → get_elem? xs j ≡ some y
      → cmp k y ≡ Ordering.gt
      → cmp k x ≡ Ordering.gt
  down_lem k [] i j x y s h e f l = cc
  down_lem k (z ∷ zs) zero zero x y s h e f l = ground arith
  down_lem k (z ∷ zs) zero (suc j) x y s h e f l =
      let zy = All-get (λ w. cmp z w ≡ Ordering.lt) zs j y f s.0 in
      let zk = order.lt_trans z y k zy (gt→lt order k y l) in
      let same : z ≡ x = ground arith in
      subst (λ w. cmp k w ≡ Ordering.gt) same (lt→gt order z k zk)
  down_lem k (z ∷ zs) (suc i) zero x y s h e f l = absurd (omega arith)
  down_lem k (z ∷ zs) (suc i) (suc j) x y s h e f l = down_lem k zs i j x y s.1 (omega arith) e f l

  pub IsSorted-Falls : (k : A) (xs : List A) → IsSorted cmp xs → Falls (cmp k) xs
  IsSorted-Falls k xs s = record {
    up = λ i j x y h e f l. up_lem k xs i j x y s h e f l;
    down = λ i j x y h e f l. down_lem k xs i j x y s h e f l;
  }
