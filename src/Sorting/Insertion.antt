-- ===== src/Sorting/Insertion.antt =====
-- An insertion sort, which meets what `Qsort` asks for: with it the model runs in tests.
use mathlib.Core.List.Permᴰ
use mathlib.Core.List.{Permᴰ}
use p2p_vn.Base.{◌≡◌, ◌≢◌, refl, sym, ◌∙◌, arith, Ordering, List, [], ◌∷◌, inl, inr, Ordering-cases}
use p2p_vn.Order.{IsOrder, gt→lt, eq_right}
use p2p_vn.Sorting.{Qsort, IsAscending}
use p2p_vn.Sorting.Keys.{All-perm, All-map}

unfoldable pub insert_by : {A : Type 0} → (A → A → Ordering) → A → List A → List A
insert_by cmp k [] = k ∷ []
insert_by cmp k (x ∷ xs) =
    let rest = insert_by cmp k xs in elim (cmp k x) [ Ordering.gt ↦ x ∷ rest | _ ↦ k ∷ x ∷ xs ]

unfoldable pub sort_by : {A : Type 0} → (A → A → Ordering) → List A → List A
unfolding insert_by
sort_by cmp [] = []
sort_by cmp (x ∷ xs) = insert_by cmp x (sort_by cmp xs)

module _ {A : Type 0} (cmp : A → A → Ordering) where
  insert_by-stop :
      (k x : A) (xs : List A) → cmp k x ≢ Ordering.gt → insert_by cmp k (x ∷ xs) ≡ k ∷ x ∷ xs
  unfolding insert_by
  insert_by-stop k x xs h = ground arith

  insert_by-go :
      (k x : A) (xs : List A)
      → cmp k x ≡ Ordering.gt
      → insert_by cmp k (x ∷ xs) ≡ x ∷ insert_by cmp k xs
  unfolding insert_by
  insert_by-go k x xs h = ground arith

  insert_by-perm : (k : A) (xs : List A) → Permᴰ (insert_by cmp k xs) (k ∷ xs)
  unfolding insert_by
  insert_by-perm k [] = Permᴰ.refl _
  insert_by-perm k (x ∷ xs) = elim (Ordering-cases (cmp k x)) [
    | inl e ↦ rw (insert_by-stop k x xs (λ q. cc)) (Permᴰ.refl _)
    | inr (inl e) ↦ rw (insert_by-stop k x xs (λ q. cc)) (Permᴰ.refl _)
    | inr (inr e) ↦
        rw (insert_by-go k x xs e)
          (Permᴰ.trans (Permᴰ.cons refl (insert_by-perm k xs)) (Permᴰ.swap refl refl))
  ]

  pub sort_by-perm : (xs : List A) → Permᴰ (sort_by cmp xs) xs
  unfolding sort_by
  sort_by-perm [] = Permᴰ.nil
  sort_by-perm (x ∷ xs) =
      Permᴰ.trans (insert_by-perm x (sort_by cmp xs)) (Permᴰ.cons refl (sort_by-perm xs))

  module _ (order : IsOrder cmp) where
    not_gt_trans :
        (a b c : A) → cmp a b ≢ Ordering.gt → cmp b c ≢ Ordering.gt → cmp a c ≢ Ordering.gt
    not_gt_trans a b c ab bc = elim (Ordering-cases (cmp a b)) [
      | inr (inr g) ↦ absurd (ab g)
      | inr (inl e) ↦ λ q. bc (sym (order.eq_left a b c e) ∙ q)
      | inl l ↦ elim (Ordering-cases (cmp b c)) [
        | inr (inr g) ↦ absurd (bc g)
        | inl m ↦ λ q. cc (order.lt_trans a b c l m)
        | inr (inl e) ↦ λ q. cc (eq_right order a b c e)
      ]
    ]

    insert_by-IsAscending :
        (k : A) (xs : List A) → IsAscending cmp xs → IsAscending cmp (insert_by cmp k xs)
    unfolding insert_by
    insert_by-IsAscending k [] a = (tt, tt)
    insert_by-IsAscending k (x ∷ xs) a = elim (Ordering-cases (cmp k x)) [
      | inl e ↦ rw (insert_by-stop k x xs (λ q. cc)) (front (λ q. cc))
      | inr (inl e) ↦ rw (insert_by-stop k x xs (λ q. cc)) (front (λ q. cc))
      | inr (inr e) ↦ rw (insert_by-go k x xs e) (
        All-perm (λ y. cmp x y ≢ Ordering.gt) (Permᴰ.symm (insert_by-perm k xs))
            ((λ q. cc (gt→lt order k x e)), a.0),
        insert_by-IsAscending k xs a.1,
      )
    ]
      where
        front : cmp k x ≢ Ordering.gt → IsAscending cmp (k ∷ x ∷ xs)
        front h = ((h, All-map _ _ xs (λ y q. not_gt_trans k x y h q) a.0), a)

    pub sort_by-IsAscending : (xs : List A) → IsAscending cmp (sort_by cmp xs)
    unfolding sort_by
    sort_by-IsAscending [] = tt
    sort_by-IsAscending (x ∷ xs) = insert_by-IsAscending x _ (sort_by-IsAscending xs)

abbrev pub insertion : Qsort
insertion = record {
  sort = λ A cmp xs. sort_by cmp xs;
  sort_perm = λ A cmp xs. sort_by-perm cmp xs;
  sort_ascending = λ A cmp xs o. sort_by-IsAscending cmp o xs;
}
