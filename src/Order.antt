-- ===== src/Order.antt =====
-- What a comparison function of the program promises to `qsort` and to the binary search of
-- stdparam.h; the three signs of its `int` are `lt`, `eq` and `gt`. And `memcmp`, on which the
-- comparisons are built.
pub mod Bytes
use p2p_vn.Base.{
  ℕ, ◌≡◌, ◌≢◌, refl, sym, ap, subst, ◌∙◌, arith, Ordering, List, [], ◌∷◌, All, inl, inr, ◌⊎◌,
  Ordering-cases,
}

abbrev pub flip : Ordering → Ordering
flip Ordering.lt = Ordering.gt
flip Ordering.eq = Ordering.eq
flip Ordering.gt = Ordering.lt

pub record IsOrder {ℓ} {A : Type ℓ} (cmp : A → A → Ordering) : Type ℓ where
  pub self : (a : A) → cmp a a ≡ Ordering.eq
  pub turn : (a b : A) → cmp b a ≡ flip (cmp a b)
  pub lt_trans : (a b c : A) → cmp a b ≡ Ordering.lt → cmp b c ≡ Ordering.lt → cmp a c ≡ Ordering.lt
  pub eq_left : (a b c : A) → cmp a b ≡ Ordering.eq → cmp a c ≡ cmp b c

-- Strictly ascending, so without two equal keys.
abbrev pub IsSorted {ℓ} : {A : Type ℓ} → (A → A → Ordering) → List A → Type 0
IsSorted cmp [] = Unit {0}
IsSorted cmp (x ∷ xs) = All (λ y. cmp x y ≡ Ordering.lt) xs × IsSorted cmp xs

module _ {ℓ} {A : Type ℓ} {cmp : A → A → Ordering} (order : IsOrder cmp) where
  pub eq_right : (a b c : A) → cmp b c ≡ Ordering.eq → cmp a b ≡ cmp a c
  eq_right a b c e = order.turn b a ∙ ap flip (order.eq_left b c a e) ∙ sym (order.turn c a)

  pub gt→lt : (a b : A) → cmp a b ≡ Ordering.gt → cmp b a ≡ Ordering.lt
  gt→lt a b e = order.turn a b ∙ ap flip e

  pub lt→gt : (a b : A) → cmp a b ≡ Ordering.lt → cmp b a ≡ Ordering.gt
  lt→gt a b e = order.turn a b ∙ ap flip e

  -- A key below an element is below everything above that element.
  pub All-lt_trans :
      (k x : A) (xs : List A)
      → cmp k x ≡ Ordering.lt
      → All (λ y. cmp x y ≡ Ordering.lt) xs
      → All (λ y. cmp k y ≡ Ordering.lt) xs
  All-lt_trans k x [] e a = tt
  All-lt_trans k x (y ∷ ys) e a = (order.lt_trans k x y e a.0, All-lt_trans k x ys e a.1)
