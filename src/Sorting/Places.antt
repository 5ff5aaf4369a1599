-- ===== src/Sorting/Places.antt =====
-- Places in a sorted list: one for each key, kept when an element is replaced by an equal one.
use mathlib.Core.List.{Permᴰ}
use p2p_vn.Base.{
  ℕ, zero, suc, ◌<◌, ◌≡◌, refl, sym, ap, ◌∙◌, subst, arith, some, Ordering, List, [], ◌∷◌, All,
  get_elem?, length, set, take,
}
use p2p_vn.Order.{IsOrder, IsSorted, eq_right}
use p2p_vn.Sorting.Keys.{All-get}

-- In a sorted array two elements with equal keys are one.
pub sorted_unique :
    {A : Type 0} {cmp : A → A → Ordering} (order : IsOrder cmp) (xs : List A) (i j : ℕ) (a b : A)
    → IsSorted cmp xs
    → get_elem? xs i ≡ some a
    → get_elem? xs j ≡ some b
    → cmp a b ≡ Ordering.eq
    → a ≡ b
sorted_unique order [] i j a b s e f q = cc
sorted_unique order (x ∷ xs) zero zero a b s e f q = ground arith
sorted_unique {cmp} order (x ∷ xs) zero (suc j) a b s e f q =
    let l = All-get (λ y. cmp x y ≡ Ordering.lt) xs j b f s.0 in
    let same : x ≡ a = ground arith in
    let l' : cmp a b ≡ Ordering.lt = subst (λ z. cmp z b ≡ Ordering.lt) same l in cc
sorted_unique {cmp} order (x ∷ xs) (suc i) zero a b s e f q =
    let l = All-get (λ y. cmp x y ≡ Ordering.lt) xs i a e s.0 in
    let same : x ≡ b = ground arith in
    let l' : cmp b a ≡ Ordering.lt = subst (λ z. cmp z a ≡ Ordering.lt) same l in
    cc (order.eq_left a b a q, order.self a)
sorted_unique order (x ∷ xs) (suc i) (suc j) a b s e f q = sorted_unique order xs i j a b s.1 e f q

module _ {A : Type 0} where
  pub take-set : (n : ℕ) (xs : List A) (i : ℕ) (v : A) → take n (set xs i v) ≡ set (take n xs) i v
  take-set zero xs i v = refl
  take-set (suc n) [] i v = refl
  take-set (suc n) (x ∷ xs) zero v = refl
  take-set (suc n) (x ∷ xs) (suc i) v = ap (λ l. x ∷ l) (take-set n xs i v)

  pub get_elem?-set :
      (xs : List A) (i : ℕ) (v : A) → i < length xs → get_elem? (set xs i v) i ≡ some v
  get_elem?-set [] i v h = absurd (omega arith)
  get_elem?-set (x ∷ xs) zero v h = refl
  get_elem?-set (x ∷ xs) (suc i) v h = get_elem?-set xs i v (omega arith)

  module _ {cmp : A → A → Ordering} (order : IsOrder cmp) where
    All-set_same :
        (x a v : A) (xs : List A) (i : ℕ)
        → get_elem? xs i ≡ some a
        → cmp a v ≡ Ordering.eq
        → All (λ y. cmp x y ≡ Ordering.lt) xs
        → All (λ y. cmp x y ≡ Ordering.lt) (set xs i v)
    All-set_same x a v [] i e q h = tt
    All-set_same x a v (y ∷ ys) zero e q h =
        let same : y ≡ a = ground arith in
        (sym (eq_right order x a v q) ∙ subst (λ z. cmp x z ≡ Ordering.lt) same h.0, h.1)
    All-set_same x a v (y ∷ ys) (suc i) e q h = (h.0, All-set_same x a v ys i e q h.1)

    -- Writing an element with the same key keeps an array sorted.
    pub IsSorted-set_same :
        (a v : A) (xs : List A) (i : ℕ)
        → get_elem? xs i ≡ some a
        → cmp a v ≡ Ordering.eq
        → IsSorted cmp xs
        → IsSorted cmp (set xs i v)
    IsSorted-set_same a v [] i e q s = tt
    IsSorted-set_same a v (y ∷ ys) zero e q s =
        let same : y ≡ a = ground arith in
        (keep ys (subst (λ z. All (λ w. cmp z w ≡ Ordering.lt) ys) same s.0), s.1)
      where
        keep :
            (ws : List A)
            → All (λ w. cmp a w ≡ Ordering.lt) ws
            → All (λ w. cmp v w ≡ Ordering.lt) ws
        keep [] h = tt
        keep (w ∷ ws) h = (sym (order.eq_left a v w q) ∙ h.0, keep ws h.1)
    IsSorted-set_same a v (y ∷ ys) (suc i) e q s =
        (All-set_same y a v ys i e q s.0, IsSorted-set_same a v ys i e q s.1)

pub index_perm :
    {A : Type 0} {xs ys : List A}
    → Permᴰ xs ys
    → (i : ℕ) (x : A) → get_elem? xs i ≡ some x
    → (j : ℕ) × (get_elem? ys j ≡ some x)
index_perm Permᴰ.nil i x e = cc
index_perm (Permᴰ.cons {a} {b} q p) zero x e = (0, ground arith)
index_perm (Permᴰ.cons {a} {b} q p) (suc i) x e = let r = index_perm p i x e in (suc r.0, r.1)
index_perm (Permᴰ.swap q f) zero x e = (1, ground arith)
index_perm (Permᴰ.swap q f) (suc zero) x e = (0, ground arith)
index_perm (Permᴰ.swap q f) (suc (suc i)) x e = (suc (suc i), e)
index_perm (Permᴰ.trans p q) i x e = let r = index_perm p i x e in index_perm q r.0 x r.1
