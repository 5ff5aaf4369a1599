-- ===== src/Order/Bytes.antt =====
-- `memcmp` on two byte strings of one length. The program compares ETH_ALEN bytes of an address, and
-- the bytes of an IPv4 address or a port.
use p2p_vn.Base.{ℕ, ◌≡◌, refl, sym, ap, ◌∙◌, arith, Ordering, compare, List, [], ◌∷◌, ◌↔◌}
use p2p_vn.Order.{IsOrder, flip, eq_right}

abbrev pub then_by : Ordering → Ordering → Ordering
then_by Ordering.eq rest = rest
then_by o rest = o

-- A shorter string is the lower one, which never decides: both have the same length.
unfoldable pub memcmp : List ℕ → List ℕ → Ordering
memcmp [] [] = Ordering.eq
memcmp [] (y ∷ ys) = Ordering.lt
memcmp (x ∷ xs) [] = Ordering.gt
memcmp (x ∷ xs) (y ∷ ys) = then_by (compare x y) (memcmp xs ys)

pub memcmp_self : (xs : List ℕ) → memcmp xs xs ≡ Ordering.eq
unfolding memcmp
memcmp_self [] = refl
memcmp_self (x ∷ xs) = ground (arith, memcmp_self xs)

memcmp-turn : (xs ys : List ℕ) → memcmp ys xs ≡ flip (memcmp xs ys)
unfolding memcmp
memcmp-turn [] [] = refl
memcmp-turn [] (y ∷ ys) = refl
memcmp-turn (x ∷ xs) [] = refl
memcmp-turn (x ∷ xs) (y ∷ ys) = ground (arith, memcmp-turn xs ys)

memcmp-lt_trans :
    (xs ys zs : List ℕ)
    → memcmp xs ys ≡ Ordering.lt
    → memcmp ys zs ≡ Ordering.lt
    → memcmp xs zs ≡ Ordering.lt
unfolding memcmp
memcmp-lt_trans [] [] zs e f = cc
memcmp-lt_trans [] (y ∷ ys) [] e f = cc
memcmp-lt_trans [] (y ∷ ys) (z ∷ zs) e f = refl
memcmp-lt_trans (x ∷ xs) [] zs e f = cc
memcmp-lt_trans (x ∷ xs) (y ∷ ys) [] e f = cc
memcmp-lt_trans (x ∷ xs) (y ∷ ys) (z ∷ zs) e f = ground (arith, memcmp-lt_trans xs ys zs)

pub memcmp→eq : (xs ys : List ℕ) → memcmp xs ys ≡ Ordering.eq → xs ≡ ys
unfolding memcmp
memcmp→eq [] [] e = refl
memcmp→eq [] (y ∷ ys) e = cc
memcmp→eq (x ∷ xs) [] e = cc
memcmp→eq (x ∷ xs) (y ∷ ys) e = ground (arith, memcmp→eq xs ys)

-- `memcmp` returns 0 exactly on equal byte strings.
pub memcmp_iff : (xs ys : List ℕ) → (memcmp xs ys ≡ Ordering.eq) ↔ (xs ≡ ys)
memcmp_iff xs ys = (memcmp→eq xs ys, λ e. ap (λ s. memcmp xs s) (sym e) ∙ memcmp_self xs)

pub memcmp-IsOrder : IsOrder memcmp
memcmp-IsOrder = record {
  self = memcmp_self;
  turn = memcmp-turn;
  lt_trans = memcmp-lt_trans;
  eq_left = λ xs ys zs e. ap (λ s. memcmp s zs) (memcmp→eq xs ys e);
}

-- A comparison of keys is an order of what has the keys.
pub key-IsOrder {ℓ κ} :
    {A : Type ℓ} {K : Type κ} {cmp : K → K → Ordering} (key : A → K)
    → IsOrder cmp
    → IsOrder (λ (a b : A). cmp (key a) (key b))
key-IsOrder key o = record {
  self = λ a. o.self (key a);
  turn = λ a b. o.turn (key a) (key b);
  lt_trans = λ a b c. o.lt_trans (key a) (key b) (key c);
  eq_left = λ a b c. o.eq_left (key a) (key b) (key c);
}

-- First by `f`, and where that says equal, by `g`.
module _ {A : Type 0} {f g : A → A → Ordering} (of : IsOrder f) (og : IsOrder g) where
  lex-lt_trans :
      (a b c : A)
      → then_by (f a b) (g a b) ≡ Ordering.lt
      → then_by (f b c) (g b c) ≡ Ordering.lt
      → then_by (f a c) (g a c) ≡ Ordering.lt
  lex-lt_trans a b c p q =
      ground (arith, of.lt_trans a b c, of.eq_left a b c, eq_right of a b c, og.lt_trans a b c)

  pub lex-IsOrder : IsOrder (λ a b. then_by (f a b) (g a b))
  lex-IsOrder = record {
    self = λ a. ground (arith, of.self a, og.self a);
    turn = λ a b. ground (arith, of.turn a b, og.turn a b);
    lt_trans = lex-lt_trans;
    eq_left = λ a b c e. ground (arith, of.eq_left a b c, og.eq_left a b c);
  }
