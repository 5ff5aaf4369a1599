-- ===== src/Sorting.antt =====
-- `qsort` of the C library, which the program calls after each insertion: a parameter of the model,
-- with what its documentation promises. Equal elements may come in any order.
pub mod Keys
pub mod Insertion
pub mod Places
use mathlib.Core.List.{Permᴰ}
use p2p_vn.Base.{◌≢◌, Ordering, List, [], ◌∷◌, All}
use p2p_vn.Order.{IsOrder}

abbrev pub IsAscending : {A : Type 0} → (A → A → Ordering) → List A → Type 0
IsAscending cmp [] = Unit {0}
IsAscending cmp (x ∷ xs) = All (λ y. cmp x y ≢ Ordering.gt) xs × IsAscending cmp xs

pub record Qsort : Type 1 where
  pub sort : (A : Type 0) → (A → A → Ordering) → List A → List A
  pub sort_perm : (A : Type 0) (cmp : A → A → Ordering) (xs : List A) → Permᴰ (sort A cmp xs) xs
  pub sort_ascending :
      (A : Type 0) (cmp : A → A → Ordering) (xs : List A)
      → IsOrder cmp
      → IsAscending cmp (sort A cmp xs)
