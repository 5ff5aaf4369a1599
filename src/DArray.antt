-- ===== src/DArray.antt =====
-- darray.h: the growable array macros. `items` holds the cells that have been written since the
-- memory was obtained, the first `ct` of them live; behind them stand values that DA_REMOVE left.
-- Whether `malloc` or `realloc` gives memory is the argument `granted`. A macro that reports failure
-- returns the C `bool fail` beside the array.
pub mod Laws
pub mod Keyed
mod Tests
use p2p_vn.Base.{
  ℕ, zero, suc, ◌+◌, ◌-◌, ◌*◌, ◌%◌, ◌^◌, Bool, true, false, List, [], ◌∷◌, ◌++◌, ltb, if◌then◌else◌,
  take, drop,
}
use p2p_vn.Sorting.{Qsort}
use p2p_vn.Base.{Ordering}

pub record DArray (A : Type 0) : Type 0 where
  pub ct : ℕ
  pub mem : ℕ
  pub items : List A

module _ {A : Type 0} where
  -- `items[i] = v`, in a cell written before or in the first one that was not.
  unfoldable pub store : List A → ℕ → A → List A
  store [] zero v = v ∷ []
  store [] (suc i) v = []
  store (x ∷ xs) zero v = v ∷ xs
  store (x ∷ xs) (suc i) v = x ∷ store xs i v

  -- DA_INIT
  unfoldable pub da_init : Bool → ℕ → Bool × DArray A
  da_init granted init_sz =
      (if granted then false else true, record { ct = 0; mem = init_sz; items = [] })

  -- DA_DESTROY
  unfoldable pub da_destroy : DArray A → DArray A
  da_destroy d = record { ct = 0; mem = 0; items = [] }

  -- DA_CHECK_AND_REALLOC, for `new_elem_ct` elements.
  unfoldable pub check_and_realloc : Bool → DArray A → ℕ → Bool × DArray A
  check_and_realloc granted d new_elem_ct =
      if ltb d.mem new_elem_ct
      then if granted then (false, record d { mem = (2 * d.mem + 8) % 2 ^ 64 }) else (true, d)
      else (false, d)

  -- DA_ADD_TO_END, also called da_append.
  unfoldable pub add_to_end : Bool → DArray A → A → Bool × DArray A
  unfolding check_and_realloc store
  add_to_end granted d item =
      let (failed, grown) = check_and_realloc granted d (d.ct + 1) in
      if failed
      then (true, grown)
      else (false, record grown { items = store grown.items grown.ct item; ct = grown.ct + 1 })

  -- DA_REMOVE of the element at index `ct_ahead`: `memmove` shifts the rest down by one cell, and
  -- the last cell keeps its value.
  unfoldable pub remove : DArray A → ℕ → DArray A
  remove d ct_ahead =
      let ct = (d.ct + 2 ^ 64 - 1) % 2 ^ 64 in
      let ct_to_end = (ct + 2 ^ 64 - ct_ahead) % 2 ^ 64 in
      record d {
        ct = ct;
        items =
            take ct_ahead d.items
            ++ (take ct_to_end (drop (suc ct_ahead) d.items)
                ++ drop (ct_ahead + ct_to_end) d.items);
      }

  -- The live elements.
  abbrev pub live : DArray A → List A
  live d = take d.ct d.items

  -- `qsort(items, ct, …)`
  unfoldable pub sort_items : Qsort → (A → A → Ordering) → DArray A → DArray A
  sort_items qs cmp d = record d { items = qs.sort A cmp (live d) ++ drop d.ct d.items }
