-- ===== src/Dpg/Remove.antt =====
-- `dpg_remove` takes out the entry with the address of the given peer.
use mathlib.Core.List.Permᴰ
use mathlib.Core.List.{Permᴰ}
use p2p_vn.Base.{
  ℕ, zero, suc, ◌<◌, ◌≡◌, ◌≢◌, inl, inr, refl, subst, arith, false, some, Ordering, ℤ, pos, neg,
  is_neg, List, [], ◌∷◌, All, get_elem?,
}
use p2p_vn.Order.{IsSorted}
use p2p_vn.Search.Sorted.{get_elem?_lt}
use p2p_vn.Sorting.Keys.{All-get, All-map}
use p2p_vn.DArray.{live, remove}
use p2p_vn.DArray.Laws.{erase_at}
use p2p_vn.DArray.Keyed.{IsKeyed, length-live, remove-IsKeyed}
use p2p_vn.Dpg.{Group, Peer, dp_cmp, dpg_remove}
use p2p_vn.Dpg.Insert.{IsGroup, IsAbsent, lookup, dp_cmp-IsOrder}

erase_at-perm :
    {A : Type 0} (xs : List A) (i : ℕ) (x : A)
    → get_elem? xs i ≡ some x
    → Permᴰ xs (x ∷ erase_at xs i)
unfolding erase_at
erase_at-perm [] i x e = cc
erase_at-perm (y ∷ ys) zero x e = let same : y ≡ x = ground arith in Permᴰ.cons same (Permᴰ.refl ys)
erase_at-perm (y ∷ ys) (suc i) x e =
    Permᴰ.trans (Permᴰ.cons refl (erase_at-perm ys i x e)) (Permᴰ.swap refl refl)

erase_at-absent :
    (k x : Peer) (xs : List Peer) (i : ℕ)
    → IsSorted dp_cmp xs
    → get_elem? xs i ≡ some x
    → dp_cmp k x ≡ Ordering.eq
    → All (λ p. dp_cmp k p ≢ Ordering.eq) (erase_at xs i)
unfolding erase_at
erase_at-absent k x [] i s e q = tt
erase_at-absent k x (y ∷ ys) zero s e q =
    let same : y ≡ x = ground arith in
    All-map _ _ ys
      (λ p (l : dp_cmp y p ≡ Ordering.lt) c.
        let kp = dp_cmp-IsOrder.eq_left k x p q in
        let xp : dp_cmp x p ≡ Ordering.lt = subst (λ z. dp_cmp z p ≡ Ordering.lt) same l in cc)
      s.0
erase_at-absent k x (y ∷ ys) (suc i) s e q =
    let yx = All-get (λ p. dp_cmp y p ≡ Ordering.lt) ys i x e s.0 in
    ((λ c. let yk = dp_cmp-IsOrder.eq_left k y x c in cc), erase_at-absent k x ys i s.1 e q)

module _ (lock : ℤ) (g : Group) (dp : Peer) (v : IsGroup g) (held : is_neg lock ≡ false) where
  -- With the lock taken, for a group sorted by address with no address twice and at most 2^63
  -- peers, one of which has the address of the given peer: the result is 0, exactly one entry is
  -- gone, which has that address, and the group is again sorted with no address twice and without
  -- that address.
  pub dpg_remove_found :
      ¬ IsAbsent g dp
      → (g' : Group) × (p : Peer) × (dpg_remove lock g dp ≡ some (pos 0, g'))
        × (dp_cmp dp p ≡ Ordering.eq)
        × Permᴰ (live g.dps) (p ∷ live g'.dps)
        × IsKeyed dp_cmp g'.dps
        × IsAbsent g' dp
  unfolding dpg_remove
  dpg_remove_found present = elim (lookup g dp v) [
    | inr (e, absent) ↦ absurd (present absent)
    | inl (i, p, e, at_i, same) ↦
        let lt : i < g.dps.ct = omega (
          arith,
          get_elem?_lt (live g.dps) i p at_i,
          length-live dp_cmp-IsOrder g.dps v.keyed.array,
        ) in
        let (keyed, shape) = remove-IsKeyed dp_cmp-IsOrder g.dps i v.keyed lt in
        (
          record g { dps = remove g.dps i },
          p,
          rw (held, e),
          same,
          rw shape (erase_at-perm (live g.dps) i p at_i),
          keyed,
          rw shape (erase_at-absent dp p (live g.dps) i v.keyed.sorted at_i same),
        )
  ]

  -- With the lock taken, for a group sorted by address with no address twice and at most 2^63
  -- peers, none of which has the address of the given peer: the result is -2 and the group stays
  -- as it was.
  pub dpg_remove_missing : IsAbsent g dp → dpg_remove lock g dp ≡ some (neg 2, g)
  unfolding dpg_remove
  dpg_remove_missing absent = elim (lookup g dp v) [
    | inl (i, p, e, at_i, same) ↦ absurd (All-get _ (live g.dps) i p at_i absent same)
    | inr (e, _) ↦ rw (held, e)
  ]
