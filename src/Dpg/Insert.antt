-- ===== src/Dpg/Insert.antt =====
-- `dpg_insert` keeps one entry for each Ethernet address, in order.
use mathlib.Core.List.{Permᴰ}
use p2p_vn.Base.{
  ℕ, ◌^◌, ◌<◌, ◌≤◌, ◌≡◌, ◌≢◌, ◌⊎◌, inl, inr, refl, Bool, true, false, some, Ordering, ℤ, pos,
  is_neg, ◌∷◌, All, get_elem?,
}
use p2p_vn.Order.{IsOrder}
use p2p_vn.Order.Bytes.{memcmp-IsOrder, key-IsOrder}
use p2p_vn.Sorting.{Qsort}
use p2p_vn.Sorting.Keys.{All-get}
use p2p_vn.Search.{Search, found, missing, fault}
use p2p_vn.DArray.{live, add_to_end, sort_items}
use p2p_vn.DArray.Keyed.{IsKeyed, find_in, find_in-Answers, insert-IsKeyed, missing-fresh}
use p2p_vn.Dpg.{Group, Peer, dp_cmp, dpg_insert}

pub dp_cmp-IsOrder : IsOrder dp_cmp
unfolding dp_cmp
dp_cmp-IsOrder = key-IsOrder (λ (p : Peer). p.mac) memcmp-IsOrder

-- Sorted by Ethernet address with no address twice, and small enough for doubling.
pub record IsGroup (g : Group) : Type 0 where
  pub keyed : IsKeyed dp_cmp g.dps
  pub small : g.dps.ct ≤ 2 ^ 63

-- No peer of the group has the address of `dp`.
abbrev pub IsAbsent : Group → Peer → Type 0
IsAbsent g dp = All (λ p. dp_cmp dp p ≢ Ordering.eq) (live g.dps)

pub Search-cases : (s : Search) → ((i : ℕ) × (s ≡ found i)) ⊎ ((s ≡ missing) ⊎ (s ≡ fault))
Search-cases (found i) = inl (i, refl)
Search-cases missing = inr (inl refl)
Search-cases fault = inr (inr refl)

module _ (g : Group) (dp : Peer) (v : IsGroup g) where
  -- What the search for the address of `dp` finds.
  pub lookup :
      ((i : ℕ) × (p : Peer) × (find_in (dp_cmp dp) g.dps ≡ found i)
        × (get_elem? (live g.dps) i ≡ some p)
        × (dp_cmp dp p ≡ Ordering.eq))
      ⊎ ((find_in (dp_cmp dp) g.dps ≡ missing) × IsAbsent g dp)
  lookup =
      let a = find_in-Answers dp_cmp-IsOrder g.dps dp v.keyed v.small in
      elim (Search-cases (find_in (dp_cmp dp) g.dps)) [
        | inl (i, e) ↦ let r = rw e at a in inl (i, r.0, e, r.1, r.2)
        | inr (inl e) ↦ inr (e, missing-fresh dp_cmp-IsOrder g.dps dp (rw e at a))
        | inr (inr e) ↦ absurd (rw e at a)
      ]

module _ (qs : Qsort) (lock : ℤ) (granted : Bool) (g : Group) (dp : Peer) (v : IsGroup g)
    (held : is_neg lock ≡ false) (room : g.dps.mem < 2 ^ 62) where
  -- With the lock taken, for a group sorted by address with no address twice, at most 2^63 peers
  -- and memory below 2^62, and room or memory granted: a peer whose address is new goes in. The
  -- result is 0, the entries are the old ones and the peer, sorted again with no address twice,
  -- and the local address stays.
  pub dpg_insert_new :
      IsAbsent g dp
      → (granted ≡ true) ⊎ (g.dps.ct < g.dps.mem)
      → (g' : Group) × (dpg_insert qs lock granted g dp ≡ some (pos 0, g'))
        × IsKeyed dp_cmp g'.dps
        × Permᴰ (live g'.dps) (dp ∷ live g.dps)
        × (g'.l_addr ≡ g.l_addr)
  unfolding dpg_insert
  dpg_insert_new absent given =
      let (ok, keyed, perm) =
        insert-IsKeyed dp_cmp-IsOrder qs granted g.dps dp v.keyed room given absent in
      elim (lookup g dp v) [
        | inl (i, p, e, at_i, same) ↦ absurd (All-get _ (live g.dps) i p at_i absent same)
        | inr (e, _) ↦ (
          record g { dps = sort_items qs dp_cmp (add_to_end granted g.dps dp).1 },
          rw (held, e, ok),
          keyed,
          perm,
          refl,
        )
      ]

  -- With the lock taken, for a group sorted by address with no address twice, at most 2^63 peers
  -- and memory below 2^62: a peer whose address the group has is refused with 1, and the group
  -- stays as it was.
  pub dpg_insert_duplicate : ¬ IsAbsent g dp → dpg_insert qs lock granted g dp ≡ some (pos 1, g)
  unfolding dpg_insert
  dpg_insert_duplicate present = elim (lookup g dp v) [
    | inl (i, p, e, at_i, same) ↦ rw (held, e)
    | inr (e, absent) ↦ absurd (present absent)
  ]
