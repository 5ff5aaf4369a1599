-- ===== src/Paths/Hops.antt =====
-- The table `next` of `compute_paths`: what an entry says, and why following it comes to an end.
use p2p_vn.Base.{
  ℕ, zero, suc, ◌<◌, ◌≤◌, ◌≡◌, ◌≢◌, refl, sym, ap, subst, ◌∙◌, ◌⊎◌, arith, List, length, inl, inr,
}
use p2p_vn.Paths.{Links, at, tables_of, via_cost, u32_mod, next_discon}
use p2p_vn.Paths.Cost.{via_cost-exact, via_cost-pos, via_cost-ge_right}
use p2p_vn.Paths.Round.{
  Cell, Grid, IsSeeded, cell, relax_cell, relax_cell_cases, relax_cell-le, relaxed, relaxed-row,
  relaxed-col,
}
use p2p_vn.Paths.Simultaneous.{rounds, Agree, rounds-IsSeeded}
use p2p_vn.Paths.Reach.{relax_cell-zero}
use p2p_vn.Paths.Seed.{IsNetwork, direct, direct-IsSeeded, tables_of-rounds}

-- After `k` rounds the entry at `(a, b)` is a host `h` between the two, with a path from `a` to `h`
-- and one from `h` to `b` that weighs less than that from `a` to `b`; or both weigh 1, and the next
-- entry on the way to `b` is a lower host or none.
pub record Between (n k : ℕ) (g : Grid) (a b h : ℕ) : Type 0 where
  pub inside : h < n
  pub early : h < k
  pub off : h ≢ a
  pub to : (g a h).dist ≢ 0
  pub from : (g h b).dist ≢ 0
  pub nearer : (g h b).dist ≤ (g a b).dist
  pub falls : (g h b).dist ≡ (g a b).dist → (g h b).dist ≡ 1
  pub down : (g a b).dist ≡ 1 → ((g h b).hop ≡ next_discon) ⊎ ((g h b).hop < h)

abbrev pub IsHop : (n k : ℕ) (g : Grid) (a b : ℕ) → Type 0
IsHop n k g a b = ((g a b).hop ≡ next_discon) ⊎ Between n k g a b (g a b).hop

relax_cell-fixed :
    (k p q : ℕ) (c : Cell) → p < u32_mod → q < u32_mod → c.dist ≡ 1 → relax_cell k p q c ≡ c
relax_cell-fixed k p q c hp hq e = elim (relax_cell_cases k p q c) [
  | inl same ↦ same
  | inr (np, nq, lower, set) ↦ absurd (omega (arith, via_cost-pos p q hp hq np nq))
]

module _ {n : ℕ} {g : Grid} (seeded : IsSeeded n g) (k : ℕ) (hk : k < n) where
  kept_pos : (a b : ℕ) → a < n → b < n → (g a b).dist ≢ 0 → (relaxed k g a b).dist ≢ 0
  kept_pos a b ha hb h z =
      h ((relax_cell-zero k _ _ (g a b) (seeded.small a k ha hk) (seeded.small k b hk hb)).0 z)

  pos_one : (a b : ℕ) → a < n → b < n → (g a b).dist ≡ 1 → (relaxed k g a b).dist ≡ 1
  pos_one a b ha hb e =
      let le = relax_cell-le k (g a k).dist (g k b).dist (g a b) in
      let ne = kept_pos a b ha hb (omega arith) in omega arith

  one_kept : (a b : ℕ) → a < n → b < n → (g a b).dist ≡ 1 → relaxed k g a b ≡ g a b
  one_kept a b ha hb e =
      relax_cell-fixed k (g a k).dist (g k b).dist (g a b) (seeded.small a k ha hk)
        (seeded.small k b hk hb) e

  -- The next entry behind one that weighs 1 does not change any more.
  kept_down :
      (a b h : ℕ)
      → a < n
      → b < n
      → Between n k g a b h
      → (g a b).dist ≡ 1
      → ((relaxed k g h b).hop ≡ next_discon) ⊎ ((relaxed k g h b).hop < h)
  kept_down a b h ha hb v q =
      let near = v.nearer in
      let pos = v.from in rw (one_kept h b v.inside hb (omega arith)) (v.down q)

  -- An entry that the round leaves alone.
  kept_Between :
      (a b h : ℕ)
      → a < n
      → b < n
      → (relaxed k g a b).dist ≡ (g a b).dist
      → Between n k g a b h
      → Between n (suc k) (relaxed k g) a b h
  kept_Between a b h ha hb e v =
      let le = relax_cell-le k (g h k).dist (g k b).dist (g h b) in
      let near = v.nearer in
      record {
        inside = v.inside;
        early = omega (arith, v.early);
        off = v.off;
        to = kept_pos a h ha v.inside v.to;
        from = kept_pos h b v.inside hb v.from;
        nearer = omega arith;
        falls = λ q. pos_one h b v.inside hb (v.falls (omega arith));
        down = λ q. kept_down a b h ha hb v (omega (arith, e, q));
      }

  -- An entry that the round sets to `k`.
  set_Between :
      (a b : ℕ)
      → a < n
      → b < n
      → (g a k).dist ≢ 0
      → (g k b).dist ≢ 0
      → via_cost (g a k).dist (g k b).dist < (g a b).dist
      → (relaxed k g a b).dist ≡ via_cost (g a k).dist (g k b).dist
      → IsHop n k g k b
      → Between n (suc k) (relaxed k g) a b k
  set_Between a b ha hb np nq lower e was =
      let p = seeded.small a k ha hk in
      let q = seeded.small k b hk hb in
      let row = ap (λ (c : Cell). c.dist) (relaxed-row seeded k hk b hb) in
      let col = ap (λ (c : Cell). c.dist) (relaxed-col seeded k hk a ha) in
      let small = seeded.small a b ha hb in
      let sum = via_cost-exact (g a k).dist (g k b).dist p q np nq in
      record {
        inside = hk;
        early = omega arith;
        off = λ c. moved c;
        to = rw col np;
        from = rw row nq;
        nearer = omega (arith, row, e, via_cost-ge_right (g a k).dist (g k b).dist p q np nq);
        falls = λ same. ground (arith, sum, row, e);
        down = λ q.
            rw (ap (λ (c : Cell). c.hop) (relaxed-row seeded k hk b hb))
              (elim was [ inl d ↦ inl d | inr w ↦ inr w.early ]);
      }
    where
      moved : ¬ (k ≡ a)
      moved c =
          let stay = ap (λ (d : Cell). d.dist) (relaxed-row seeded k hk b hb) in
          let stay' : (relaxed k g a b).dist ≡ (g a b).dist =
            subst (λ x. (relaxed k g x b).dist ≡ (g x b).dist) c stay in
          omega (arith, stay', e, lower)

  relaxed-IsHop :
      (a b : ℕ)
      → a < n
      → b < n
      → IsHop n k g a b
      → IsHop n k g k b
      → IsHop n (suc k) (relaxed k g) a b
  relaxed-IsHop a b ha hb v was = elim (relax_cell_cases k (g a k).dist (g k b).dist (g a b)) [
    | inr (np, nq, lower, e) ↦ inr (
        subst (Between n (suc k) (relaxed k g) a b) (sym (ap (λ (c : Cell). c.hop) e))
          (set_Between a b ha hb np nq lower (ap (λ (c : Cell). c.dist) e) was))
    | inl e ↦ elim v [
      | inl d ↦ inl (ap (λ (c : Cell). c.hop) e ∙ d)
      | inr w ↦ inr (
          subst (Between n (suc k) (relaxed k g) a b) (sym (ap (λ (c : Cell). c.hop) e))
            (kept_Between a b (g a b).hop ha hb (ap (λ (c : Cell). c.dist) e) w))
    ]
  ]

module _ {n : ℕ} {g : Grid} (seeded : IsSeeded n g)
    (fresh : (a b : ℕ) → (g a b).hop ≡ next_discon) where
  rounds-IsHop : (k a b : ℕ) → k ≤ n → a < n → b < n → IsHop n k (rounds k g) a b
  unfolding rounds
  rounds-IsHop zero a b hk ha hb = inl (fresh a b)
  rounds-IsHop (suc k) a b hk ha hb =
      relaxed-IsHop (rounds-IsSeeded n k g (omega arith) seeded) k (omega arith) a b ha hb
        (rounds-IsHop k a b (omega arith) ha hb) (rounds-IsHop k k b (omega arith) (omega arith) hb)

  rounds-diag_hop : (k a : ℕ) → k ≤ n → a < n → (rounds k g a a).hop ≡ next_discon
  unfolding rounds
  rounds-diag_hop zero a hk ha = fresh a a
  rounds-diag_hop (suc k) a hk ha =
      let s = rounds-IsSeeded n k g (omega arith) seeded in
      rw (one_kept s k (omega arith) a a ha ha (s.diag a ha)) (rounds-diag_hop k a (omega arith) ha)

Between-Agree :
    {n k : ℕ} {g g' : Grid} {a b h : ℕ}
    → Agree n g g'
    → a < n
    → b < n
    → Between n k g a b h
    → Between n k g' a b h
Between-Agree {g} {a} {b} {h} e ha hb v =
    let ah = ap (λ (c : Cell). c.dist) (e a h ha v.inside) in
    let hb' = ap (λ (c : Cell). c.dist) (e h b v.inside hb) in
    let ab = ap (λ (c : Cell). c.dist) (e a b ha hb) in
    let hop = ap (λ (c : Cell). c.hop) (e h b v.inside hb) in
    let near = v.nearer in
    record {
      inside = v.inside;
      early = v.early;
      off = v.off;
      to = rw (← ah) v.to;
      from = rw (← hb') v.from;
      nearer = omega arith;
      falls = λ q. rw (← hb') (v.falls (omega arith));
      down = λ q. rw (← hop) (v.down (omega arith));
    }

module _ (hosts : List Links) (net : IsNetwork hosts) where
  -- For links between hosts of the network, an entry of the final table `next` is NEXT_DISCON, or
  -- names a host of the network that has a path from the one end and to the other, is not the
  -- first end, and is not farther from the second than the first is.
  pub tables_of-IsHop :
      (a b : ℕ)
      → a < length hosts
      → b < length hosts
      → IsHop (length hosts) (length hosts) (cell (tables_of hosts)) a b
  tables_of-IsHop a b ha hb =
      let n = length hosts in
      let g : Grid = rounds n (direct hosts) in
      let e = tables_of-rounds hosts net in
      let hop = ap (λ (c : Cell). c.hop) (e a b ha hb) in
      elim (rounds-IsHop (direct-IsSeeded hosts net) (λ x y. refl) n a b (omega arith) ha hb) [
        | inl d ↦ inl (hop ∙ d)
        | inr v ↦ inr (
            subst (Between n n (cell (tables_of hosts)) a b) (sym hop)
              (Between-Agree (λ x y hx hy. sym (e x y hx hy)) ha hb v))
      ]

  pub tables_of-diag_hop : (a : ℕ) → a < length hosts → at (tables_of hosts).next a a ≡ next_discon
  tables_of-diag_hop a ha =
      ap (λ (c : Cell). c.hop) (tables_of-rounds hosts net a a ha ha)
      ∙ rounds-diag_hop (direct-IsSeeded hosts net) (λ x y. refl) (length hosts) a (omega arith) ha

  pub tables_of-diag : (a : ℕ) → a < length hosts → at (tables_of hosts).path a a ≡ 1
  tables_of-diag a ha =
      ap (λ (c : Cell). c.dist) (tables_of-rounds hosts net a a ha ha)
      ∙ (rounds-IsSeeded (length hosts) (length hosts) (direct hosts) (omega arith)
            (direct-IsSeeded hosts net)).diag
          a ha

  pub tables_of-small :
      (a b : ℕ) → a < length hosts → b < length hosts → at (tables_of hosts).path a b < u32_mod
  tables_of-small a b ha hb =
      let s =
        (rounds-IsSeeded (length hosts) (length hosts) (direct hosts) (omega arith)
            (direct-IsSeeded hosts net)).small
          a b ha hb in
      omega (arith, s, ap (λ (c : Cell). c.dist) (tables_of-rounds hosts net a b ha hb))
