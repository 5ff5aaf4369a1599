-- ===== src/Paths/Seed.antt =====
-- The adjacency set-up of `compute_paths`: what the tables hold before the loops.
use p2p_vn.Base.{
  ℕ, zero, suc, ◌+◌, ◌<◌, ◌≤◌, ◌≡◌, ◌≢◌, refl, sym, ap, subst, ap₂, ◌∙◌, arith, List, [], ◌∷◌,
  length, get_or, All, ◌==◌, if◌then◌else◌, inl, inr, Bool-cases, ==→eq, ==→ne,
}
use p2p_vn.Paths.{
  Tables, Links, at, put, clear, seed_links, seed_hosts, tables_of, next_discon, path_min, u32_mod,
}
use p2p_vn.Paths.Matrix.{
  IsTables, at-put_self, at-put_ne, at-put_row, put-IsSquare, replicate-IsSquare, at-replicate,
}
use p2p_vn.Paths.Round.{Cell, Grid, cell, IsSeeded}
use p2p_vn.Paths.Simultaneous.{
  rounds, Agree, rounds-Agree, IsSeeded-Agree, floyd-rounds, floyd-IsTables,
}

-- The `rtt_us` of the last link to `j`, and `old` if there is none.
unfoldable pub link_weight : Links → ℕ → ℕ → ℕ
link_weight [] j old = old
link_weight ((dst_i, rtt_us) ∷ ls) j old = link_weight ls j (if dst_i == j then rtt_us else old)

-- The weight of the link from host `i` to host `j`: 1 from a host to itself, 0 for no link.
unfoldable pub weight : List Links → ℕ → ℕ → ℕ
weight hosts i j = link_weight (get_or hosts i []) j (if i == j then path_min else 0)

-- A link leads to another host of the network, and its weight fits `uint32_t`.
abbrev pub IsLink : (n i : ℕ) → ℕ × ℕ → Type 0
IsLink n i l = (l.0 < n) × (l.0 ≢ i) × (l.1 < u32_mod)

abbrev pub IsNetwork : List Links → Type 0
IsNetwork hosts = (i : ℕ) → i < length hosts → All (IsLink (length hosts) i) (get_or hosts i [])

abbrev pub direct : List Links → Grid
direct hosts i j = record { dist = weight hosts i j; hop = next_discon }

module _ (n i : ℕ) (hi : i < n) where
  seed_links-IsTables : (ls : Links) (t : Tables) → IsTables n t → IsTables n (seed_links i ls t)
  unfolding seed_links
  seed_links-IsTables [] t sq = sq
  seed_links-IsTables ((d, r) ∷ ls) t sq = seed_links-IsTables ls _ (record {
    path_square = put-IsSquare n t.path sq.path_square i d r hi;
    next_square = sq.next_square;
  })

  at-seed_links :
      (ls : Links) (t : Tables) (j : ℕ)
      → IsTables n t
      → j < n
      → at (seed_links i ls t).path i j ≡ link_weight ls j (at t.path i j)
  unfolding seed_links link_weight
  at-seed_links [] t j sq hj = refl
  at-seed_links ((d, r) ∷ ls) t j sq hj =
      at-seed_links ls _ j
        (record {
          path_square = put-IsSquare n t.path sq.path_square i d r hi;
          next_square = sq.next_square;
        })
        hj
      ∙ ap (link_weight ls j) written
    where
      written : at (put t.path i d r) i j ≡ (if d == j then r else at t.path i j)
      written = elim (Bool-cases (d == j)) [
        | inl e ↦
            let e' : d ≡ j = ==→eq d j e in
            rw e (rw e' (at-put_self n t.path sq.path_square i j r hi hj))
        | inr e ↦ rw e (at-put_ne n t.path sq.path_square i d r i j hi (inr (==→ne d j e)))
      ]

at-seed_links_row :
    (i a b : ℕ) (ls : Links) (t : Tables) → i ≢ a → at (seed_links i ls t).path a b ≡ at t.path a b
unfolding seed_links
at-seed_links_row i a b [] t h = refl
at-seed_links_row i a b ((d, r) ∷ ls) t h =
    at-seed_links_row i a b ls _ h ∙ at-put_row t.path i d r a b h

next-seed_links : (i : ℕ) (ls : Links) (t : Tables) → (seed_links i ls t).next ≡ t.next
unfolding seed_links
next-seed_links i [] t = refl
next-seed_links i ((d, r) ∷ ls) t = next-seed_links i ls _

abbrev seed_host : ℕ → Links → Tables → Tables
seed_host i links t = seed_links i links (record t { path = put t.path i i path_min })

seed_host-IsTables :
    (n i : ℕ) (ls : Links) (t : Tables) → i < n → IsTables n t → IsTables n (seed_host i ls t)
seed_host-IsTables n i ls t hi sq = seed_links-IsTables n i hi ls _ (record {
  path_square = put-IsSquare n t.path sq.path_square i i path_min hi;
  next_square = sq.next_square;
})

at-seed_host_row :
    (i a b : ℕ) (ls : Links) (t : Tables) → i ≢ a → at (seed_host i ls t).path a b ≡ at t.path a b
at-seed_host_row i a b ls t h =
    at-seed_links_row i a b ls _ h ∙ at-put_row t.path i i path_min a b h

at-seed_hosts_below :
    (s a b : ℕ) (hosts : List Links) (t : Tables)
    → a < s
    → at (seed_hosts s hosts t).path a b ≡ at t.path a b
unfolding seed_hosts
at-seed_hosts_below s a b [] t h = refl
at-seed_hosts_below s a b (ls ∷ hosts) t h =
    at-seed_hosts_below (suc s) a b hosts _ (omega arith)
    ∙ at-seed_host_row s a b ls t (omega arith)

next-seed_hosts : (s : ℕ) (hosts : List Links) (t : Tables) → (seed_hosts s hosts t).next ≡ t.next
unfolding seed_hosts
next-seed_hosts s [] t = refl
next-seed_hosts s (ls ∷ hosts) t = next-seed_hosts (suc s) hosts _ ∙ next-seed_links s ls _

module _ (n : ℕ) where
  seed_hosts-IsTables :
      (s : ℕ) (hosts : List Links) (t : Tables)
      → s + length hosts ≤ n
      → IsTables n t
      → IsTables n (seed_hosts s hosts t)
  unfolding seed_hosts
  seed_hosts-IsTables s [] t h sq = sq
  seed_hosts-IsTables s (ls ∷ hosts) t h sq =
      seed_hosts-IsTables (suc s) hosts _ (omega arith)
        (seed_host-IsTables n s ls t (omega arith) sq)

  at-seed_host :
      (i j : ℕ) (ls : Links) (t : Tables)
      → i < n
      → j < n
      → IsTables n t
      → at (seed_host i ls t).path i j
        ≡ link_weight ls j (if i == j then path_min else at t.path i j)
  at-seed_host i j ls t hi hj sq =
      at-seed_links n i hi ls _ j
        (record {
          path_square = put-IsSquare n t.path sq.path_square i i path_min hi;
          next_square = sq.next_square;
        })
        hj
      ∙ ap (link_weight ls j) written
    where
      written : at (put t.path i i path_min) i j ≡ (if i == j then path_min else at t.path i j)
      written = elim (Bool-cases (i == j)) [
        | inl e ↦
            let e' : i ≡ j = ==→eq i j e in
            rw e (
              subst (λ y. at (put t.path i i path_min) i y ≡ path_min) e'
                (at-put_self n t.path sq.path_square i i path_min hi hi))
        | inr e ↦ rw e (at-put_ne n t.path sq.path_square i i path_min i j hi (inr (==→ne i j e)))
      ]

  at-seed_hosts :
      (s d a b : ℕ) (hosts : List Links) (t : Tables)
      → s + length hosts ≤ n
      → a ≡ s + d
      → d < length hosts
      → b < n
      → IsTables n t
      → at (seed_hosts s hosts t).path a b
        ≡ link_weight (get_or hosts d []) b (if a == b then path_min else at t.path a b)
  unfolding seed_hosts
  at-seed_hosts s d a b [] t h e hd hb sq = absurd (omega arith)
  at-seed_hosts s zero a b (ls ∷ hosts) t h e hd hb sq =
      let e' : s ≡ a = omega arith in
      at-seed_hosts_below (suc s) a b hosts _ (omega arith)
      ∙ subst
          (λ y.
            at (seed_host y ls t).path a b
            ≡ link_weight ls b (if a == b then path_min else at t.path a b))
          (sym e') (at-seed_host a b ls t (omega arith) hb sq)
  at-seed_hosts s (suc d) a b (ls ∷ hosts) t h e hd hb sq =
      at-seed_hosts (suc s) d a b hosts _ (omega arith) (omega arith) (omega arith) hb
        (seed_host-IsTables n s ls t (omega arith) sq)
      ∙ ap (λ v. link_weight (get_or hosts d []) b (if a == b then path_min else v))
          (at-seed_host_row s a b ls t (omega arith))

link_weight-small :
    (n i j old : ℕ) (ls : Links)
    → All (IsLink n i) ls
    → old < u32_mod
    → link_weight ls j old < u32_mod
unfolding link_weight
link_weight-small n i j old [] a h = h
link_weight-small n i j old ((d, r) ∷ ls) a h =
    link_weight-small n i j (if d == j then r else old) ls a.1 (ground arith)

link_weight_self : (n i old : ℕ) (ls : Links) → All (IsLink n i) ls → link_weight ls i old ≡ old
unfolding link_weight
link_weight_self n i old [] a = refl
link_weight_self n i old ((d, r) ∷ ls) a =
    let e : (if d == i then r else old) ≡ old = ground arith in
    rw e (link_weight_self n i old ls a.1)

module _ (hosts : List Links) (net : IsNetwork hosts) where
  pub direct-IsSeeded : IsSeeded (length hosts) (direct hosts)
  unfolding weight
  direct-IsSeeded = record {
    small = λ i j hi hj. link_weight-small (length hosts) i j _ _ (net i hi) (ground arith);
    diag = λ i hi. link_weight_self (length hosts) i _ _ (net i hi) ∙ ground arith;
  }

  clear-IsTables : (n : ℕ) → IsTables n (clear n)
  unfolding clear
  clear-IsTables n = record {
    path_square = replicate-IsSquare n 0;
    next_square = replicate-IsSquare n next_discon;
  }

  seeds : Tables
  seeds = seed_hosts 0 hosts (clear (length hosts))

  seeds-IsTables : IsTables (length hosts) seeds
  unfolding seeds
  seeds-IsTables =
      seed_hosts-IsTables (length hosts) 0 hosts _ (omega arith) (clear-IsTables (length hosts))

  seeds-direct : Agree (length hosts) (cell seeds) (direct hosts)
  unfolding seeds weight clear
  seeds-direct a b ha hb =
      let n = length hosts in
      ap₂ {C = Cell} (λ d h. record { dist = d; hop = h })
        (at-seed_hosts n 0 a a b hosts (clear n) (omega arith) (omega arith) ha hb
            (clear-IsTables n)
          ∙ ap (λ v. link_weight (get_or hosts a []) b (if a == b then path_min else v))
              (at-replicate n 0 a b ha hb))
        (ap (λ m. at m a b) (next-seed_hosts 0 hosts (clear n))
          ∙ at-replicate n next_discon a b ha hb)

  seeds-IsSeeded : IsSeeded (length hosts) (cell seeds)
  seeds-IsSeeded =
      IsSeeded-Agree (length hosts) (direct hosts) (cell seeds)
        (λ a b ha hb. sym (seeds-direct a b ha hb)) direct-IsSeeded

  pub tables_of-IsTables : IsTables (length hosts) (tables_of hosts)
  unfolding tables_of seeds
  tables_of-IsTables = floyd-IsTables seeds-IsTables seeds-IsSeeded

  -- For links between hosts of the network, the tables that `compute_paths` leaves hold in every
  -- cell what n rounds of simultaneous relaxation give, each of which reads only the round before,
  -- started from the weights of the links.
  pub tables_of-rounds :
      (a b : ℕ)
      → a < length hosts
      → b < length hosts
      → cell (tables_of hosts) a b ≡ rounds (length hosts) (direct hosts) a b
  unfolding tables_of seeds
  tables_of-rounds a b ha hb =
      floyd-rounds seeds-IsTables seeds-IsSeeded a b ha hb
      ∙ rounds-Agree (length hosts) (length hosts) (cell seeds) (direct hosts) (omega arith)
          seeds-direct a b ha hb
