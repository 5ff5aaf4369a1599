-- ===== src/Forward/Trail.antt =====
-- The path from the source of a packet to this host, as `rt_dhosts_to_host` follows it: the loop ends,
-- and every step of the path is a link.
use p2p_vn.Base.{
  ℕ, zero, suc, ◌+◌, ◌<◌, ◌≤◌, ◌≡◌, ◌≢◌, refl, sym, ◌∙◌, ◌⊎◌, arith, List, [], ◌∷◌, length, inl,
  inr, some, ◌==◌, Bool-cases, ==→eq, ==→ne,
}
use p2p_vn.Paths.{Links, Tables, at, tables_of, next_discon}
use p2p_vn.Paths.Seed.{IsNetwork}
use p2p_vn.Paths.Hops.{tables_of-IsHop}
use p2p_vn.Forward.{follow}

-- The hosts `xs` lead from `c` to `cur`, each with a path from the one before, and there is no host
-- between the last two.
abbrev pub IsTrail : (n : ℕ) → Tables → (cur c : ℕ) → List ℕ → Type 0
IsTrail n t cur c [] = ⊥
IsTrail n t cur c (x ∷ []) = (x ≡ cur) × (at t.next c cur ≡ next_discon) × (at t.path c x ≢ 0)
IsTrail n t cur c (x ∷ y ∷ xs) = (x < n) × (at t.path c x ≢ 0) × IsTrail n t cur x (y ∷ xs)

-- The loop ends with such a path.
abbrev pub Ends : (n : ℕ) → Tables → (cur c fuel : ℕ) → Type 0
Ends n t cur c fuel = (xs : List ℕ) × (follow fuel t cur c ≡ some xs) × IsTrail n t cur c xs

IsTrail-cons :
    (n : ℕ) (t : Tables) (cur c h : ℕ) (xs : List ℕ)
    → h < n
    → at t.path c h ≢ 0
    → IsTrail n t cur h xs
    → IsTrail n t cur c (h ∷ xs)
IsTrail-cons n t cur c h [] hh p r = absurd r
IsTrail-cons n t cur c h (x ∷ xs) hh p r = (hh, p, r)

Ends-stop :
    (n : ℕ) (t : Tables) (cur c fuel : ℕ)
    → at t.next c cur ≡ next_discon
    → at t.path c cur ≢ 0
    → Ends n t cur c (suc fuel)
unfolding follow
Ends-stop n t cur c fuel e p = (cur ∷ [], ground arith, (refl, e, p))

Ends-step :
    (n : ℕ) (t : Tables) (cur c h fuel : ℕ)
    → at t.next c cur ≡ h
    → h ≢ next_discon
    → h < n
    → at t.path c h ≢ 0
    → Ends n t cur h fuel
    → Ends n t cur c (suc fuel)
unfolding follow
Ends-step n t cur c h fuel e d hh p (xs, run, trail) =
    (h ∷ xs, ground arith, IsTrail-cons n t cur c h xs hh p trail)

module _ (hosts : List Links) (net : IsNetwork hosts) (few : length hosts ≤ next_discon) where
  -- Weight 1: the entries met fall, so the loop ends within `f + 1` rounds.
  one-Ends :
      (f fuel a cur : ℕ)
      → a < length hosts
      → cur < length hosts
      → at (tables_of hosts).path a cur ≡ 1
      → (at (tables_of hosts).next a cur ≡ next_discon) ⊎ (at (tables_of hosts).next a cur < f)
      → f < fuel
      → Ends (length hosts) (tables_of hosts) cur a fuel
  one-Ends f zero a cur ha hc one next enough = absurd (omega arith)
  one-Ends f (suc fuel) a cur ha hc one (inl stop) enough =
      Ends-stop (length hosts) (tables_of hosts) cur a fuel stop (omega arith)
  one-Ends zero (suc fuel) a cur ha hc one (inr low) enough = absurd (omega arith)
  one-Ends (suc f) (suc fuel) a cur ha hc one (inr low) enough =
      elim (tables_of-IsHop hosts net a cur ha hc) [
        | inl stop ↦ Ends-stop (length hosts) (tables_of hosts) cur a fuel stop (omega arith)
        | inr v ↦
            let inside = v.inside in
            let near = v.nearer in
            let pos = v.from in
            let then_low =
              elim (v.down one)
                as (λ _.
                  (at (tables_of hosts).next (at (tables_of hosts).next a cur) cur ≡ next_discon)
                  ⊎ (at (tables_of hosts).next (at (tables_of hosts).next a cur) cur < f)) [
                    | inl d ↦ inl d
                    | inr l ↦ inr (omega arith)
                  ] in
            Ends-step (length hosts) (tables_of hosts) cur a _ fuel refl (omega arith) inside v.to
              (one-Ends f fuel _ cur inside hc (omega arith) then_low (omega arith))
      ]

  ends :
      (d fuel a cur : ℕ)
      → a < length hosts
      → cur < length hosts
      → at (tables_of hosts).path a cur ≤ d
      → at (tables_of hosts).path a cur ≢ 0
      → d + length hosts < fuel
      → Ends (length hosts) (tables_of hosts) cur a fuel
  ends zero fuel a cur ha hc le pos enough = absurd (omega arith)
  ends (suc d) zero a cur ha hc le pos enough = absurd (omega arith)
  ends (suc d) (suc fuel) a cur ha hc le pos enough = elim (tables_of-IsHop hosts net a cur ha hc) [
    | inl stop ↦ Ends-stop (length hosts) (tables_of hosts) cur a fuel stop pos
    | inr v ↦
        let inside = v.inside in
        let near = v.nearer in
        elim (Bool-cases (at (tables_of hosts).path a cur == 1)) [
          | inl one ↦
              one-Ends (length hosts) (suc fuel) a cur ha hc (==→eq _ 1 one) (inr inside)
                (omega arith)
          | inr more ↦
              let fell =
                λ (q : at (tables_of hosts).path (at (tables_of hosts).next a cur) cur
                    ≡ at (tables_of hosts).path a cur).
                  ==→ne _ 1 more (sym q ∙ v.falls q) in
              Ends-step (length hosts) (tables_of hosts) cur a _ fuel refl (omega arith) inside v.to
                (ends d fuel _ cur inside hc (omega arith) v.from (omega arith))
        ]
  ]

  -- For links between hosts of the network, not more hosts than NEXT_DISCON, and where the source
  -- has a path to this host: the loop that follows the path ends within the weight of the path and
  -- one round for each host, and what it collects leads from the source to this host, each host
  -- having a path from the one before it and no host standing between the last two.
  pub follow_ends :
      (fuel src_i cur_i : ℕ)
      → src_i < length hosts
      → cur_i < length hosts
      → at (tables_of hosts).path src_i cur_i ≢ 0
      → at (tables_of hosts).path src_i cur_i + length hosts < fuel
      → (xs : List ℕ) × (follow fuel (tables_of hosts) cur_i src_i ≡ some xs)
        × IsTrail (length hosts) (tables_of hosts) cur_i src_i xs
  follow_ends fuel src_i cur_i hs hc pos enough =
      ends (at (tables_of hosts).path src_i cur_i) fuel src_i cur_i hs hc (omega arith) pos enough
