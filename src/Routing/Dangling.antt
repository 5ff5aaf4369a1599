-- ===== src/Routing/Dangling.antt =====
-- What `trim_host` frees. `host_remove` moves the hosts behind the trimmed one up by a cell, and
-- `free_host(*h)` then reads the cell of the trimmed host.
use mathlib.Core.Option.{some-injective}
use p2p_vn.Base.{
  ℕ, zero, suc, ◌<◌, ◌≡◌, refl, sym, ap, subst, ◌∙◌, arith, true, Option, none, some, Option-cases,
  inl, inr, List, [], ◌∷◌, take, get_elem?, ==_self,
}
use p2p_vn.Packet.{Mac}
use p2p_vn.DArray.{DArray, live, remove}
use p2p_vn.DArray.Laws.{IsArray, erase_at, remove-live}
use p2p_vn.Dpg.Insert.{Search-cases}
use p2p_vn.Routing.State.{Routing, RtHost, mac_of}
use p2p_vn.Routing.Hosts.{find_link_by_addr, link_remove}
use p2p_vn.Routing.Trim.{is_normal, free_host, host_remove, unlink_all, cut_host, trim_host}

-- The result, if there is one, has the hosts `hosts`.
abbrev Keeps : DArray ℕ → Option Routing → Type 0
Keeps hosts none = Unit {0}
Keeps hosts (some rd) = rd.hosts ≡ hosts

link_remove-Keeps : (rd : Routing) (src link : ℕ) → Keeps rd.hosts (link_remove rd src link)
unfolding link_remove
link_remove-Keeps rd src link = elim (Option-cases (rd.host_at src)) [
  | inl e ↦ rw (e, link_remove) tt
  | inr (s, e) ↦ rw (e, link_remove) refl
]

unlink_all-Keeps :
    (srcs : List ℕ) (mac : Mac) (rd : Routing) → Keeps rd.hosts (unlink_all rd mac srcs)
unfolding unlink_all
unlink_all-Keeps [] mac rd = refl
unlink_all-Keeps (p ∷ ps) mac rd = elim (Option-cases (rd.host_at p)) [
  | inl e ↦ rw (e, unlink_all) tt
  | inr (s, e) ↦ elim (Search-cases (find_link_by_addr rd s.links mac)) [
    | inl (l, f) ↦ elim (Option-cases (link_remove rd p l)) [
      | inl g ↦ rw (e, f, g, unlink_all) tt
      | inr (rd', g) ↦
          let same : rd'.hosts ≡ rd.hosts = rw g at (link_remove-Keeps rd p l) in
          rw (e, f, g, unlink_all)
            (subst (λ h. Keeps h (unlink_all rd' mac ps)) same (unlink_all-Keeps ps mac rd'))
    ]
    | inr (inl f) ↦ rw (e, f, unlink_all) (unlink_all-Keeps ps mac rd)
    | inr (inr f) ↦ rw (e, f, unlink_all) tt
  ]
]

get_elem?-take :
    {A : Type 0} (n i : ℕ) (xs : List A) → i < n → get_elem? (take n xs) i ≡ get_elem? xs i
get_elem?-take zero i xs h = absurd (omega arith)
get_elem?-take (suc n) i [] h = refl
get_elem?-take (suc n) zero (x ∷ xs) h = refl
get_elem?-take (suc n) (suc i) (x ∷ xs) h = get_elem?-take n i xs (omega arith)

get_elem?-erase_at :
    {A : Type 0} (i : ℕ) (xs : List A) → get_elem? (erase_at xs i) i ≡ get_elem? xs (suc i)
unfolding erase_at
get_elem?-erase_at i [] = refl
get_elem?-erase_at zero (x ∷ xs) = refl
get_elem?-erase_at (suc i) (x ∷ xs) = get_elem?-erase_at i xs

-- The cell of a removed element holds the element behind it.
remove-next :
    (d : DArray ℕ) (h q : ℕ)
    → IsArray d
    → suc h < d.ct
    → get_elem? (live d) (suc h) ≡ some q
    → (get_elem? (live (remove d h)) h ≡ some q) × (get_elem? (remove d h).items h ≡ some q)
unfolding remove
remove-next d h q v lt e =
    let w = v.written in
    let f = v.fits in
    let m = v.room in
    let inside : h < (remove d h).ct = omega arith in
    let shape = remove-live d h v (omega arith) in
    let cell : get_elem? (live (remove d h)) h ≡ some q =
      ap (λ l. get_elem? l h) shape.0 ∙ get_elem?-erase_at h (live d) ∙ e in
    (cell, sym (get_elem?-take (remove d h).ct h (remove d h).items inside) ∙ cell)

free_host-frees :
    (rd rd' : Routing) (q : ℕ)
    → free_host rd q ≡ some rd'
    → (rd'.hosts ≡ rd.hosts) × (rd'.host_at q ≡ none)
unfolding free_host
free_host-frees rd rd' q run = elim (Option-cases (rd.host_at q)) [
  | inl e ↦ cc (rw e at run)
  | inr (host, e) ↦
      let out = some-injective _ _ (rw e at run) in
      (
        ap (λ (r : Routing). r.hosts) (sym out),
        ap (λ (r : Routing). r.host_at q) (sym out) ∙ rw (==_self q) refl,
      )
]

cut_host-frees :
    (rd rd' : Routing) (h p q : ℕ)
    → IsArray rd.hosts
    → suc h < rd.hosts.ct
    → get_elem? (live rd.hosts) (suc h) ≡ some q
    → cut_host rd h p ≡ some rd'
    → (get_elem? (live rd'.hosts) h ≡ some q) × (rd'.host_at q ≡ none)
unfolding cut_host host_remove
cut_host-frees rd rd' h p q v lt e run =
    elim (Option-cases (unlink_all rd (mac_of rd p) (live rd.hosts))) [
      | inl f ↦ cc (rw (f, cut_host) at run)
      | inr (rd₁, f) ↦
          let same : rd₁.hosts ≡ rd.hosts =
            rw f at (unlink_all-Keeps (live rd.hosts) (mac_of rd p) rd) in
          let next = remove-next rd.hosts h q v lt e in
          let cell = ap (λ d. get_elem? (remove d h).items h) same ∙ next.1 in
          let out = free_host-frees (host_remove rd₁ h) rd' q (rw (f, cell, cut_host) at run) in
          (ap (λ d. get_elem? (live d) h) (out.0 ∙ ap (λ d. remove d h) same) ∙ next.0, out.1)
    ]

-- When `trim_host` succeeds on a normal host behind which the array has another one, it is that
-- other one which is freed: afterwards the other one stands in the array at the index of the
-- trimmed host, and its memory is gone.
pub trim_host_frees_next :
    (rd rd' : Routing) (h p q : ℕ) (host : RtHost)
    → IsArray rd.hosts
    → suc h < rd.hosts.ct
    → get_elem? rd.hosts.items h ≡ some p
    → rd.host_at p ≡ some host
    → is_normal host.type ≡ true
    → get_elem? (live rd.hosts) (suc h) ≡ some q
    → trim_host rd h ≡ some rd'
    → (get_elem? (live rd'.hosts) h ≡ some q) × (rd'.host_at q ≡ none)
unfolding trim_host
trim_host_frees_next rd rd' h p q host v lt at_h points normal e run =
    cut_host-frees rd rd' h p q v lt e (rw (at_h, points, normal, trim_host) at run)
