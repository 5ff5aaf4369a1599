-- ===== src/Routing/Table/Lookup.antt =====
-- routing.c: `find_host_by_addr` and `find_link_by_addr` on memory in order.
use mathlib.Core.List.{Memᴰ}
use p2p_vn.Base.{
  ℕ, zero, suc, ◌^◌, ◌<◌, ◌≡◌, ◌≢◌, ◌⊎◌, inl, inr, refl, sym, subst, arith, some, Ordering, List,
  [], ◌∷◌, map, length-take, get_elem?, take, All,
}
use p2p_vn.Order.{IsOrder, IsSorted}
use p2p_vn.Order.Bytes.{memcmp, memcmp-IsOrder, memcmp→eq, memcmp_self}
use p2p_vn.Packet.{Mac}
use p2p_vn.Search.{Search, found, missing, fault, bsearch}
use p2p_vn.Search.Sorted.{Falls, Answers, bsearch-Answers, get_elem?_lt}
use p2p_vn.Search.Bounds.{Within, bsearch-Within}
use p2p_vn.Sorting.Keys.{All-Mem, All-get, All-of_get, IsSorted-Falls}
use p2p_vn.DArray.{DArray, live}
use p2p_vn.DArray.Laws.{IsArray}
use p2p_vn.DArray.Keyed.{find_in}
use p2p_vn.Routing.State.{Routing, RtLink, mac_of}
use p2p_vn.Routing.Hosts.{host_cmp_addr, find_host_by_addr, find_link_by_addr}
use p2p_vn.Routing.Table.{Alive, IsTable}

module _ {A B : Type 0} (key : A → B) where
  get_elem?-map :
      (xs : List A) (i : ℕ) (x : A)
      → get_elem? xs i ≡ some x
      → get_elem? (map key xs) i ≡ some (key x)
  get_elem?-map [] i x e = cc
  get_elem?-map (y ∷ ys) zero x e = subst (λ z. some (key y) ≡ some (key z)) (ground arith) refl
  get_elem?-map (y ∷ ys) (suc i) x e = get_elem?-map ys i x e

  All-of_map : (P : B → Type 0) (xs : List A) → All (λ x. P (key x)) xs → All P (map key xs)
  All-of_map P [] a = tt
  All-of_map P (x ∷ xs) a = (a.0, All-of_map P xs a.1)

  IsSorted-map :
      (cmp : B → B → Ordering) (xs : List A)
      → IsSorted (λ x y. cmp (key x) (key y)) xs
      → IsSorted cmp (map key xs)
  IsSorted-map cmp [] s = tt
  IsSorted-map cmp (x ∷ xs) s = (All-of_map _ xs s.0, IsSorted-map cmp xs s.1)

  -- An array that is sorted by a key, searched for a key.
  key-Falls :
      {cmp : B → B → Ordering} (order : IsOrder cmp) (k : B) (xs : List A)
      → IsSorted (λ x y. cmp (key x) (key y)) xs
      → Falls (λ x. cmp k (key x)) xs
  key-Falls {cmp} order k xs s =
      let falls = IsSorted-Falls order k (map key xs) (IsSorted-map cmp xs s) in
      record {
        up = λ i j x y h e f l.
            falls.up i j (key x) (key y) h (get_elem?-map xs i x e) (get_elem?-map xs j y f) l;
        down = λ i j x y h e f l.
            falls.down i j (key x) (key y) h (get_elem?-map xs i x e) (get_elem?-map xs j y f) l;
      }

pub get_elem?-take :
    {A : Type 0} (n : ℕ) (xs : List A) (i : ℕ) (x : A)
    → get_elem? (take n xs) i ≡ some x
    → get_elem? xs i ≡ some x
get_elem?-take zero xs i x e = cc
get_elem?-take (suc n) [] i x e = cc
get_elem?-take (suc n) (y ∷ ys) zero x e = e
get_elem?-take (suc n) (y ∷ ys) (suc i) x e = get_elem?-take n ys i x e

-- What `find_host_by_addr` finds: the host of the address.
pub record Finds (rd : Routing) (mac : Mac) (i : ℕ) : Type 0 where
  pub at : ℕ
  pub below : i < rd.hosts.ct
  pub live_at : get_elem? (live rd.hosts) i ≡ some at
  pub reads : get_elem? rd.hosts.items i ≡ some at
  pub alive : Alive rd at
  pub same : mac_of rd at ≡ mac

-- No host has the address.
abbrev pub IsFresh : Routing → Mac → Type 0
IsFresh rd mac = All (λ p. memcmp mac (mac_of rd p) ≢ Ordering.eq) (live rd.hosts)

module _ (rd : Routing) (mac : Mac) (table : IsTable rd) (small : rd.hosts.ct < 2 ^ 60) where
  find_host-Answers :
      Answers (λ p. memcmp mac (mac_of rd p)) (live rd.hosts) (find_host_by_addr rd mac)
  unfolding find_host_by_addr find_in host_cmp_addr
  find_host-Answers =
      let len = length-take rd.hosts.ct rd.hosts.items table.keyed.array.written in
      let falls = key-Falls (mac_of rd) memcmp-IsOrder mac (live rd.hosts) table.keyed.sorted in
      subst
        (λ n.
          Answers (λ p. memcmp mac (mac_of rd p)) (live rd.hosts)
            (bsearch (λ p. memcmp mac (mac_of rd p)) (live rd.hosts) n))
        len
        (bsearch-Answers (λ p. memcmp mac (mac_of rd p)) (live rd.hosts) falls (omega (arith, len)))

  -- In memory in order, the search for a host does not fault: it gives the host of the address, or
  -- finds nothing where no host has it.
  pub find_host-cases :
      ((i : ℕ) × (find_host_by_addr rd mac ≡ found i) × Finds rd mac i)
      ⊎ ((find_host_by_addr rd mac ≡ missing) × IsFresh rd mac)
  find_host-cases = split (find_host_by_addr rd mac) refl find_host-Answers
    where
      split :
          (s : Search)
          → find_host_by_addr rd mac ≡ s
          → Answers (λ p. memcmp mac (mac_of rd p)) (live rd.hosts) s
          → ((i : ℕ) × (find_host_by_addr rd mac ≡ found i) × Finds rd mac i)
            ⊎ ((find_host_by_addr rd mac ≡ missing) × IsFresh rd mac)
      split fault e a = absurd a
      split missing e a = inr (e, All-of_get _ (live rd.hosts) a)
      split (found i) e a = inl (
        i,
        e,
        record {
          at = a.0;
          below =
              (let lt = get_elem?_lt (live rd.hosts) i a.0 a.1 in
                let len = length-take rd.hosts.ct rd.hosts.items table.keyed.array.written in
                omega arith);
          live_at = a.1;
          reads = get_elem?-take rd.hosts.ct rd.hosts.items i a.0 a.1;
          alive = All-get (Alive rd) (live rd.hosts) i a.0 a.1 table.alive;
          same = sym (memcmp→eq mac (mac_of rd a.0) a.2);
        },
      )

  pub find_host-missing : IsFresh rd mac → find_host_by_addr rd mac ≡ missing
  find_host-missing fresh = split (find_host_by_addr rd mac) refl find_host-Answers
    where
      split :
          (s : Search)
          → find_host_by_addr rd mac ≡ s
          → Answers (λ p. memcmp mac (mac_of rd p)) (live rd.hosts) s
          → find_host_by_addr rd mac ≡ missing
      split fault e a = absurd a
      split missing e a = e
      split (found i) e a = absurd (All-get _ (live rd.hosts) i a.0 a.1 fresh a.2)

  -- The search for the address of a host of the array finds a host.
  pub find_host-known :
      (p : ℕ)
      → Memᴰ p (live rd.hosts)
      → mac_of rd p ≡ mac
      → (i : ℕ) × (find_host_by_addr rd mac ≡ found i) × Finds rd mac i
  find_host-known p m e = elim find_host-cases [
    | inl v ↦ v
    | inr (f, fresh) ↦ absurd (All-Mem _ m fresh (rw e (memcmp_self mac)))
  ]

-- The search among the links of a host reads inside their array.
pub find_link-cases :
    (rd : Routing) (links : DArray RtLink) (mac : Mac)
    → IsArray links
    → links.ct < 2 ^ 60
    → ((i : ℕ) × (find_link_by_addr rd links mac ≡ found i)
        × ((l : RtLink) × (get_elem? (live links) i ≡ some l) × (get_elem? links.items i ≡ some l)))
      ⊎ (find_link_by_addr rd links mac ≡ missing)
unfolding find_link_by_addr find_in
find_link-cases rd links mac v small = split (find_link_by_addr rd links mac) refl within
  where
    within : Within (live links) (find_link_by_addr rd links mac)
    within =
        let len = length-take links.ct links.items v.written in
        subst
          (λ n.
            Within (live links)
              (bsearch (λ (l : RtLink). memcmp mac (mac_of rd l.dst)) (live links) n))
          len
          (bsearch-Within (λ (l : RtLink). memcmp mac (mac_of rd l.dst)) (live links)
            (omega (arith, len)))

    split :
        (s : Search)
        → find_link_by_addr rd links mac ≡ s
        → Within (live links) s
        → ((i : ℕ) × (find_link_by_addr rd links mac ≡ found i)
            × ((l : RtLink) × (get_elem? (live links) i ≡ some l)
                × (get_elem? links.items i ≡ some l)))
          ⊎ (find_link_by_addr rd links mac ≡ missing)
    split fault e a = absurd a
    split missing e a = inr e
    split (found i) e a = inl (i, e, (a.0, a.1, get_elem?-take links.ct links.items i a.0 a.1))
