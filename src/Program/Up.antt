-- ===== src/Program/Up.antt =====
-- The routing state with which the program starts.
use mathlib.Core.List.Permᴰ
use p2p_vn.Base.{
  Each, bind-Each, ℕ, ◌≡◌, ◌⊎◌, inl, inr, refl, sym, ap, subst, arith, Bool, true, false,
  Bool-cases, Option-cases, Ordering, Option, none, some, List, [], ◌∷◌, ℤ, pos, neg, is_neg,
  is_nonzero, if◌then◌else◌, length, All, ==_self,
}
use p2p_vn.Packet.{Ipv4Host}
use p2p_vn.Sorting.{Qsort}
use p2p_vn.Sorting.Keys.{All-perm}
use p2p_vn.Search.{bsearch, bsearch_loop}
use p2p_vn.DArray.{da_init, add_to_end, check_and_realloc, store, live, sort_items}
use p2p_vn.DArray.Keyed.{find_in, length-perm}
use p2p_vn.Routing.State.{Routing, blank, RtHost, ht_local, rt_init, update}
use p2p_vn.Routing.Hosts.{
  rt_lhost_add, host_add, host_alloc, host_insert_unchecked, host_cmp_addr, find_host_by_addr,
}
use p2p_vn.Vnet.{Vnet, vnet_init, vnet_spawn_listener}
use p2p_vn.Dpg.{Group, dpg_init}
use p2p_vn.Pcon.{pcon_init}
use p2p_vn.Dpeer.World.{Node}
use p2p_vn.Program.Start.{
  System, Begun, dead, up, init_routing, add_local, local_host, is_down, begin_with, begin,
}

single : (ys : List ℕ) (x : ℕ) → length ys ≡ 1 → All (λ y. y ≡ x) ys → ys ≡ x ∷ []
single [] x e a = absurd (ground arith)
single (y ∷ []) x e a = ap (λ z. z ∷ []) a.0
single (y ∷ z ∷ ys) x e a = absurd (ground arith)

sort_single : (qs : Qsort) (cmp : ℕ → ℕ → Ordering) (x : ℕ) → qs.sort ℕ cmp (x ∷ []) ≡ x ∷ []
sort_single qs cmp x =
    let p = qs.sort_perm ℕ cmp (x ∷ []) in
    single (qs.sort ℕ cmp (x ∷ [])) x (length-perm p)
      (All-perm (λ y. y ≡ x) (Permᴰ.symm p) (refl, tt))

-- The local host alone is known, and it has this address.
record IsAlone (ip_host : ℕ) (me : Ipv4Host) (rd : Routing) : Type 0 where
  hosts : live rd.hosts ≡ rd.own ∷ []
  address : rd.ip_at ip_host ≡ some me
  own :
      (h : RtHost) × (rd.host_at rd.own ≡ some h)
      × (h.host ≡ ip_host)
      × (h.type ≡ ht_local)
      × (live h.links ≡ [])

-- The same of a step, if its code is no error.
abbrev Alone : (ip_host : ℕ) → Ipv4Host → Option (ℤ × Routing) → Type 0
Alone ip_host me o = Each (λ r. is_neg r.0 ≡ false → IsAlone ip_host me r.1) o

module _ (qs : Qsort) (y : System) (ip_host : ℕ) (me : Ipv4Host) where
  -- The state that `rt_init` leaves, with the address of the local host.
  abbrev initial : Routing
  initial = record blank {
    hosts = record { ct = 0; mem = 8; items = [] };
    edges = record { ct = 0; mem = 8; items = [] };
    ip_at = update (λ p. none) ip_host (some me);
    calls = 2;
  }

  there : initial.ip_at ip_host ≡ some me
  there = rw (==_self ip_host) refl

  -- With the local host allocated, and with it in the array.
  abbrev made : Routing
  made = record initial {
    host_at = update initial.host_at 2 (
        some (record {
          host = ip_host;
          type = ht_local;
          l_max_ts_ms = 0;
          links = record { ct = 0; mem = 8; items = [] };
        }));
    calls = 4;
  }

  abbrev placed : Routing
  placed = record made { hosts = record { ct = 1; mem = 8; items = 2 ∷ [] }; calls = 5 }

  host_alloc-made :
      y.grants 2 ≡ true
      → y.grants 3 ≡ true
      → host_alloc y.grants initial ip_host ht_local ≡ some (pos 0, made, 2)
  unfolding host_alloc da_init
  host_alloc-made g₂ g₃ = rw (there, g₂, g₃, host_alloc) refl

  host_alloc_failed :
      (y.grants 2 ≡ false) ⊎ (y.grants 3 ≡ false)
      → (rd : Routing) × (host_alloc y.grants initial ip_host ht_local ≡ some (neg 1, rd, 2))
  unfolding host_alloc
  host_alloc_failed (inl n) = (record initial { calls = 3 }, rw (there, n, host_alloc) refl)
  host_alloc_failed (inr n) = elim (Bool-cases (y.grants 2)) [
    | inl g ↦ (record initial { calls = 4 }, rw (there, g, n, host_alloc) refl)
    | inr g ↦ (record initial { calls = 3 }, rw (there, g, host_alloc) refl)
  ]

  host_insert_unchecked-placed : host_insert_unchecked y.grants qs made 2 ≡ (pos 0, placed)
  unfolding host_insert_unchecked add_to_end check_and_realloc store sort_items host_cmp_addr
  host_insert_unchecked-placed =
      rw (sort_single qs (host_cmp_addr (record made { calls = 5 })) 2) refl

  rt_lhost_add-Alone : Alone ip_host me (rt_lhost_add y.grants qs initial ip_host)
  unfolding rt_lhost_add host_add find_host_by_addr find_in bsearch bsearch_loop
  rt_lhost_add-Alone = elim (Bool-cases (y.grants 2)) [
    | inr no_host ↦
        let (rd, run) = host_alloc_failed (inl no_host) in
        rw (there, run) (record { each = λ e. absurd (ground arith) })
    | inl g₂ ↦ elim (Bool-cases (y.grants 3)) [
      | inr no_links ↦
          let (rd, run) = host_alloc_failed (inr no_links) in
          rw (there, run) (record { each = λ e. absurd (ground arith) })
      | inl g₃ ↦
          rw (there, host_alloc-made g₂ g₃)
            (rw (host_insert_unchecked-placed, host_insert_unchecked-placed)
              (record {
                each = λ e. record {
                  hosts = refl;
                  address = there;
                  own = (_, refl, refl, refl, refl);
                };
              }))
    ]
  ]

  -- `rt_init` before the address of the local host is there.
  abbrev fresh : Routing
  fresh = record initial { ip_at = λ p. none }

  rt_init-cases :
      (rt_init y.grants y.rt_lock ≡ (pos 0, fresh))
      ⊎ ((r : ℤ × Routing) × (rt_init y.grants y.rt_lock ≡ r) × (is_neg r.0 ≡ true))
  unfolding rt_init da_init
  rt_init-cases = elim (Bool-cases (is_neg y.rt_lock)) [
    | inl bad ↦ inr ((y.rt_lock, blank), rw (bad, rt_init) refl, bad)
    | inr ok ↦ elim (Bool-cases (y.grants 0)) [
      | inr no_hosts ↦ inr (
        (neg 1, record blank { hosts = record { ct = 0; mem = 8; items = [] }; calls = 1 }),
        rw (ok, no_hosts, rt_init) refl,
        refl,
      )
      | inl g₀ ↦ elim (Bool-cases (y.grants 1)) [
        | inr no_edges ↦ inr ((neg 2, fresh), rw (ok, g₀, no_edges, rt_init) refl, refl)
        | inl g₁ ↦ inl (rw (ok, g₀, g₁, rt_init) refl)
      ]
    ]
  ]

  init_routing-Alone : Alone ip_host me (init_routing qs y ip_host me)
  unfolding init_routing add_local
  init_routing-Alone = elim rt_init-cases [
    | inl whole ↦
        subst (λ r. Alone ip_host me (add_local qs y ip_host me r)) (sym whole) rt_lhost_add-Alone
    | inr (r, run, bad) ↦
        let stopped : Alone ip_host me (add_local qs y ip_host me r) =
          rw bad (record { each = λ e. absurd (let f = bad in ground arith) }) in
        subst (λ r'. Alone ip_host me (add_local qs y ip_host me r')) (sym run) stopped
  ]

-- What is known when the program begins to listen.
abbrev pub IsFirst : (ip_host : ℕ) → Node → Type 0
IsFirst ip_host node =
    (live node.rd.hosts ≡ node.rd.own ∷ [])
    × (node.rd.ip_at ip_host ≡ some (local_host node.vnet node.dpg))
    × ((h : RtHost) × (node.rd.host_at node.rd.own ≡ some h)
        × (h.host ≡ ip_host)
        × (h.type ≡ ht_local)
        × (live h.links ≡ []))

abbrev IsFirstUp : (ip_host : ℕ) → Begun → Type 0
IsFirstUp ip_host dead = Unit {0}
IsFirstUp ip_host (up node) = IsFirst ip_host node

abbrev First : (ip_host : ℕ) → Option Begun → Type 0
First ip_host o = Each (IsFirstUp ip_host) o

module _ {ip_host : ℕ} where
  dead_or :
      {b : Begun} (test : Bool)
      → First ip_host (some b)
      → First ip_host (some (if test then dead else b))
  dead_or true h = record { each = tt }
  dead_or false h = h

  stop_or :
      {o : Option Begun} (test : Bool)
      → First ip_host o
      → First ip_host (if test then some dead else o)
  stop_or true h = record { each = tt }
  stop_or false h = h

module _ (qs : Qsort) (y : System) (ip_host : ℕ) where
  begin_with-First : (vnet : Vnet) (g : Group) → First ip_host (begin_with qs y ip_host vnet g)
  unfolding begin_with
  begin_with-First vnet g = elim (Option-cases (init_routing qs y ip_host (local_host vnet g))) [
    | inl e ↦ rw e (record { each = tt })
    | inr (r, e) ↦
        let a : Alone ip_host (local_host vnet g) (some r) =
          subst (λ o. Alone ip_host (local_host vnet g) o) e
            (init_routing-Alone qs y ip_host (local_host vnet g)) in
        elim (Bool-cases (is_neg r.0)) [
          | inl bad ↦ rw (e, bad) (record { each = tt })
          | inr ok ↦
              let known = a.each ok in
              rw (e, ok)
                (dead_or (is_neg (pcon_init y.pcon_granted y.pcon_lock).0) (
                  dead_or
                    (is_down
                      (vnet_spawn_listener y.reader_granted y.attr_init y.detach y.create vnet))
                    (dead_or (is_nonzero y.bound.ret)
                      (record { each = (known.hosts, known.address, known.own) }))))
        ]
  ]

  begin-First : First ip_host (begin qs y ip_host)
  unfolding begin
  begin-First = stop_or (is_neg (dpg_init y.dpg_lock y.dpg_granted y.resolved).0) (
      bind-Each (vnet_init y.device).made λ vnet.
        bind-Each (dpg_init y.dpg_lock y.dpg_granted y.resolved).1 λ g. begin_with-First vnet g)

  -- If the program comes to listen for peers, with whatever answers of `malloc` and results of the
  -- calls before: the local host is the only known host, it has no links, and it stands at the
  -- given address with the external address and the Ethernet address of the device.
  pub begin-IsFirst : (node : Node) → begin qs y ip_host ≡ some (up node) → IsFirst ip_host node
  begin-IsFirst node run = (subst (λ o. First ip_host o) run begin-First).each
