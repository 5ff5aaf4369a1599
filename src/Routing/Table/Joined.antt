-- ===== src/Routing/Table/Joined.antt =====
-- routing.c: memory in order stays so where a new host joins the array of hosts.
use mathlib.Core.List.Permᴰ
use mathlib.Core.List.{Memᴰ, Permᴰ}
use p2p_vn.Base.{
  ℕ, suc, ◌+◌, ◌<◌, ◌≡◌, ◌≢◌, ◌⊎◌, inl, inr, refl, sym, ap, subst, ◌∙◌, arith, true, Option, some,
  Ordering, List, [], ◌∷◌, All,
}
use p2p_vn.Order.{IsOrder}
use p2p_vn.Order.Bytes.{memcmp, memcmp-IsOrder, key-IsOrder}
use p2p_vn.Packet.{Ipv4Host}
use p2p_vn.Sorting.{Qsort}
use p2p_vn.Sorting.Keys.{All-map, All-perm, Memᴰ-perm}
use p2p_vn.DArray.{add_to_end, live, sort_items}
use p2p_vn.DArray.Keyed.{IsKeyed, insert-IsKeyed}
use p2p_vn.Routing.State.{Routing, RtHost, HostType, ht_normal, update, mac_of}
use p2p_vn.Routing.Hosts.{host_cmp_addr}
use p2p_vn.Routing.Table.{
  Alive, IsHost, IsTable, Keeps, Small, Fit, Step, update_self, update_ne, Alive-mac, Keeps-of,
  IsKeyed-Keeps, IsHost-Keeps,
}
use p2p_vn.Routing.Table.Lookup.{IsFresh}
use p2p_vn.Routing.Table.Changed.{
  add_to_end-Small, sort_items-Small, inserted-ct, update-cases, allocated_lt,
}

-- A host as `host_alloc` makes it.
abbrev pub new_host : ℕ → HostType → RtHost
new_host ip_host type = record {
  host = ip_host;
  type = type;
  l_max_ts_ms = 0;
  links = record { ct = 0; mem = 8; items = [] };
}

pub host_cmp-IsOrder : (rd : Routing) → IsOrder (host_cmp_addr rd)
unfolding host_cmp_addr
host_cmp-IsOrder rd = key-IsOrder (mac_of rd) memcmp-IsOrder

module _ (qs : Qsort) (rd : Routing) (ip_host : ℕ) (type : HostType) (ip : Ipv4Host)
    (ips : ℕ → Option Ipv4Host) (n : ℕ) where
  -- The new host before it joins, with all addresses `ips` and `n` calls made.
  abbrev pub made : Routing
  made = record rd {
    host_at = update rd.host_at rd.calls (some (new_host ip_host type));
    ip_at = ips;
    calls = n;
  }

  abbrev pub joined : Routing
  joined = record made {
    hosts = sort_items qs (host_cmp_addr made) (add_to_end true rd.hosts rd.calls).1;
    calls = n + 1;
  }

  -- The address is new, and stands at a number that no copy has; the other addresses stay.
  pub record Joins : Type 0 where
    pub later : rd.calls < n
    pub below : ip_host < n
    pub stands : ips ip_host ≡ some ip
    pub same : (p : ℕ) (h : RtHost) → rd.host_at p ≡ some h → ips h.host ≡ rd.ip_at h.host
    pub fresh : IsFresh rd ip.mac
    pub copy : type ≡ ht_normal → (p : ℕ) (h : RtHost) → rd.host_at p ≡ some h → h.host ≢ ip_host
    pub no_copy :
        (p : ℕ) (h : RtHost) → rd.host_at p ≡ some h → h.type ≡ ht_normal → h.host ≢ ip_host

  module _ (j : Joins) (table : IsTable rd) where
    made-Keeps : Keeps rd made
    made-Keeps = Keeps-of rd made (λ p a. (
      record {
        host = a.host;
        ip = a.ip;
        points =
            update_ne rd.host_at rd.calls p (some (new_host ip_host type))
              (λ e. let lt = allocated_lt rd p a.host table a.points in absurd (omega arith))
            ∙ a.points;
        stands = j.same p a.host a.points ∙ a.stands;
      },
      refl,
    ))

    pub joined-Alive : Alive joined rd.calls
    joined-Alive = record {
      host = new_host ip_host type;
      ip = ip;
      points = update_self rd.host_at rd.calls (some (new_host ip_host type));
      stands = j.stands;
    }

    made-mac : mac_of made rd.calls ≡ ip.mac
    made-mac = Alive-mac made rd.calls (record {
      host = new_host ip_host type;
      ip = ip;
      points = update_self rd.host_at rd.calls (some (new_host ip_host type));
      stands = j.stands;
    })

    pub joined-mac : mac_of joined rd.calls ≡ ip.mac
    joined-mac = made-mac

    made-fresh :
        (ps : List ℕ)
        → All (Alive rd) ps
        → All (λ p. memcmp ip.mac (mac_of rd p) ≢ Ordering.eq) ps
        → All (λ p. host_cmp_addr made rd.calls p ≢ Ordering.eq) ps
    unfolding host_cmp_addr
    made-fresh [] a f = tt
    made-fresh (p ∷ ps) a f =
        (λ e. f.0 (rw (sym made-mac, sym (made-Keeps.mac p a.0)) e), made-fresh ps a.1 f.1)

    joined-hosts :
        (small : Small 1 rd.hosts)
        → IsKeyed (host_cmp_addr joined) joined.hosts
          × Permᴰ (live joined.hosts) (rd.calls ∷ live rd.hosts)
    unfolding host_cmp_addr
    joined-hosts small =
        let (ok, keyed, perm) =
          insert-IsKeyed (host_cmp-IsOrder made) qs true rd.hosts rd.calls
            (IsKeyed-Keeps rd made made-Keeps rd.hosts table.alive table.keyed) small.mem_lt
            (inl refl) (made-fresh (live rd.hosts) table.alive j.fresh) in
        (keyed, perm)

    joined-Keeps : Keeps rd joined
    joined-Keeps = record {
      alive = λ p a. (record {
        host = (made-Keeps.alive p a).host;
        ip = (made-Keeps.alive p a).ip;
        points = (made-Keeps.alive p a).points;
        stands = (made-Keeps.alive p a).stands;
      });
      mac = made-Keeps.mac;
    }

    -- A host after the call is the new one or stood before.
    joined-cases :
        (p : ℕ) (h : RtHost)
        → joined.host_at p ≡ some h
        → ((p ≡ rd.calls) × (new_host ip_host type ≡ h))
          ⊎ ((p ≢ rd.calls) × (rd.host_at p ≡ some h))
    joined-cases p h e = update-cases rd.host_at rd.calls p (new_host ip_host type) h e

    pub joined-older : (p : ℕ) (h : RtHost) → joined.host_at p ≡ some h → h.host < n
    joined-older p h e = elim (joined-cases p h e) [
      | inl (at, same) ↦ subst (λ (x : RtHost). x.host < n) same j.below
      | inr (ne, f) ↦ let lt = table.old p h f in let l = j.later in omega arith
    ]

    joined-copies :
        (p q : ℕ) (h k : RtHost)
        → joined.host_at p ≡ some h
        → joined.host_at q ≡ some k
        → h.type ≡ ht_normal
        → h.host ≡ k.host
        → p ≡ q
    joined-copies p q h k e f t s = elim (joined-cases p h e) [
      | inl (at, same) ↦ elim (joined-cases q k f) [
        | inl (at', same') ↦ at ∙ sym at'
        | inr (ne, g) ↦ absurd (
            j.copy (ap (λ (x : RtHost). x.type) same ∙ t) q k g
              (sym s ∙ ap (λ (x : RtHost). x.host) (sym same)))
      ]
      | inr (ne, g) ↦ elim (joined-cases q k f) [
        | inl (at', same') ↦
            absurd (j.no_copy p h g t (s ∙ ap (λ (x : RtHost). x.host) (sym same')))
        | inr (ne', g') ↦ table.copies p q h k g g' t s
      ]
    ]

  pub joined-Step : (more : ℕ) → Joins → Fit (suc more) rd → Step more rd joined
  joined-Step more j f =
      let table = f.table in
      let room = f.room.hosts in
      let (keyed, perm) =
        joined-hosts j table
          (record { ct_lt = (let lt = room.ct_lt in omega arith); mem_lt = room.mem_lt }) in
      let keeps = joined-Keeps j table in
      record {
        fit = record {
          table = record {
            keyed = keyed;
            alive =
                All-perm (Alive joined) (Permᴰ.symm perm)
                  (joined-Alive j table, All-map _ _ (live rd.hosts) keeps.alive table.alive);
            each = λ p h e. elim (joined-cases j table p h e) [
              | inl (at, same) ↦ subst (IsHost joined p) same (record {
                self = subst (Alive joined) (sym at) (joined-Alive j table);
                array = record { written = omega arith; fits = omega arith; room = omega arith };
                dsts = tt;
              })
              | inr (ne, g) ↦ IsHost-Keeps rd joined keeps p h (table.each p h g)
            ];
            whole = λ p h e. Memᴰ-perm (Permᴰ.symm perm) (elim (joined-cases j table p h e) [
              | inl (at, same) ↦ Memᴰ.head at
              | inr (ne, g) ↦ Memᴰ.tail (table.whole p h g)
            ]);
            unused = λ p le.
                let l = j.later in
                update_ne rd.host_at rd.calls p (some (new_host ip_host type))
                  (λ e. absurd (omega arith))
                ∙ table.unused p (omega arith);
            old = λ p h e. let lt = joined-older j table p h e in omega arith;
            copies = joined-copies j table;
          };
          room = record {
            hosts =
                sort_items-Small more qs (host_cmp_addr (made))
                  (add_to_end true rd.hosts rd.calls).1
                  (add_to_end-Small more rd.hosts rd.calls room);
            links = λ p h e. elim (joined-cases j table p h e) [
              | inl (at, same) ↦
                  subst (λ (x : RtHost). Small more x.links) same
                    (record { ct_lt = (let lt = room.ct_lt in omega arith); mem_lt = omega arith })
              | inr (ne, g) ↦
                  let old = f.room.links p h g in
                  (record { ct_lt = (let lt = old.ct_lt in omega arith); mem_lt = old.mem_lt })
            ];
          };
        };
        keeps = keeps;
        own = refl;
        m_ct = refl;
        tables = refl;
        hosts =
            inr (
              let more_hosts = inserted-ct qs (host_cmp_addr made) rd.hosts rd.calls in
              omega arith);
      }
