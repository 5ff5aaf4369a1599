-- ===== src/Routing/Table/Added.antt =====
-- routing.c: `host_add` and `link_add` on memory in order, where every allocation is granted.

use p2p_vn.Base.{
  Ordering, List, [], ◌∷◌, All, ℕ, suc, ◌+◌, ◌<◌, ◌≡◌, ◌≢◌, refl, sym, ◌∙◌, arith, Bool, true,
  Option, some, none, ℤ, pos,
}
use p2p_vn.Packet.{ByteOrder, Mac, Ipv4Host}
use p2p_vn.Sorting.{Qsort}
use p2p_vn.Search.{missing}
use p2p_vn.Order.Bytes.{memcmp}
use p2p_vn.DArray.{live, da_init}
use p2p_vn.Routing.State.{
  Routing, RtHost, HostType, ht_local, ht_direct, ht_normal, update, mac_of, ◌>>=◌,
}
use p2p_vn.Routing.Hosts.{find_host_by_addr, host_alloc, host_insert_unchecked, host_add}
use p2p_vn.Routing.Update.{add_copy}
use p2p_vn.Routing.Table.{Alive, Keeps, Fit, Step, Step-trans, update_self, update_ne}
use p2p_vn.Routing.Table.Lookup.{IsFresh, find_host-missing}
use p2p_vn.Routing.Table.Changed.{add_to_end-granted, readdressed, readdressed-Step}
use p2p_vn.Routing.Table.Joined.{
  made, joined, Joins, joined-Step, joined-Alive, joined-mac, joined-older,
}

-- A call that makes a host, and leaves memory in order.
abbrev pub Adds : Routing → ℕ → Mac → Option (ℤ × Routing × ℕ) → Type 0
Adds rd more mac o =
    (rd' : Routing) × (o ≡ some (pos 0, rd', rd.calls))
    × Step more rd rd'
    × Alive rd' rd.calls
    × (mac_of rd' rd.calls ≡ mac)

module _ (grants : ℕ → Bool) (qs : Qsort) (given : (n : ℕ) → grants n ≡ true) (rd : Routing) where
  host_alloc-copied :
      (at : ℕ) (ip : Ipv4Host)
      → rd.ip_at at ≡ some ip
      → host_alloc grants rd at ht_normal
        ≡ some (
          pos 0,
          made qs rd
              (rd.calls + 2)
              ht_normal
              ip
              (update rd.ip_at (rd.calls + 2) (some ip))
              (rd.calls + 3),
          rd.calls,
        )
  unfolding host_alloc da_init
  host_alloc-copied at ip e =
      rw (e, given rd.calls, given (rd.calls + 1), given (rd.calls + 2), host_alloc) refl

  host_alloc-shared :
      (type : HostType) (at : ℕ) (ip : Ipv4Host)
      → type ≢ ht_normal
      → rd.ip_at at ≡ some ip
      → host_alloc grants rd at type
        ≡ some (pos 0, made qs rd at type ip rd.ip_at (rd.calls + 2), rd.calls)
  unfolding host_alloc da_init
  host_alloc-shared ht_local at ip n e =
      rw (e, given rd.calls, given (rd.calls + 1), host_alloc) refl
  host_alloc-shared ht_direct at ip n e =
      rw (e, given rd.calls, given (rd.calls + 1), host_alloc) refl
  host_alloc-shared ht_normal at ip n e = absurd (n refl)

  -- `host_add` of an address that no host has, once the host is made.
  host_add-joined :
      (at ip_host : ℕ) (type : HostType) (ip : Ipv4Host) (ips : ℕ → Option Ipv4Host) (n : ℕ)
      → rd.ip_at at ≡ some ip
      → find_host_by_addr rd ip.mac ≡ missing
      → host_alloc grants rd at type ≡ some (pos 0, made qs rd ip_host type ip ips n, rd.calls)
      → host_add grants qs rd at type ≡ some (pos 0, joined qs rd ip_host type ip ips n, rd.calls)
  unfolding host_add host_insert_unchecked
  host_add-joined at ip_host type ip ips n e f g =
      rw (e, host_add, ◌>>=◌)
        (rw f (
          rw (g, ◌>>=◌)
            (rw
              (
                given n,
                add_to_end-granted rd.hosts rd.calls,
                given n,
                add_to_end-granted rd.hosts rd.calls,
              )
              refl)))

  -- `host_add` of the address that a host will share.
  pub host_add-Adds :
      (type : HostType) (more at : ℕ) (ip : Ipv4Host)
      → type ≢ ht_normal
      → Fit (suc more) rd
      → rd.ip_at at ≡ some ip
      → at < rd.calls
      → ((p : ℕ) (h : RtHost) → rd.host_at p ≡ some h → h.type ≡ ht_normal → h.host ≢ at)
      → IsFresh rd ip.mac
      → Adds rd more ip.mac (host_add grants qs rd at type)
  host_add-Adds type more at ip shared f e below no_copy fresh =
      let j : Joins qs rd at type ip rd.ip_at (rd.calls + 2) = record {
        later = omega arith;
        below = omega arith;
        stands = e;
        same = λ p h g. refl;
        fresh = fresh;
        copy = λ g. absurd (shared g);
        no_copy = no_copy;
      } in
      let hosts = f.room.hosts in
      let small = hosts.ct_lt in
      (
        joined qs rd at type ip rd.ip_at (rd.calls + 2),
        host_add-joined at at type ip rd.ip_at (rd.calls + 2) e
            (find_host-missing rd ip.mac f.table (omega arith) fresh)
            (host_alloc-shared type at ip shared e),
        joined-Step qs rd at type ip rd.ip_at (rd.calls + 2) more j f,
        joined-Alive qs rd at type ip rd.ip_at (rd.calls + 2) j f.table,
        joined-mac qs rd at type ip rd.ip_at (rd.calls + 2) j f.table,
      )

IsFresh-Keeps :
    (rd rd' : Routing) (mac : Mac)
    → Keeps rd rd'
    → (ps : List ℕ) → All (Alive rd) ps
    → All (λ p. memcmp mac (mac_of rd p) ≢ Ordering.eq) ps
    → All (λ p. memcmp mac (mac_of rd' p) ≢ Ordering.eq) ps
IsFresh-Keeps rd rd' mac k [] a f = tt
IsFresh-Keeps rd rd' mac k (p ∷ ps) a f =
    (λ e. f.0 (rw (sym (k.mac p a.0)) e), IsFresh-Keeps rd rd' mac k ps a.1 f.1)

module _ (grants : ℕ → Bool) (qs : Qsort) (given : (n : ℕ) → grants n ≡ true) (rd : Routing) where
  -- `host_add` of an address that stands in a local variable.
  pub add_copy-Adds :
      (order : ByteOrder) (more : ℕ) (ip : Ipv4Host)
      → Fit (suc more) rd
      → IsFresh rd ip.mac
      → Adds rd more ip.mac (add_copy grants qs order rd ip)
  unfolding add_copy
  add_copy-Adds order more ip f fresh =
      let c = rd.calls in
      let small = f.room.hosts.ct_lt in
      let at : ℕ = c + 3 in
      let out : ℕ → Option Ipv4Host = update rd.ip_at at (some ip) in
      let same : (p : ℕ) (h : RtHost) → rd.host_at p ≡ some h → out h.host ≡ rd.ip_at h.host =
        λ p h e.
          let lt = f.table.old p h e in
          update_ne rd.ip_at at h.host (some ip) (λ q. absurd (omega arith)) in
      let rd₀ : Routing = record rd { ip_at = out } in
      let first = readdressed-Step rd out same (suc more) f in
      let ips : ℕ → Option Ipv4Host = update out (c + 2) (some ip) in
      let stands : out at ≡ some ip = update_self rd.ip_at at (some ip) in
      let fresh₀ = IsFresh-Keeps rd rd₀ ip.mac first.keeps (live rd.hosts) f.table.alive fresh in
      let j : Joins qs rd₀ (c + 2) ht_normal ip ips (c + 3) = record {
        later = omega arith;
        below = omega arith;
        stands = update_self out (c + 2) (some ip);
        same = λ p h e.
            let lt = f.table.old p h e in
            update_ne out (c + 2) h.host (some ip) (λ q. absurd (omega arith));
        fresh = fresh₀;
        copy = λ t p h e q. let lt = f.table.old p h e in absurd (omega arith);
        no_copy = λ p h e t q. let lt = f.table.old p h e in absurd (omega arith);
      } in
      let made_it =
        host_add-joined grants qs given rd₀ at (c + 2) ht_normal ip ips (c + 3) stands
          (find_host-missing rd₀ ip.mac first.fit.table (omega arith) fresh₀)
          (host_alloc-copied grants qs given rd₀ at ip stands) in
      let second = joined-Step qs rd₀ (c + 2) ht_normal ip ips (c + 3) more j first.fit in
      let rd₁ : Routing = joined qs rd₀ (c + 2) ht_normal ip ips (c + 3) in
      let left : (p : ℕ) (h : RtHost)
          → rd₁.host_at p ≡ some h
          → update ips at none h.host ≡ ips h.host =
        λ p h e.
          let lt = joined-older qs rd₀ (c + 2) ht_normal ip ips (c + 3) j first.fit.table p h e in
          update_ne ips at h.host none (λ q. absurd (omega arith)) in
      let third = readdressed-Step rd₁ (update ips at none) left more second.fit in
      let alive = joined-Alive qs rd₀ (c + 2) ht_normal ip ips (c + 3) j first.fit.table in
      (
        readdressed rd₁ (update ips at none) left,
        rw (made_it, ◌>>=◌) refl,
        Step-trans (suc more) more rd rd₀ _ first (Step-trans more more rd₀ rd₁ _ second third),
        third.keeps.alive c alive,
        third.keeps.mac c alive
            ∙ joined-mac qs rd₀ (c + 2) ht_normal ip ips (c + 3) j first.fit.table,
      )
