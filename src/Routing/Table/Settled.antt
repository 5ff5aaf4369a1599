-- ===== src/Routing/Table/Settled.antt =====
-- routing.c: `rt_lhost_add` on memory in order.
use p2p_vn.Base.{ℕ, suc, ◌≡◌, Bool, true, some, pos, refl}
use p2p_vn.Packet.{Ipv4Host, ByteOrder}
use p2p_vn.Sorting.{Qsort}
use p2p_vn.Routing.State.{Routing, ht_local, ◌>>=◌}
use p2p_vn.Routing.Hosts.{rt_lhost_add}
use p2p_vn.Routing.Table.{Alive, Keeps, Keeps-trans, Fit}
use p2p_vn.Routing.Table.Lookup.{IsFresh}
use p2p_vn.Routing.Table.Recorded.{owned-Fit}
use p2p_vn.Routing.Table.Added.{host_add-Adds}
use p2p_vn.Routing.Table.Calls.{IsPeerIp}

module _ (grants : ℕ → Bool) (qs : Qsort) (order : ByteOrder) (given : (n : ℕ) → grants n ≡ true)
    (more : ℕ) (rd : Routing) where
  -- Where the memory of the routing state is in order and has room for one more element in each
  -- array, every allocation is granted, and an address stands at a number where no host has its
  -- copy: if no host has this address, `rt_lhost_add` returns 0, the memory is again in order,
  -- every host is still there with its address, and the local host is one that is allocated.
  pub rt_lhost_add-Alive :
      (at : ℕ) (ip : Ipv4Host)
      → Fit (suc more) rd
      → IsPeerIp rd at ip
      → IsFresh rd ip.mac
      → (out : Routing) × (rt_lhost_add grants qs rd at ≡ some (pos 0, out))
        × Fit more out
        × Keeps rd out
        × Alive out out.own
  unfolding rt_lhost_add
  rt_lhost_add-Alive at ip f v fresh =
      let (rd', run, step, alive, mac) =
        host_add-Adds grants qs given rd ht_local more at ip (λ z. cc) f v.stands v.below v.no_copy
          fresh in
      let (fit, keeps) = owned-Fit more rd' rd.calls step.fit in
      (
        record rd' { own = rd.calls },
        rw (run, rt_lhost_add, ◌>>=◌) refl,
        fit,
        Keeps-trans rd rd' _ step.keeps keeps,
        keeps.alive rd.calls alive,
      )
