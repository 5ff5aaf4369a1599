-- ===== src/Forward/Tests.antt =====
-- Runs of the forwarding of a packet on small networks.
use p2p_vn.Base.{ℕ, ◌≡◌, refl, arith, List, [], ◌∷◌, some, All}
use p2p_vn.Paths.{
  Links, at, tables_of, floyd, round, relax, via_cost, seed_hosts, seed_links, clear,
}
use p2p_vn.Paths.Seed.{IsNetwork}
use p2p_vn.Forward.{follow, passes, destinations, multicast, unicast}
use p2p_vn.Forward.Trail.{IsTrail, follow_ends}
use p2p_vn.Forward.Linked.{unicast_linked, IsTarget, multicast-IsTarget}
use p2p_vn.Forward.Local.{multicast_self}
use p2p_vn.Base.{count_up, zero, suc}

-- Host 1 stands between the hosts 0 and 2, which are linked at a higher weight.
abbrev net : List Links
net = ((1, 10) ∷ (2, 50) ∷ []) ∷ (((0, 10) ∷ (2, 20) ∷ []) ∷ (((0, 50) ∷ (1, 20) ∷ []) ∷ []))

net-IsNetwork : IsNetwork net
net-IsNetwork zero h =
    ((omega arith, omega arith, omega arith), ((omega arith, omega arith, omega arith), tt))
net-IsNetwork (suc zero) h =
    ((omega arith, omega arith, omega arith), ((omega arith, omega arith, omega arith), tt))
net-IsNetwork (suc (suc zero)) h =
    ((omega arith, omega arith, omega arith), ((omega arith, omega arith, omega arith), tt))
net-IsNetwork (suc (suc (suc i))) h = absurd (omega arith)

-- The weight from 0 to 2, and the first host on the way.
route : (at (tables_of net).path 0 2 ≡ 30) × (unicast (tables_of net) 0 2 ≡ some 1)
unfolding tables_of floyd round relax via_cost seed_hosts seed_links clear count_up unicast
route = (refl, refl)

from_0_at_1 : multicast 50 3 (tables_of net) 0 1 ≡ some (2 ∷ [])
unfolding tables_of floyd round relax via_cost seed_hosts seed_links clear count_up follow passes
    destinations multicast
from_0_at_1 = refl

unicast_linked_example : IsTarget net 0 1
unicast_linked_example =
    unicast_linked net net-IsNetwork (omega arith) 0 2 1 (omega arith) (omega arith) (omega arith)
      route.1

follow_ends_example :
    (xs : List ℕ) × (follow 40 (tables_of net) 2 0 ≡ some xs) × IsTrail 3 (tables_of net) 2 0 xs
follow_ends_example =
    follow_ends net net-IsNetwork (omega arith) 40 0 2 (omega arith) (omega arith)
      (λ e. omega (arith, route.0, e)) (omega (arith, route.0))

multicast-IsTarget_example :
    (dsts : List ℕ) × (multicast 40 3 (tables_of net) 0 2 ≡ some dsts) × All (IsTarget net 2) dsts
multicast-IsTarget_example =
    multicast-IsTarget net net-IsNetwork (omega arith) 40 0 2 (omega arith) (omega arith)
      (omega (arith, route.0))

multicast_self_example : multicast 1 3 (tables_of net) 1 1 ≡ some []
multicast_self_example = multicast_self net net-IsNetwork (omega arith) 0 1 (omega arith)
