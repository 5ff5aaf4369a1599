-- ===== src/Routing/Query.antt =====
-- routing.c: `rt_dhosts_to_host` with its lookups and its lock, and the calls that lend the edges.
use p2p_vn.Base.{
  ℕ, suc, ◌%◌, ◌+◌, Bool, true, false, not, Option, none, some, List, [], ◌∷◌, ℤ, pos, neg,
  is_nonzero, ◌==◌, if◌then◌else◌, get_elem?, get_or,
}
use p2p_vn.Packet.{Mac, PktEdge}
use p2p_vn.Search.{found, missing, fault}
use p2p_vn.DArray.{live}
use p2p_vn.Paths.{at, path_discon}
use p2p_vn.Forward.{multicast, unicast}
use p2p_vn.Routing.Reads.{entry}
use p2p_vn.Routing.State.{Routing, ◌>>=◌, mac_of}
use p2p_vn.Routing.Hosts.{find_host_by_addr}
use p2p_vn.Routing.Cache.{compute_paths}

-- What `rt_dhosts_to_host` gives: its code, the addresses of `*res`, and whether it still has the
-- read lock, which `rt_hosts_free` gives up.
pub record Answer : Type 0 where
  pub code : ℤ
  pub addrs : List ℕ
  pub held : Bool

-- The exit `error_ret`.
abbrev pub error_ret : ℤ → Answer
error_ret ret = record { code = ret; addrs = []; held = false }

abbrev pub give : List ℕ → Answer
give addrs = record { code = pos 0; addrs = addrs; held = true }

-- `ether_addr_is_mcast`
unfoldable pub ether_addr_is_mcast : Mac → Bool
ether_addr_is_mcast m = not (get_or m 0 0 % 2 == 0)

-- `(*index_to_host(rd, i))->host`
unfoldable pub addr_at : Routing → ℕ → Option ℕ
addr_at rd i = do p ← get_elem? rd.hosts.items i; h ← rd.host_at p; some h.host

-- The list that `*hp = malloc(sizeof(**hp))` builds; a failed `malloc` is a fault, its guard is empty.
unfoldable pub addr_list : (grants : ℕ → Bool) → Routing → (call : ℕ) → List ℕ → Option (List ℕ)
unfolding addr_at
addr_list grants rd call [] = some []
addr_list grants rd call (i ∷ is) = do
  a ← addr_at rd i
  rest ← addr_list grants rd (suc call) is
  if grants call then some (a ∷ rest) else none

-- The part for a multicast address; the arrays `src_to_cur` and `dsts` take a call each, and the
-- appends to them are taken to succeed. The loop has the fuel that `Forward.Trail` asks for.
unfoldable pub multicast_answer :
    (grants : ℕ → Bool) → Routing → (src_mac : Mac) (cur_i : ℕ) → Option Answer
unfolding find_host_by_addr addr_list
multicast_answer grants rd src_mac cur_i = elim (find_host_by_addr rd src_mac) [
  | fault ↦ none
  | missing ↦ some (error_ret (neg 2))
  | found src_i ↦
      let sent = (do
        dsts ←
            multicast (suc (at rd.tables.path src_i cur_i + rd.m_ct)) rd.m_ct rd.tables src_i cur_i
        addrs ← addr_list grants rd (rd.calls + 2) dsts
        some (give addrs)) in
      let joined = if grants (rd.calls + 1) then sent else some (error_ret (neg 34)) in
      if grants rd.calls
      then entry rd.tables.path src_i cur_i
        >>= (λ path. if path == path_discon then some (error_ret (pos 0)) else joined)
      else some (error_ret (neg 33))
]

-- The other part.
unfoldable pub unicast_answer :
    (grants : ℕ → Bool) → Routing → (dst_mac : Mac) (cur_i : ℕ) → Option Answer
unfolding find_host_by_addr unicast addr_at
unicast_answer grants rd dst_mac cur_i = elim (find_host_by_addr rd dst_mac) [
  | fault ↦ none
  | missing ↦ some (error_ret (neg 1))
  | found dst_i ↦
      let routed : Option Answer = elim (unicast rd.tables cur_i dst_i) [
        | none ↦ some (give [])
        | some next_i ↦ do
          a ← addr_at rd next_i
          some (if grants rd.calls then give (a ∷ []) else error_ret (neg 3))
      ] in
      entry rd.tables.path cur_i dst_i >>= (λ path. routed)
]

-- From the search for the local host on.
unfoldable pub route : (grants : ℕ → Bool) → Routing → (src_mac dst_mac : Mac) → Option Answer
unfolding find_host_by_addr multicast_answer unicast_answer ether_addr_is_mcast
route grants rd src_mac dst_mac = elim (find_host_by_addr rd (mac_of rd rd.own)) [
  | fault ↦ none
  | missing ↦ some (error_ret (neg 13))
  | found cur_i ↦
      if ether_addr_is_mcast dst_mac
      then multicast_answer grants rd src_mac cur_i
      else unicast_answer grants rd dst_mac cur_i
]

-- `rt_dhosts_to_host`
unfoldable pub rt_dhosts_to_host :
    (grants : ℕ → Bool) → Routing → (src_mac dst_mac : Mac) → Option (Answer × Routing)
unfolding route compute_paths
rt_dhosts_to_host grants rd src_mac dst_mac =
    let kept = route grants rd src_mac dst_mac >>= (λ a. some (a, rd)) in
    let renewed = (do
      (ret, rd') ← compute_paths grants rd
      let routed = route grants rd' src_mac dst_mac >>= (λ a. some (a, rd'))
      if is_nonzero ret then some (error_ret ret, rd') else routed) in
    if rd.m_ct == rd.hosts.ct then kept else renewed

-- `rt_hosts_free`: whether the caller has the lock after it; `none` where it did not have it before.
unfoldable pub rt_hosts_free : Answer → Option Bool
rt_hosts_free a = if a.held then some false else none

-- `rt_get_edges`
unfoldable pub rt_get_edges : Routing → List PktEdge
rt_get_edges rd = live rd.edges
