-- ===== src/Routing/Trim.antt =====
-- routing.c: the removal of hosts to which there is no path.
use p2p_vn.Base.{
  ℕ, zero, suc, ◌+◌, Bool, true, false, not, ◌&&◌, Option, none, some, List, [], ◌∷◌, ℤ, pos, ltb,
  ◌==◌, if◌then◌else◌, get_elem?,
}
use p2p_vn.Search.{found, missing, fault}
use p2p_vn.DArray.{remove, live}
use p2p_vn.Packet.{Mac}
use p2p_vn.Routing.Reads.{entry}
use p2p_vn.Routing.State.{Routing, HostType, ht_normal, update, ◌>>=◌, mac_of}
use p2p_vn.Routing.Hosts.{find_host_by_addr, find_link_by_addr, link_remove}

abbrev pub is_normal : HostType → Bool
is_normal ht_normal = true
is_normal _ = false

-- `free_host`: the address, the links and the host itself.
unfoldable pub free_host : Routing → (h : ℕ) → Option Routing
free_host rd h = do
  host ← rd.host_at h
  some (record rd { ip_at = update rd.ip_at host.host none; host_at = update rd.host_at h none })

-- `host_remove`, of the host at an index.
unfoldable pub host_remove : Routing → (h : ℕ) → Routing
host_remove rd h = record rd { hosts = remove rd.hosts h }

-- The loop of `trim_host` over the hosts `srcs`: their links to the host with the address `mac` go.
unfoldable pub unlink_all : Routing → Mac → (srcs : List ℕ) → Option Routing
unfolding link_remove find_link_by_addr
unlink_all rd mac [] = some rd
unlink_all rd mac (pos_src ∷ srcs) = do
  s ← rd.host_at pos_src
  rd' ← elim (find_link_by_addr rd s.links mac) [
    | fault ↦ none
    | missing ↦ some rd
    | found link ↦ link_remove rd pos_src link
  ]
  unlink_all rd' mac srcs

-- The part of `trim_host` behind its test, of the host `p` at the index `h`. The last step reads the
-- cell at `h` again, after `host_remove` has moved the cells behind it.
unfoldable pub cut_host : Routing → (h p : ℕ) → Option Routing
unfolding free_host host_remove unlink_all
cut_host rd h p = do
  rd' ← unlink_all rd (mac_of rd p) (live rd.hosts)
  let removed = host_remove rd' h
  q ← get_elem? removed.hosts.items h
  free_host removed q

-- `trim_host`, of the host at the index `h` of the array.
unfoldable pub trim_host : Routing → (h : ℕ) → Option Routing
unfolding cut_host
trim_host rd h = do
  p ← get_elem? rd.hosts.items h
  host ← rd.host_at p
  if is_normal host.type then cut_host rd h p else some rd

-- The loop of `trim_disjoint_hosts` from `dst_i`. The count of hosts is read anew in each round; the
-- row of the table is not.
unfoldable pub trim_from : ℕ → (src_i dst_i : ℕ) → Routing → Option Routing
unfolding trim_host
trim_from zero src_i dst_i rd = some rd
trim_from (suc fuel) src_i dst_i rd =
    let rest = (do
      path ← entry rd.tables.path src_i dst_i
      let goes = path == 0 && not (dst_i == src_i)
      rd' ← if goes then trim_host rd dst_i else some rd
      trim_from fuel src_i (dst_i + 1) rd') in
    if ltb dst_i rd.hosts.ct then rest else some rd

-- `trim_disjoint_hosts`; the loop makes at most one round for each host there is at its start.
unfoldable pub trim_disjoint_hosts : Routing → Option (ℤ × Routing)
unfolding trim_from find_host_by_addr
trim_disjoint_hosts rd = elim (find_host_by_addr rd (mac_of rd rd.own)) [
  | fault ↦ none
  | missing ↦ if rd.m_ct == rd.hosts.ct then none else some (pos 1, rd)
  | found src_i ↦
      if rd.m_ct == rd.hosts.ct
      then trim_from rd.hosts.ct src_i 0 rd >>= (λ rd'. some (pos 0, rd'))
      else some (pos 1, rd)
]
