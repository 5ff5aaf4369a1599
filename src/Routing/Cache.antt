-- ===== src/Routing/Cache.antt =====
-- routing.c: `compute_paths` with its allocations, the exported edges and `update_cache`.
use p2p_vn.Base.{
  ℕ, zero, suc, ◌+◌, ◌*◌, Bool, true, false, not, Option, none, some, List, [], ◌∷◌, ℤ, pos, neg,
  is_neg, ◌==◌, if◌then◌else◌,
}
use p2p_vn.Packet.{ByteOrder, PktEdge, PktIpv4Host, htonll, pkt_ipv4_pack}
use p2p_vn.Search.{found}
use p2p_vn.DArray.{add_to_end, live}
use p2p_vn.Paths.{Tables, Links, tables_of}
use p2p_vn.Routing.Reads.{entry}
use p2p_vn.Routing.State.{Routing, RtLink, ◌>>=◌, mac_of}
use p2p_vn.Routing.Hosts.{find_host_by_addr}
use p2p_vn.Routing.Trim.{trim_disjoint_hosts}

-- The links of one host as the set-up of the table reads them: `host_to_index` of the destination,
-- which must be among the hosts.
unfoldable pub indexed_links : Routing → List RtLink → Option Links
unfolding find_host_by_addr
indexed_links rd [] = some []
indexed_links rd (l ∷ ls) = do
  rest ← indexed_links rd ls
  elim (find_host_by_addr rd (mac_of rd l.dst)) [
    | found dst_i ↦ some ((dst_i, l.rtt_us) ∷ rest)
    | _ ↦ none
  ]

unfoldable pub indexed_hosts : Routing → List ℕ → Option (List Links)
unfolding indexed_links
indexed_hosts rd [] = some []
indexed_hosts rd (p ∷ ps) = do
  h ← rd.host_at p
  links ← indexed_links rd (live h.links)
  rest ← indexed_hosts rd ps
  some (links ∷ rest)

-- The tables that are freed: there is no row to read.
abbrev pub no_tables : Tables
no_tables = record { path = []; next = [] }

-- The edge that a link of a host with the packed address `src` is exported as.
unfoldable pub edge_of : ByteOrder → Routing → PktIpv4Host → RtLink → Option PktEdge
edge_of order rd src link = do
  dst_host ← rd.host_at link.dst
  dst ← rd.ip_at dst_host.host
  some (record {
    src = src;
    dst = pkt_ipv4_pack order dst;
    rtt_us = order.htonl link.rtt_us;
    ts_ms = htonll order link.ts_ms;
  })

module _ (grants : ℕ → Bool) where
  -- The allocations of the rows, `path[i]` before `next[i]`: 0, or the code of the one that failed.
  unfoldable pub alloc_rows : (rows call : ℕ) → ℤ
  alloc_rows zero call = pos 0
  alloc_rows (suc rows) call =
      let rest = alloc_rows rows (call + 2) in
      if grants call then if grants (call + 1) then rest else neg 4 else neg 3

  -- `compute_paths`. Where an allocation fails, the rows of the old tables are already freed, while
  -- `rd->path` and `rd->next` go on pointing to them or to a block that `realloc` has moved or freed:
  -- a read of the tables is a fault then, and so is the next call, unless there were no tables yet
  -- and the pointers are NULL. The numbers of the calls go on as if all of them had been made.
  unfoldable pub compute_paths : Routing → Option (ℤ × Routing)
  unfolding alloc_rows indexed_hosts
  compute_paths rd =
      let n = rd.hosts.ct in
      let rows = alloc_rows n (rd.calls + 2) in
      let freed : Routing = record rd { tables = no_tables; calls = rd.calls + 2 + 2 * n } in
      let broken : Routing = record freed { dangling = not (rd.m_ct == 0) } in
      let filled = (do
        hosts ← indexed_hosts rd (live rd.hosts)
        some (pos 0, record freed { m_ct = n; tables = tables_of hosts })) in
      let done =
        if grants rd.calls
        then if grants (rd.calls + 1)
          then if is_neg rows then some (rows, record broken { m_ct = 0 }) else filled
          else some (neg 2, broken)
        else some (neg 1, broken) in
      if rd.dangling then none else done

  module _ (order : ByteOrder) where
    -- The edges of host `i`, from its link `j` on; whether `DA_ADD_TO_END` failed. The table is read
    -- at the number of the link, which is outside the row where it is not below the count of hosts.
    unfoldable pub export_links :
        Routing → (i j : ℕ) → PktIpv4Host → List RtLink → Option (Bool × Routing)
    unfolding edge_of
    export_links rd i j src [] = some (false, rd)
    export_links rd i j src (link ∷ links) =
        let skipped = export_links rd i (suc j) src links in
        let exported = (do
          new_edge ← edge_of order rd src link
          let (failed, edges) = add_to_end (grants rd.calls) rd.edges new_edge
          let rd' : Routing = record rd { edges = edges; calls = rd.calls + 1 }
          let rest = export_links rd' i (suc j) src links
          if failed then some (true, rd') else rest) in
        entry rd.tables.path i j >>= (λ path. if path == 0 then skipped else exported)

    unfoldable pub export_hosts : Routing → (i : ℕ) → List ℕ → Option (Bool × Routing)
    unfolding export_links
    export_hosts rd i [] = some (false, rd)
    export_hosts rd i (p ∷ ps) = do
      h ← rd.host_at p
      ip ← rd.ip_at h.host
      (failed, rd') ← export_links rd i 0 (pkt_ipv4_pack order ip) (live h.links)
      let rest = export_hosts rd' (suc i) ps
      if failed then some (true, rd') else rest

    -- `update_exported_edges`
    unfoldable pub update_exported_edges : Routing → Option (ℤ × Routing)
    unfolding export_hosts
    update_exported_edges rd = do
      (failed, rd') ← export_hosts rd 0 (live rd.hosts)
      some (if failed then neg 1 else pos 0, rd')

    -- What `update_cache` does once the hosts are trimmed.
    unfoldable pub recompute : Routing → Option (ℤ × Routing)
    unfolding compute_paths update_exported_edges
    recompute rd = do
      (computed, rd') ← compute_paths rd
      if is_neg computed then some (computed, rd') else update_exported_edges rd'

    -- `update_cache`
    unfoldable pub update_cache : Routing → Option (ℤ × Routing)
    unfolding recompute trim_disjoint_hosts
    update_cache rd = do
      (trimmed, rd') ← trim_disjoint_hosts rd
      if is_neg trimmed then some (trimmed, rd') else recompute rd'
