-- ===== src/Routing/Outside.antt =====
-- routing.c, `update_exported_edges`: the read of the table at the number of a link.
use p2p_vn.Base.{
  ℕ, suc, ◌+◌, ◌<◌, ◌≤◌, ◌≡◌, inl, inr, refl, arith, Bool, true, Bool-cases, none, some,
  Option-cases, List, [], ◌∷◌, length, get_elem?, ◌==◌,
}
use p2p_vn.Search.Sorted.{get_elem?_lt}
use p2p_vn.Packet.{ByteOrder, PktIpv4Host}
use p2p_vn.DArray.{add_to_end}
use p2p_vn.Routing.State.{Routing, RtLink, ◌>>=◌}
use p2p_vn.Routing.Cache.{edge_of, export_links}
use p2p_vn.Routing.Table.Changed.{add_to_end-granted}

module _ (grants : ℕ → Bool) (order : ByteOrder) (given : (n : ℕ) → grants n ≡ true) (i : ℕ)
    (row : List ℕ) (src : PktIpv4Host) where
  -- Where every allocation is granted, for the links of a host from the number `j` on, `j` being
  -- at most the count of cells in the row of the host: if the host has more links than the row has
  -- cells, `export_links` faults, which is a read outside the row or through a pointer that is
  -- freed.
  pub export_links-outside :
      (links : List RtLink) (j : ℕ) (rd : Routing)
      → get_elem? rd.tables.path i ≡ some row
      → j ≤ length row
      → length row < j + length links
      → export_links grants order rd i j src links ≡ none
  unfolding export_links
  export_links-outside [] j rd here le lt = absurd (omega arith)
  export_links-outside (link ∷ links) j rd here le lt = elim (Option-cases (get_elem? row j)) [
    | inl outside ↦ rw (here, outside, export_links, ◌>>=◌) refl
    | inr (path, read) ↦
        let inside = get_elem?_lt row j path read in
        elim (Bool-cases (path == 0)) [
          | inl no_path ↦
              rw (here, read, no_path, export_links, ◌>>=◌)
                (export_links-outside links (suc j) rd here (omega arith) (omega arith))
          | inr there ↦ elim (Option-cases (edge_of order rd src link)) [
            | inl fault ↦ rw (here, read, there, fault, export_links, ◌>>=◌) refl
            | inr (edge, made) ↦
                rw
                  (
                    here,
                    read,
                    there,
                    made,
                    given rd.calls,
                    add_to_end-granted rd.edges edge,
                    export_links,
                    ◌>>=◌,
                  )
                  (export_links-outside links (suc j)
                    (record rd { edges = (add_to_end true rd.edges edge).1; calls = rd.calls + 1 })
                    here (omega arith) (omega arith))
          ]
        ]
  ]
