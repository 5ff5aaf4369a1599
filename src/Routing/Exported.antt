-- ===== src/Routing/Exported.antt =====
-- What becomes of the exported edges when `update_exported_edges` runs again: it appends to the array
-- of the edges, which no call empties.
use mathlib.Core.List.{append_assoc, append-nil}
use p2p_vn.Base.{
  ℕ, suc, ◌+◌, ◌≤◌, ◌≡◌, sym, ap, subst, ◌∙◌, arith, Bool, true, false, Bool-cases, Option, none,
  some, Option-cases, inl, inr, List, [], ◌∷◌, ◌++◌, length, ℤ, take, ltb, ◌⊎◌, ◌*◌, ◌%◌, ◌^◌, ◌==◌,
}
use p2p_vn.Packet.{ByteOrder, PktEdge, PktIpv4Host, pkt_ipv4_pack}
use p2p_vn.DArray.{DArray, add_to_end, check_and_realloc, live, store}
use p2p_vn.DArray.Laws.{take-store, length-store}
use p2p_vn.Routing.Reads.{entry}
use p2p_vn.Routing.State.{Routing, RtLink, ◌>>=◌}
use p2p_vn.Routing.Query.{rt_get_edges}
use p2p_vn.Routing.Cache.{edge_of, export_links, export_hosts, update_exported_edges}

-- The array holds at least the live elements, and those are the elements `old` with others behind.
abbrev pub Extends : List PktEdge → DArray PktEdge → Type 0
Extends old d = (d.ct ≤ length d.items) × ((new : List PktEdge) × (live d ≡ old ++ new))

-- What a call leaves, if it leaves anything, extends `old`.
abbrev Leaves : {X : Type 0} → List PktEdge → Option (X × Routing) → Type 0
Leaves old none = Unit {0}
Leaves old (some (x, rd)) = Extends old rd.edges

abbrev appended : ℕ → DArray PktEdge → PktEdge → DArray PktEdge
appended m d e = record { ct = d.ct + 1; mem = m; items = store d.items d.ct e }

add_to_end_cases :
    (granted : Bool) (d : DArray PktEdge) (e : PktEdge)
    → ((add_to_end granted d e).1 ≡ d) ⊎ ((m : ℕ) × ((add_to_end granted d e).1 ≡ appended m d e))
unfolding add_to_end check_and_realloc
add_to_end_cases false d e = elim (Bool-cases (ltb d.mem (d.ct + 1))) [
  | inl f ↦ inl (rw f)
  | inr f ↦ inr (d.mem, rw f)
]
add_to_end_cases true d e = elim (Bool-cases (ltb d.mem (d.ct + 1))) [
  | inl f ↦ inr ((2 * d.mem + 8) % 2 ^ 64, rw f)
  | inr f ↦ inr (d.mem, rw f)
]

add_to_end-Extends :
    (granted : Bool) (old : List PktEdge) (d : DArray PktEdge) (e : PktEdge)
    → Extends old d
    → Extends old (add_to_end granted d e).1
add_to_end-Extends granted old d e x = elim (add_to_end_cases granted d e) [
  | inl same ↦ subst (Extends old) (sym same) x
  | inr (m, more) ↦
      let size =
        length-store d.items d.ct (length d.items + 1) e x.0 (omega arith) (omega (arith, x.0)) in
      let next : suc d.ct ≡ d.ct + 1 = omega arith in
      let shape : live (appended m d e) ≡ old ++ (x.1.0 ++ e ∷ []) =
        subst (λ n. take n (store d.items d.ct e) ≡ live d ++ e ∷ []) next
          (take-store d.items d.ct e x.0)
        ∙ ap (λ l. l ++ e ∷ []) x.1.1
        ∙ append_assoc old x.1.0 (e ∷ []) in
      subst (Extends old) (sym more) (omega (arith, size.0), (x.1.0 ++ e ∷ [], shape))
]

module _ (grants : ℕ → Bool) (order : ByteOrder) (old : List PktEdge) where
  export_links-Leaves :
      (links : List RtLink) (i j : ℕ) (src : PktIpv4Host) (rd : Routing)
      → Extends old rd.edges
      → Leaves old (export_links grants order rd i j src links)
  unfolding export_links
  export_links-Leaves [] i j src rd x = x
  export_links-Leaves (link ∷ links) i j src rd x = elim (Option-cases (entry rd.tables.path i j)) [
    | inl outside ↦ rw (outside, export_links, ◌>>=◌) tt
    | inr (path, read) ↦ elim (Bool-cases (path == 0)) [
      | inl e ↦ rw (read, e, export_links, ◌>>=◌) (export_links-Leaves links i (suc j) src rd x)
      | inr e ↦ elim (Option-cases (edge_of order rd src link)) [
        | inl f ↦ rw (read, e, f, export_links, ◌>>=◌) tt
        | inr (edge, f) ↦
            let x' = add_to_end-Extends (grants rd.calls) old rd.edges edge x in
            elim (Bool-cases (add_to_end (grants rd.calls) rd.edges edge).0) [
              | inl g ↦ rw (read, e, f, g, export_links, ◌>>=◌) x'
              | inr g ↦
                  rw (read, e, f, g, export_links, ◌>>=◌)
                    (export_links-Leaves links i (suc j) src _ x')
            ]
      ]
    ]
  ]

  export_hosts-Leaves :
      (ps : List ℕ) (i : ℕ) (rd : Routing)
      → Extends old rd.edges
      → Leaves old (export_hosts grants order rd i ps)
  unfolding export_hosts
  export_hosts-Leaves [] i rd x = x
  export_hosts-Leaves (p ∷ ps) i rd x = elim (Option-cases (rd.host_at p)) [
    | inl e ↦ rw (e, export_hosts) tt
    | inr (h, e) ↦ elim (Option-cases (rd.ip_at h.host)) [
      | inl f ↦ rw (e, f, export_hosts) tt
      | inr (ip, f) ↦
          let links = live h.links in
          let first = export_links-Leaves links i 0 (pkt_ipv4_pack order ip) rd x in
          elim (Option-cases (export_links grants order rd i 0 (pkt_ipv4_pack order ip) links)) [
            | inl g ↦ rw (e, f, g, export_hosts) tt
            | inr (r, g) ↦
                let x' : Extends old r.1.edges = rw g at first in
                elim (Bool-cases r.0) [
                  | inl failed ↦ rw (e, f, g, failed, export_hosts) x'
                  | inr ok ↦ rw (e, f, g, ok, export_hosts) (export_hosts-Leaves ps (suc i) r.1 x')
                ]
          ]
    ]
  ]

  export-Leaves :
      (rd : Routing) → Extends old rd.edges → Leaves old (update_exported_edges grants order rd)
  unfolding update_exported_edges
  export-Leaves rd x =
      let all = export_hosts-Leaves (live rd.hosts) 0 rd x in
      elim (Option-cases (export_hosts grants order rd 0 (live rd.hosts))) [
        | inl e ↦ rw (e, update_exported_edges) tt
        | inr (r, e) ↦
            let x' : Extends old r.1.edges = rw e at all in rw (e, update_exported_edges) x'
      ]

-- For an array of edges that holds its live elements: whatever code `update_exported_edges`
-- returns, `rt_get_edges` gives after it all the edges it gave before, in their old places, with
-- others behind them.
pub update_exported_edges-keeps :
    (grants : ℕ → Bool) (order : ByteOrder) (rd rd' : Routing) (ret : ℤ)
    → rd.edges.ct ≤ length rd.edges.items
    → update_exported_edges grants order rd ≡ some (ret, rd')
    → (new : List PktEdge) × (rt_get_edges rd' ≡ rt_get_edges rd ++ new)
unfolding rt_get_edges
update_exported_edges-keeps grants order rd rd' ret w run =
    let x = export-Leaves grants order (live rd.edges) rd (w, ([], sym (append-nil _))) in
    let x' : Extends (live rd.edges) rd'.edges = rw run at x in x'.1
