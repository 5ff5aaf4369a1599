-- ===== src/Routing/Table/Filled.antt =====
-- routing.c: `compute_paths`, `update_exported_edges` and `update_cache` on memory in order, where every
-- allocation is granted.

use p2p_vn.Base.{
  ℕ, zero, suc, ◌+◌, ◌*◌, ◌^◌, ◌≤◌, ◌<◌, ◌≡◌, inl, inr, refl, ◌∙◌, arith, Bool, true, false,
  Bool-cases, Option, none, some, ltb, if◌then◌else◌, pos, List, [], ◌∷◌, All, length, length-take,
  ◌==◌,
}
use p2p_vn.Packet.{ByteOrder, htonll, PktEdge, PktIpv4Host, pkt_ipv4_pack}
use p2p_vn.Paths.{Tables, Links, at, tables_of}
use p2p_vn.Sorting.Keys.{All-map}
use p2p_vn.DArray.{DArray, add_to_end, check_and_realloc, live}
use p2p_vn.Routing.State.{Routing, RtHost, RtLink, ◌>>=◌}
use p2p_vn.Routing.Reads.{entry, entry-tables_of}
use p2p_vn.Routing.Cache.{
  indexed_hosts, edge_of, alloc_rows, compute_paths, export_links, export_hosts,
  update_exported_edges, recompute,
}
use p2p_vn.Routing.Table.{Alive, IsTable, Keeps, Fit}
use p2p_vn.Routing.Table.Recorded.{recorded-Fit}
use p2p_vn.Routing.Table.Indexed.{IsFilled, indexed_hosts-recorded, indexed_hosts-IsNetwork}
use p2p_vn.Routing.Table.Changed.{add_to_end-granted}

-- No host has more than so many links.
abbrev pub IsShort : ℕ → Routing → Type 0
IsShort k rd = (p : ℕ) (h : RtHost) → rd.host_at p ≡ some h → h.links.ct ≤ k

-- Whether a link is exported, by the cell of the table at its number.
abbrev pub one_for : Option ℕ → ℕ
one_for none = 0
one_for (some path) = if path == 0 then 0 else 1

-- How many links of a host are exported, from the number `j` on, and how many of all hosts.
abbrev pub exported_links : Tables → (i j : ℕ) → List RtLink → ℕ
exported_links t i j [] = 0
exported_links t i j (l ∷ ls) = one_for (entry t.path i j) + exported_links t i (suc j) ls

abbrev pub exported_hosts : Routing → Tables → (i : ℕ) → List ℕ → ℕ
exported_hosts rd t i [] = 0
exported_hosts rd t i (p ∷ ps) =
    elim (rd.host_at p) [ none ↦ 0 | some h ↦ exported_links t i 0 (live h.links) ]
    + exported_hosts rd t (suc i) ps

add_to_end-ct : {A : Type 0} (d : DArray A) (e : A) → (add_to_end true d e).1.ct ≡ d.ct + 1
unfolding add_to_end check_and_realloc
add_to_end-ct d e = elim (Bool-cases (ltb d.mem (d.ct + 1))) [
  | inl f ↦ rw f refl
  | inr f ↦ rw f refl
]

module _ (grants : ℕ → Bool) (given : (n : ℕ) → grants n ≡ true) where
  alloc_rows-granted : (rows call : ℕ) → alloc_rows grants rows call ≡ pos 0
  unfolding alloc_rows
  alloc_rows-granted zero call = refl
  alloc_rows-granted (suc rows) call =
      rw (given call, given (call + 1), alloc_rows) (alloc_rows-granted rows (call + 2))

  module _ (rd : Routing) (table : IsTable rd) (small : rd.hosts.ct < 2 ^ 60)
      (sound : rd.dangling ≡ false) where
    compute_paths-filled :
        (hosts : List Links)
        → indexed_hosts rd (live rd.hosts) ≡ some hosts
        → compute_paths grants rd
          ≡ some (
            pos 0,
            record rd {
              m_ct = rd.hosts.ct;
              tables = tables_of hosts;
              calls = rd.calls + 2 + 2 * rd.hosts.ct;
            },
          )
    unfolding compute_paths
    compute_paths-filled hosts e =
        rw
          (
            sound,
            given rd.calls,
            given (rd.calls + 1),
            alloc_rows-granted rd.hosts.ct (rd.calls + 2),
            e,
            compute_paths,
            ◌>>=◌,
          )
          refl

    module _ (order : ByteOrder) (m_ct : ℕ) (tables : Tables) where
      abbrev with_edges : DArray PktEdge → ℕ → Routing
      with_edges edges n = record rd { m_ct = m_ct; tables = tables; edges = edges; calls = n }

      -- A step of the export that does not fail.
      abbrev Exports : (n ct : ℕ) → Option (Bool × Routing) → Type 0
      Exports n ct o =
          (edges' : DArray PktEdge) × (n' : ℕ) × (n ≤ n')
          × (edges'.ct ≡ ct)
          × (o ≡ some (false, with_edges edges' n'))

      edge_of-some :
          (edges : DArray PktEdge) (n : ℕ) (src : PktIpv4Host) (link : RtLink)
          → Alive rd link.dst
          → (e : PktEdge) × (edge_of order (with_edges edges n) src link ≡ some e)
      unfolding edge_of
      edge_of-some edges n src link a = (
        record {
          src = src;
          dst = pkt_ipv4_pack order a.ip;
          rtt_us = order.htonl link.rtt_us;
          ts_ms = htonll order link.ts_ms;
        },
        rw (a.points, a.stands, edge_of, ◌>>=◌) refl,
      )

      -- The table is read between so many hosts.
      abbrev Reads : ℕ → Type 0
      Reads k = (i j : ℕ) → i < k → j < k → (path : ℕ) × (entry tables.path i j ≡ some path)

      export_links-Exports :
          (ls : List RtLink) (k i j n : ℕ) (src : PktIpv4Host) (edges : DArray PktEdge)
          → Reads k
          → i < k
          → j + length ls ≤ k
          → All (λ (l : RtLink). Alive rd l.dst) ls
          → Exports n
              (edges.ct + exported_links tables i j ls)
              (export_links grants order (with_edges edges n) i j src ls)
      unfolding export_links
      export_links-Exports [] k i j n src edges reads row cells a =
          (edges, n, omega arith, omega arith, refl)
      export_links-Exports (l ∷ ls) k i j n src edges reads row cells a =
          let (path, read) = reads i j row (omega arith) in
          elim (Bool-cases (path == 0)) [
            | inl no_path ↦
                let (edges', n', le, count, run) =
                  export_links-Exports ls k i (suc j) n src edges reads row (omega arith) a.1 in
                (
                  edges',
                  n',
                  le,
                  rw (read, no_path) (omega (arith, count)),
                  rw (read, no_path, export_links, ◌>>=◌) run,
                )
            | inr there ↦
                let (e, made) = edge_of-some edges n src l a.0 in
                let grown : DArray PktEdge = (add_to_end true edges e).1 in
                let more = add_to_end-ct edges e in
                let (edges', n', le, count, run) =
                  export_links-Exports ls k i (suc j) (n + 1) src grown reads row (omega arith)
                    a.1 in
                (
                  edges',
                  n',
                  omega arith,
                  rw (read, there) (omega (arith, count, more)),
                  rw (read, there, made, given n, add_to_end-granted edges e, export_links, ◌>>=◌)
                      run,
                )
          ]

      export_hosts-Exports :
          (ps : List ℕ) (k i n : ℕ) (edges : DArray PktEdge)
          → Reads k
          → IsShort k rd
          → i + length ps ≤ k
          → All (Alive rd) ps
          → Exports n
              (edges.ct + exported_hosts rd tables i ps)
              (export_hosts grants order (with_edges edges n) i ps)
      unfolding export_hosts
      export_hosts-Exports [] k i n edges reads short rows a =
          (edges, n, omega arith, omega arith, refl)
      export_hosts-Exports (p ∷ ps) k i n edges reads short rows a =
          let host = table.each p a.0.host a.0.points in
          let links = a.0.host.links in
          let cells = length-take links.ct links.items host.array.written in
          let few = short p a.0.host a.0.points in
          let (edges₁, n₁, le₁, count₁, first) =
            export_links-Exports (live links) k i 0 n (pkt_ipv4_pack order a.0.ip) edges reads
              (omega arith) (omega arith) (All-map _ _ (live links) (λ l v. v.alive) host.dsts) in
          let (edges₂, n₂, le₂, count₂, rest) =
            export_hosts-Exports ps k (suc i) n₁ edges₁ reads short (omega arith) a.1 in
          (
            edges₂,
            n₂,
            omega arith,
            rw a.0.points (omega (arith, count₁, count₂)),
            rw (a.0.points, a.0.stands, first, export_hosts, ◌>>=◌) rest,
          )

    -- With every host and every destination of a link in the array, and no host with more links than
    -- there are hosts: the tables are filled and the edges exported.
    pub recompute-Filled :
        (order : ByteOrder) (more : ℕ)
        → Fit more rd
        → IsShort rd.hosts.ct rd
        → (rd' : Routing) × (recompute grants order rd ≡ some (pos 0, rd'))
          × (Fit more rd' × Keeps rd rd')
          × IsFilled rd'
          × (rd'.own ≡ rd.own)
          × (rd'.edges.ct ≡ rd.edges.ct + exported_hosts rd rd'.tables 0 (live rd.hosts))
    unfolding recompute update_exported_edges
    recompute-Filled order more f short =
        let (hosts, indexed, len, net) = indexed_hosts-IsNetwork rd table small in
        let n : ℕ = rd.calls + 2 + 2 * rd.hosts.ct in
        let cells = length-take rd.hosts.ct rd.hosts.items table.keyed.array.written in
        let (edges, n', le, count, run) =
          export_hosts-Exports order rd.hosts.ct (tables_of hosts) (live rd.hosts) rd.hosts.ct 0 n
            rd.edges
            (λ i j hi hj. (
              at (tables_of hosts).path i j,
              entry-tables_of hosts i j net (omega (arith, len)) (omega (arith, len)),
            ))
            short (omega (arith, cells)) table.alive in
        (
          record rd { m_ct = rd.hosts.ct; tables = tables_of hosts; edges = edges; calls = n' },
          rw (compute_paths-filled hosts indexed, recompute, ◌>>=◌)
              (rw (run, update_exported_edges, ◌>>=◌) refl),
          recorded-Fit more rd rd.hosts.ct n' (tables_of hosts) edges (omega arith) f,
          record {
            hosts = hosts;
            indexed =
                indexed_hosts-recorded rd rd.hosts.ct n' (tables_of hosts) edges (live rd.hosts)
                ∙ indexed;
            len = len;
            net = net;
            count = refl;
            tables = refl;
          },
          refl,
          count,
        )
