-- ===== src/Routing/Table/Edges.antt =====
-- routing.c: `rt_update_edges` on memory in order, where every allocation is granted.
use mathlib.Core.List.Permᴰ
use p2p_vn.Base.{
  ℕ, suc, ◌+◌, ◌*◌, ◌^◌, ◌<◌, ◌≡◌, ◌≢◌, inl, inr, refl, sym, subst, ◌∙◌, arith, Bool, true, false,
  Bool-cases, Option, some, none, All, ℤ, pos, neg, List, [], ◌∷◌, length,
}
use p2p_vn.Packet.{Mac, Ipv4Host, PktEdge, ByteOrder, ntohll, pkt_ipv4_unpack}
use p2p_vn.Sorting.{Qsort}
use p2p_vn.Sorting.Keys.{All-perm}
use p2p_vn.DArray.Keyed.{length-perm}
use p2p_vn.Routing.State.{Routing, ◌>>=◌}
use p2p_vn.Routing.Update.{
  same_mac, Scan, Turn, linked, passed_over, pkt_edges_cmp_src, add_edge, update_edge, update_each,
  with_cache, rt_update_edges,
}
use p2p_vn.Routing.Table.{Fit, Fit-less, Step, Step-less, Step-self, Step-trans}
use p2p_vn.Routing.Table.Entered.{Entered, joins, passes, enter_source-Entered, add_edge-Step}
use p2p_vn.Routing.Table.Scanned.{IsScan, IsScan-Keeps, Known, Known-Keeps, same_mac_ne}

-- An edge brings at most two hosts and a link.
abbrev room_for : List PktEdge → ℕ → ℕ
room_for [] more = more
room_for (e ∷ es) more = suc (suc (suc (room_for es more)))

room_for_lem : (es : List PktEdge) (more : ℕ) → room_for es more ≡ 3 * length es + more
room_for_lem [] more = omega arith
room_for_lem (e ∷ es) more = omega (arith, room_for_lem es more)

-- A round that goes on, with the memory and the scan in order.
abbrev Goes : (more : ℕ) (rd : Routing) → (Routing → Type 0) → Option (ℤ × Routing × Scan) → Type 0
Goes more rd P o =
    (rd' : Routing) × (sc' : Scan) × (o ≡ some (pos 0, rd', sc'))
    × Step more rd rd'
    × IsScan rd' sc'
    × P rd'

-- The source of the edge is known, unless it is also its destination.
abbrev pub SourceKnown : Routing → PktEdge → Type 0
SourceKnown rd e = same_mac e.src.mac e.dst.mac ≡ false → Known rd e.src.mac

module _ (grants : ℕ → Bool) (qs : Qsort) (order : ByteOrder)
    (given : (n : ℕ) → grants n ≡ true) where
  -- The rest of a round.
  abbrev after :
      (dst : Ipv4Host) (rtt_us ts_ms : ℕ) → Turn × Routing × Scan → Option (ℤ × Routing × Scan)
  after dst rtt_us ts_ms (turn, rd₁, sc₁) = elim turn [
    | passed_over ↦ some (pos 0, rd₁, sc₁)
    | Turn.ended code ↦ some (code, rd₁, sc₁)
    | linked ↦ do
      (ret, rd₂) ← add_edge grants qs order rd₁ sc₁.cur_host_src dst rtt_us ts_ms
      some (ret, rd₂, sc₁)
  ]

  after-Goes :
      (more : ℕ) (rd : Routing) (dst : Ipv4Host) (rtt_us ts_ms : ℕ) (mac : Mac)
      (o : Option (Turn × Routing × Scan))
      → dst.mac ≢ mac
      → rtt_us < 2 ^ 32
      → Entered (suc (suc more)) rd mac o
      → Goes more rd (λ r. Known r mac) (o >>= after dst rtt_us ts_ms)
  after-Goes more rd dst rtt_us ts_ms mac o differ narrow (passes rd' sc s v known) =
      (rd', sc, refl, Step-less more rd rd' (Step-less (suc more) rd rd' s), v, known)
  after-Goes more rd dst rtt_us ts_ms mac o differ narrow (joins rd' sc h s v e same) =
      let a = v.alive h e in
      let (rd₂, run, last) =
        add_edge-Step grants qs order given more rd' h dst rtt_us ts_ms s.fit a
          (λ q. differ (q ∙ same)) narrow in
      (
        rd₂,
        sc,
        rw (e, run, ◌>>=◌) refl,
        Step-trans (suc (suc more)) more rd rd' rd₂ s last,
        IsScan-Keeps rd' rd₂ sc last.keeps v,
        Known-Keeps rd' rd₂ mac last.keeps (record { at = h; alive = a; same = same }),
      )

  update_edge-Goes :
      (more : ℕ) (rd : Routing) (sc : Scan) (e : PktEdge)
      → e.rtt_us < 2 ^ 32
      → Fit (suc (suc (suc more))) rd
      → IsScan rd sc
      → Goes more rd (λ r. SourceKnown r e) (update_edge grants qs order rd sc e)
  unfolding update_edge
  update_edge-Goes more rd sc e narrow f v =
      let src = pkt_ipv4_unpack e.src in
      let dst = pkt_ipv4_unpack e.dst in
      let ts_ms = ntohll order e.ts_ms in
      elim (Bool-cases (same_mac src.mac dst.mac)) [
        | inl same ↦ (
          rd,
          sc,
          rw (same, update_edge) refl,
          Step-less more rd rd (
              Step-less (suc more) rd rd
                (Step-self (suc (suc more)) rd (Fit-less (suc (suc more)) rd f))),
          v,
          λ differ. cc,
        )
        | inr other ↦
            let entered =
              enter_source-Entered grants qs order given (suc (suc more)) rd sc src ts_ms f v in
            let (rd', sc', run, s, v', known) =
              after-Goes more rd dst (order.ntohl e.rtt_us) ts_ms src.mac _
                (λ q. same_mac_ne src.mac dst.mac other (sym q)) (order.ntohl_lt e.rtt_us narrow)
                entered in
            (rd', sc', rw (other, update_edge) run, s, v', λ differ. known)
      ]

  update_each-Step :
      (es : List PktEdge) (more : ℕ) (rd : Routing) (sc : Scan)
      → All (λ (e : PktEdge). e.rtt_us < 2 ^ 32) es
      → Fit (room_for es more) rd
      → IsScan rd sc
      → (rd' : Routing) × (update_each grants qs order rd sc es
          ≡ with_cache grants qs order (neg 5) rd')
        × Step more rd rd'
        × All (SourceKnown rd') es
  unfolding update_each
  update_each-Step [] more rd sc n f v = (rd, refl, Step-self more rd f, tt)
  update_each-Step (e ∷ es) more rd sc n f v =
      let (rd₁, sc₁, run, s, v₁, known) = update_edge-Goes (room_for es more) rd sc e n.0 f v in
      let (rd', rest, last, all) = update_each-Step es more rd₁ sc₁ n.1 s.fit v₁ in
      (
        rd',
        rw (run, update_each, ◌>>=◌) rest,
        Step-trans (room_for es more) more rd rd₁ rd' s last,
        (λ d. Known-Keeps rd₁ rd' _ last.keeps (known d), all),
      )

  pub rt_update_edges-Step :
      (more : ℕ) (rd : Routing) (edges : List PktEdge)
      → All (λ (e : PktEdge). e.rtt_us < 2 ^ 32) edges
      → Fit (3 * length edges + more) rd
      → (rd' : Routing) × (rt_update_edges grants qs order rd edges
          ≡ with_cache grants qs order (neg 5) rd')
        × Step more rd rd'
        × All (SourceKnown rd') edges
  unfolding rt_update_edges
  rt_update_edges-Step more rd edges narrow f =
      let sorted = qs.sort PktEdge pkt_edges_cmp_src edges in
      let same = length-perm (qs.sort_perm PktEdge pkt_edges_cmp_src edges) in
      let room : 3 * length edges + more ≡ room_for sorted more =
        omega (arith, same, room_for_lem sorted more) in
      let start : Scan = record {
        cur_ip_src = record { mac = []; sin_family = 0; s_addr = 0; sin_port = 0 };
        cur_host_src = none;
        cont_to_new_src = false;
      } in
      let (rd', run, step, known) =
        update_each-Step sorted more rd start
          (All-perm _ (Permᴰ.symm (qs.sort_perm PktEdge pkt_edges_cmp_src edges)) narrow)
          (subst (λ n. Fit n rd) room f)
          (record { alive = λ h e. cc; mac = λ h e. cc; stands = λ c. cc }) in
      (
        rd',
        run,
        step,
        All-perm (SourceKnown rd') (qs.sort_perm PktEdge pkt_edges_cmp_src edges) known,
      )
