-- ===== src/Routing/Table/Linked.antt =====
-- routing.c: `link_add` on memory in order, where every allocation is granted.
use mathlib.Core.List.Permᴰ
use p2p_vn.Base.{
  [], ◌∷◌, ◌++◌, All, if◌then◌else◌, ℕ, suc, ◌+◌, ◌^◌, ◌<◌, ◌≡◌, ◌≢◌, inl, refl, sym, subst, arith,
  Bool, true, some, pos, ltb,
}
use p2p_vn.Sorting.{Qsort}
use p2p_vn.Order.{IsOrder}
use p2p_vn.Order.Bytes.{memcmp-IsOrder, key-IsOrder}
use p2p_vn.Sorting.Keys.{All-perm, All-append}
use p2p_vn.DArray.Keyed.{sort_items-live}
use p2p_vn.DArray.Laws.{add_to_end-live}
use p2p_vn.DArray.{DArray, live, add_to_end, sort_items}
use p2p_vn.Routing.State.{Routing, RtHost, RtLink, mac_of, ◌>>=◌}
use p2p_vn.Routing.Hosts.{link_cmp_addr, link_add}
use p2p_vn.Routing.Table.{Alive, Fit, Fit-less, Step, Leads}
use p2p_vn.Routing.Table.Changed.{
  add_to_end-granted, replaced, replaced-Step, add_to_end-Small, sort_items-Small,
}

module _ (grants : ℕ → Bool) (qs : Qsort) (given : (n : ℕ) → grants n ≡ true) (rd : Routing) where
  link_cmp-IsOrder : IsOrder (link_cmp_addr rd)
  unfolding link_cmp_addr
  link_cmp-IsOrder = key-IsOrder (λ (l : RtLink). mac_of rd l.dst) memcmp-IsOrder

  -- `link_add` between two hosts.
  pub link_add-Step :
      (more src dst rtt_us ts_ms : ℕ)
      → Fit (suc more) rd
      → Alive rd src
      → Alive rd dst
      → mac_of rd dst ≢ mac_of rd src
      → rtt_us < 2 ^ 32
      → (rd' : Routing) × (link_add grants qs rd src dst rtt_us ts_ms ≡ some (pos 0, rd'))
        × Step more rd rd'
  unfolding link_add
  link_add-Step more src dst rtt_us ts_ms f s d other narrow =
      let link : RtLink = record { dst = dst; ts_ms = ts_ms; rtt_us = rtt_us } in
      let host = f.table.each src s.host s.points in
      let small = f.room.links src s.host s.points in
      let (ok, added, array) =
        add_to_end-live true s.host.links link host.array small.mem_lt (inl refl) in
      let (sorted, array') =
        sort_items-live link_cmp-IsOrder qs (add_to_end true s.host.links link).1 array in
      let links : DArray RtLink =
        sort_items qs (link_cmp_addr rd) (add_to_end true s.host.links link).1 in
      let newest : ℕ = if ltb s.host.l_max_ts_ms ts_ms then ts_ms else s.host.l_max_ts_ms in
      let h' : RtHost = record s.host { links = links; l_max_ts_ms = newest } in
      let whole : All (Leads rd src) (live s.host.links ++ link ∷ []) =
        All-append _ (live s.host.links) (link ∷ []) host.dsts
          (record { alive = d; other = other; narrow = narrow }, tt) in
      let dsts : All (Leads rd src) (live links) =
        subst (All (Leads rd src)) (sym sorted)
          (All-perm _ (Permᴰ.symm (qs.sort_perm RtLink (link_cmp_addr rd) _)) (rw added whole)) in
      (
        replaced rd src (rd.calls + 1) s.host h' s.points refl refl (omega arith),
        rw (s.points, link_add, ◌>>=◌)
            (rw (given rd.calls, add_to_end-granted s.host.links link) refl),
        replaced-Step rd src (rd.calls + 1) s.host h' s.points refl refl (omega arith) more
            (Fit-less more rd f) (record { self = s; array = array'; dsts = dsts })
            (sort_items-Small more qs (link_cmp_addr rd) _
              (add_to_end-Small more s.host.links link small)),
      )
