-- ===== src/Routing/Update.antt =====
-- routing.c: the calls that change the hosts and links. Each holds the write lock throughout, so a
-- call is one step.
use p2p_vn.Base.{
  ℕ, ◌+◌, Bool, true, false, not, ◌&&◌, Option, none, some, List, [], ◌∷◌, Ordering, ℤ, pos, neg,
  is_nonzero, ltb, if◌then◌else◌, get_elem?, set,
}
use p2p_vn.Order.Bytes.{memcmp, then_by}
use p2p_vn.Packet.{Mac, Ipv4Host, PktEdge, ByteOrder, ntohll, pkt_ipv4_unpack}
use p2p_vn.Sorting.{Qsort}
use p2p_vn.Search.{found, missing, fault}
use p2p_vn.DArray.{DArray}
use p2p_vn.Routing.State.{
  Routing, RtHost, RtLink, HostType, ht_local, ht_direct, ht_normal, update, ◌>>=◌, mac_of,
  put_host,
}
use p2p_vn.Routing.Hosts.{
  find_host_by_addr, find_link_by_addr, link_add, host_add, ihost_to_dhost, link_remove,
}
use p2p_vn.Routing.Cache.{update_cache}

-- `!memcmp(a, b, ETH_ALEN)`, also `!ipv4_cmp_mac`.
unfoldable pub same_mac : Mac → Mac → Bool
same_mac a b = elim (memcmp a b) [ Ordering.eq ↦ true | _ ↦ false ]

abbrev pub is_local : HostType → Bool
is_local ht_local = true
is_local _ = false

abbrev pub is_direct : HostType → Bool
is_direct ht_direct = true
is_direct _ = false

-- `pkt_edges_cmp_src`: it compares the time stamps as they are in the packet.
unfoldable pub pkt_edges_cmp_src : PktEdge → PktEdge → Ordering
pkt_edges_cmp_src e1 e2 = then_by (memcmp e1.src.mac e2.src.mac) (
    if ltb e2.ts_ms e1.ts_ms
    then Ordering.lt
    else if ltb e1.ts_ms e2.ts_ms
    then Ordering.gt
    else Ordering.eq)

-- What the scan of the edges keeps between two of them.
pub record Scan : Type 0 where
  pub cur_ip_src : Ipv4Host
  pub cur_host_src : Option ℕ
  pub cont_to_new_src : Bool

-- How an edge goes on: its link is added, it is passed over, or the call ends with a code.
pub data Turn : Type 0 where
  linked passed_over : Turn
  ended : ℤ → Turn

module _ (grants : ℕ → Bool) (qs : Qsort) (order : ByteOrder) where
  -- The call's last step, `update_cache`, and its code where that fails.
  unfoldable pub with_cache : (failed : ℤ) → Routing → Option (ℤ × Routing)
  unfolding update_cache
  with_cache failed rd = do
    (ret, rd') ← update_cache grants order rd
    some (if is_nonzero ret then failed else pos 0, rd')

  -- `rt_dhost_add_link` where the link is missing: its destination is made a direct host.
  unfoldable pub direct_host : Routing → (dst_ip : ℕ) → Mac → Option (ℤ × Routing × ℕ)
  unfolding host_add find_host_by_addr ihost_to_dhost
  direct_host rd dst_ip mac = elim (find_host_by_addr rd mac) [
    | fault ↦ none
    | missing ↦ host_add grants qs rd dst_ip ht_direct
    | found i ↦ do
      dst_host ← get_elem? rd.hosts.items i
      rd' ← ihost_to_dhost rd dst_host dst_ip
      some (pos 0, rd', dst_host)
  ]

  unfoldable pub link_up :
      Routing → (sh dst_ip : ℕ) → Mac → (rtt_us now_ms : ℕ) → Option (ℤ × Routing)
  unfolding direct_host link_add with_cache
  link_up rd sh dst_ip mac rtt_us now_ms = do
    (made, rd₁, dst_host) ← direct_host rd dst_ip mac
    let added = (do
      (ret, rd₂) ← link_add grants qs rd₁ sh dst_host rtt_us now_ms
      let cached = with_cache (neg 5) rd₂
      if is_nonzero ret then some (neg 3, rd₂) else cached)
    if is_nonzero made then some (neg 2, rd₁) else added

  -- `rt_dhost_add_link` from the search for the link on; `sh` is the local host.
  unfoldable pub put_link :
      Routing → (sh dst_ip : ℕ) → Mac → (rtt_us now_ms : ℕ) → Option (ℤ × Routing)
  unfolding link_up find_link_by_addr with_cache
  put_link rd sh dst_ip mac rtt_us now_ms = do
    s ← rd.host_at sh
    elim (find_link_by_addr rd s.links mac) [
      | fault ↦ none
      | missing ↦ link_up rd sh dst_ip mac rtt_us now_ms
      | found stod ↦ do
        link ← get_elem? s.links.items stod
        let renewed : RtLink = record link { rtt_us = rtt_us; ts_ms = now_ms }
        let links : DArray RtLink = record s.links { items = set s.links.items stod renewed }
        with_cache (neg 5) (put_host rd sh (record s { links = links }))
    ]

  -- `rt_dhost_add_link`; `now_ms` is the time of day.
  unfoldable pub rt_dhost_add_link : Routing → (dst_ip rtt_us now_ms : ℕ) → Option (ℤ × Routing)
  unfolding put_link find_host_by_addr same_mac
  rt_dhost_add_link rd dst_ip rtt_us now_ms = elim (find_host_by_addr rd (mac_of rd rd.own)) [
    | fault ↦ none
    | missing ↦ some (neg 1, rd)
    | found i ↦ do
      sh ← get_elem? rd.hosts.items i
      dst ← rd.ip_at dst_ip
      if same_mac (mac_of rd sh) dst.mac
          then some (neg 2, rd)
          else put_link rd sh dst_ip dst.mac rtt_us now_ms
  ]

  -- `host_add` of a local variable, which stands at a number that no call has given yet.
  unfoldable pub add_copy : Routing → Ipv4Host → Option (ℤ × Routing × ℕ)
  unfolding host_add
  add_copy rd ip = do
    let at = rd.calls + 3
    (ret, rd', h) ←
        host_add grants qs (record rd { ip_at = update rd.ip_at at (some ip) }) at ht_normal
    some (ret, (record rd' { ip_at = update rd'.ip_at at none }), h)

  -- `rt_update_edges`, where an edge has a new source: its host is made, or wiped if the edge is newer.
  unfoldable pub new_source :
      Routing → (src : Ipv4Host) (ts_ms : ℕ) → Option (Turn × Routing × Scan)
  unfolding add_copy find_host_by_addr
  new_source rd src ts_ms = elim (find_host_by_addr rd src.mac) [
    | fault ↦ none
    | missing ↦ do
      (ret, rd', h) ← add_copy rd src
      some (
        if is_nonzero ret then ended (neg 1) else linked,
        rd',
        record { cur_ip_src = src; cur_host_src = some h; cont_to_new_src = false },
      )
    | found i ↦ do
      p ← get_elem? rd.hosts.items i
      h ← rd.host_at p
      let wiped : RtHost = record h { links = record h.links { ct = 0 } }
      some (
          if not (is_local h.type) && ltb h.l_max_ts_ms ts_ms
          then (
            linked,
            put_host rd p wiped,
            record { cur_ip_src = src; cur_host_src = some p; cont_to_new_src = false },
          )
          else (
            passed_over,
            rd,
            record { cur_ip_src = src; cur_host_src = some p; cont_to_new_src = true },
          ))
  ]

  -- The end of a round: the destination is found or made, and the link is added. Where making it
  -- fails, the pointer to it was never set.
  unfoldable pub add_edge :
      Routing → (src : Option ℕ) (dst : Ipv4Host) (rtt_us ts_ms : ℕ) → Option (ℤ × Routing)
  unfolding add_copy find_host_by_addr link_add
  add_edge rd src dst rtt_us ts_ms = do
    cur_host_src ← src
    (rd', dst_host) ← elim (find_host_by_addr rd dst.mac) [
      | fault ↦ none
      | missing ↦ do (ret, rd', h) ← add_copy rd dst; if is_nonzero ret then none else some (rd', h)
      | found i ↦ do h ← get_elem? rd.hosts.items i; some (rd, h)
    ]
    (ret, rd₂) ← link_add grants qs rd' cur_host_src dst_host rtt_us ts_ms
    some (if is_nonzero ret then neg 2 else pos 0, rd₂)

  -- The host whose links the edge joins, from the tests on the source on.
  unfoldable pub enter_source :
      Routing → Scan → (src : Ipv4Host) (ts_ms : ℕ) → Option (Turn × Routing × Scan)
  unfolding new_source same_mac
  enter_source rd sc src ts_ms =
      let same = same_mac src.mac sc.cur_ip_src.mac in
      let fresh = new_source rd src ts_ms in
      if sc.cont_to_new_src && same then some (passed_over, rd, sc) else elim sc.cur_host_src [
        | none ↦ fresh
        | some h ↦ if same then some (linked, rd, record sc { cont_to_new_src = false }) else fresh
      ]

  -- One round of the loop of `rt_update_edges`: the call's code if it ends here, else 0.
  unfoldable pub update_edge : Routing → Scan → PktEdge → Option (ℤ × Routing × Scan)
  unfolding enter_source add_edge same_mac ntohll pkt_ipv4_unpack
  update_edge rd sc e =
      let src = pkt_ipv4_unpack e.src in
      let dst = pkt_ipv4_unpack e.dst in
      let ts_ms = ntohll order e.ts_ms in
      if same_mac src.mac dst.mac then some (pos 0, rd, sc) else (do
        (turn, rd₁, sc₁) ← enter_source rd sc src ts_ms
        elim turn [
          | passed_over ↦ some (pos 0, rd₁, sc₁)
          | ended code ↦ some (code, rd₁, sc₁)
          | linked ↦ do
            (ret, rd₂) ← add_edge rd₁ sc₁.cur_host_src dst (order.ntohl e.rtt_us) ts_ms
            some (ret, rd₂, sc₁)
        ])

  unfoldable pub update_each : Routing → Scan → List PktEdge → Option (ℤ × Routing)
  unfolding update_edge with_cache
  update_each rd sc [] = with_cache (neg 5) rd
  update_each rd sc (e ∷ es) = do
    (ret, rd', sc') ← update_edge rd sc e
    let rest = update_each rd' sc' es
    if is_nonzero ret then some (ret, rd') else rest

  -- `rt_update_edges`, of the edges of a packet.
  unfoldable pub rt_update_edges : Routing → List PktEdge → Option (ℤ × Routing)
  unfolding update_each pkt_edges_cmp_src
  rt_update_edges rd edges =
      let no_ip : Ipv4Host = record { mac = []; sin_family = 0; s_addr = 0; sin_port = 0 } in
      update_each rd (record { cur_ip_src = no_ip; cur_host_src = none; cont_to_new_src = false })
        (qs.sort PktEdge pkt_edges_cmp_src edges)

  -- `rt_dhost_remove` once the link from the host `sh` is found, at the index `l`.
  unfoldable pub unlink_direct : Routing → (sh l h : ℕ) → Option (ℤ × Routing)
  unfolding link_remove with_cache
  unlink_direct rd sh l h = do
    host ← rd.host_at h
    ip ← rd.ip_at host.host
    let iph = rd.calls
    let demoted : Routing = record rd {
      host_at = update rd.host_at h (some (record host { host = iph; type = ht_normal }));
      ip_at = update rd.ip_at iph (some ip);
      calls = rd.calls + 1;
    }
    rd' ← link_remove demoted sh l
    let cached = with_cache (neg 2) rd'
    if is_direct host.type
        then if grants rd.calls then cached else some (neg 3, record rd { calls = rd.calls + 1 })
        else some (neg 5, rd)

  -- `rt_dhost_remove`
  unfoldable pub rt_dhost_remove : Routing → Mac → Option (ℤ × Routing)
  unfolding unlink_direct find_host_by_addr find_link_by_addr
  rt_dhost_remove rd dmac = elim (find_host_by_addr rd (mac_of rd rd.own)) [
    | fault ↦ none
    | missing ↦ some (neg 10, rd)
    | found i ↦ do
      sh ← get_elem? rd.hosts.items i
      s ← rd.host_at sh
      elim (find_link_by_addr rd s.links dmac) [
        | fault ↦ none
        | missing ↦ some (pos 1, rd)
        | found l ↦ do link ← get_elem? s.links.items l; unlink_direct rd sh l link.dst
      ]
  ]
