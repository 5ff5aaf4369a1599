-- ===== src/Routing/Hosts.antt =====
-- routing.c: finding, making and adding hosts and links.
use p2p_vn.Base.{
  ℕ, zero, ◌+◌, Bool, Option, none, some, Ordering, ℤ, pos, negsuc, neg, is_nonzero, ltb,
  if◌then◌else◌,
}
use p2p_vn.Order.Bytes.{memcmp}
use p2p_vn.Packet.{Mac}
use p2p_vn.Sorting.{Qsort}
use p2p_vn.Search.{Search, found, missing, fault}
use p2p_vn.DArray.{DArray, da_init, add_to_end, remove, sort_items}
use p2p_vn.DArray.Keyed.{find_in}
use p2p_vn.Routing.State.{
  Routing, RtLink, HostType, ht_local, ht_direct, ht_normal, update, ◌>>=◌, mac_of, put_host,
}

-- `host_cmp_addr`, on two pointers.
unfoldable pub host_cmp_addr : Routing → ℕ → ℕ → Ordering
host_cmp_addr rd p q = memcmp (mac_of rd p) (mac_of rd q)

-- `link_cmp_addr`
unfoldable pub link_cmp_addr : Routing → RtLink → RtLink → Ordering
link_cmp_addr rd l m = memcmp (mac_of rd l.dst) (mac_of rd m.dst)

-- `find_host_by_addr`: the index in `hosts`, which is also `host_to_index` of the result.
unfoldable pub find_host_by_addr : Routing → Mac → Search
find_host_by_addr rd mac = find_in (λ p. memcmp mac (mac_of rd p)) rd.hosts

-- `find_link_by_addr`: the index in the links of a host.
unfoldable pub find_link_by_addr : Routing → DArray RtLink → Mac → Search
find_link_by_addr rd links dst_mac =
    find_in (λ (l : RtLink). memcmp dst_mac (mac_of rd l.dst)) links

module _ (grants : ℕ → Bool) where
  -- `host_alloc`: the result, and the pointer if it is 0. A host that is direct or local shares the
  -- caller's `ipv4_host`, any other has a copy. The three allocations are those of the host, of its
  -- links and of the copy.
  unfoldable pub host_alloc : Routing → (ip_host : ℕ) → HostType → Option (ℤ × Routing × ℕ)
  host_alloc rd ip_host type = do
    let h = rd.calls
    let links : DArray RtLink = (da_init (grants (h + 1)) 8).1
    ip ← rd.ip_at ip_host
    let shared : Routing = record rd {
      host_at =
          update rd.host_at h
            (some (record { host = ip_host; type = type; l_max_ts_ms = 0; links = links }));
      calls = h + 2;
    }
    let copied : Routing = record rd {
      host_at =
          update rd.host_at h
            (some (record { host = h + 2; type = type; l_max_ts_ms = 0; links = links }));
      ip_at = update rd.ip_at (h + 2) (some ip);
      calls = h + 3;
    }
    some (
        if grants h
        then if grants (h + 1)
          then elim type [
            | ht_normal ↦
                if grants (h + 2)
                then (pos 0, copied, h)
                else (neg 4, record rd { calls = h + 3 }, h)
            | _ ↦ (pos 0, shared, h)
          ]
          else (neg 1, record rd { calls = h + 2 }, h)
        else (neg 1, record rd { calls = h + 1 }, h))

module _ (grants : ℕ → Bool) (qs : Qsort) where
  -- `link_add`
  unfoldable pub link_add : Routing → (src dst rtt_us ts_ms : ℕ) → Option (ℤ × Routing)
  link_add rd src dst rtt_us ts_ms = do
    s ← rd.host_at src
    let (failed, grown) =
        add_to_end (grants rd.calls) s.links (record { dst = dst; ts_ms = ts_ms; rtt_us = rtt_us })
    let ticked : Routing = record rd { calls = rd.calls + 1 }
    let newest = if ltb s.l_max_ts_ms ts_ms then ts_ms else s.l_max_ts_ms
    some (
        if failed then (neg 1, put_host ticked src (record s { links = grown })) else (
          pos 0,
          put_host ticked src
              (record s { links = sort_items qs (link_cmp_addr rd) grown; l_max_ts_ms = newest }),
        ))

  -- `host_insert_unchecked`
  unfoldable pub host_insert_unchecked : Routing → (new_host : ℕ) → ℤ × Routing
  host_insert_unchecked rd new_host =
      let (failed, grown) = add_to_end (grants rd.calls) rd.hosts new_host in
      let ticked : Routing = record rd { calls = rd.calls + 1 } in
      if failed
      then (neg 1, record ticked { hosts = grown })
      else (pos 0, record ticked { hosts = sort_items qs (host_cmp_addr rd) grown })

  -- `free(nh)`, and of its links.
  abbrev drop_host : Routing → ℕ → Routing
  drop_host rd nh = record rd { host_at = update rd.host_at nh none }

  -- `host_add`: the result, and `*res` if it is 0.
  unfoldable pub host_add : Routing → (ip_host : ℕ) → HostType → Option (ℤ × Routing × ℕ)
  unfolding find_host_by_addr
  host_add rd ip_host type = do
    ip ← rd.ip_at ip_host
    elim (find_host_by_addr rd ip.mac) [
      | fault ↦ none
      | found i ↦ some (pos 1, rd, 0)
      | missing ↦ do
        (ret, made, nh) ← host_alloc grants rd ip_host type
        let (inserted, rd') = host_insert_unchecked made nh
        some (elim ret [
          | pos zero ↦ elim inserted [
            | pos _ ↦ (pos 0, rd', nh)
            | negsuc n ↦ (negsuc n, drop_host rd' nh, nh)
          ]
          | _ ↦ (neg 3, made, nh)
        ])
    ]

  -- `host_insert`
  unfoldable pub host_insert : Routing → (new_host : ℕ) → Option (ℤ × Routing)
  unfolding host_insert_unchecked host_cmp_addr
  host_insert rd new_host = elim (find_in (host_cmp_addr rd new_host) rd.hosts) [
    | fault ↦ none
    | found i ↦ some (pos 1, rd)
    | missing ↦ some (host_insert_unchecked rd new_host)
  ]

  -- `rt_lhost_add`
  unfoldable pub rt_lhost_add : Routing → (ip_host : ℕ) → Option (ℤ × Routing)
  unfolding host_add
  rt_lhost_add rd ip_host = do
    (p, rd', h) ← host_add rd ip_host ht_local
    some (if is_nonzero p then (p, rd') else (p, record rd' { own = h }))

-- `ihost_to_dhost`
unfoldable pub ihost_to_dhost : Routing → (host ip_host : ℕ) → Option Routing
ihost_to_dhost rd host ip_host = do
  h ← rd.host_at host
  some (elim h.type [
    | ht_normal ↦ record rd {
      ip_at = update rd.ip_at h.host none;
      host_at = update rd.host_at host (some (record h { host = ip_host; type = ht_direct }));
    }
    | _ ↦ rd
  ])

-- `link_remove`, of the link at an index.
unfoldable pub link_remove : Routing → (src link : ℕ) → Option Routing
link_remove rd src link = do
  s ← rd.host_at src
  some (put_host rd src (record s { links = remove s.links link }))
