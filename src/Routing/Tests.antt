-- ===== src/Routing/Tests.antt =====
-- Runs of the routing calls on a state of three hosts.
use p2p_vn.Base.{
  ℕ, replicate, ◌*◌, ◌^◌, ◌≡◌, refl, arith, true, none, some, List, [], ◌∷◌, ◌++◌, pos, get_elem?,
  length, ◌==◌, if◌then◌else◌,
}
use p2p_vn.Order.Bytes.{memcmp}
use p2p_vn.Packet.{Ipv4Host, PktEdge, ByteOrder, htonll, pkt_ipv4_pack}
use p2p_vn.Search.{bsearch, bsearch_loop}
use p2p_vn.DArray.{live, add_to_end, check_and_realloc, store, remove}
use p2p_vn.DArray.Keyed.{find_in}
use p2p_vn.DArray.Laws.{IsArray}
use p2p_vn.Routing.State.{Routing, RtHost, RtLink, HostType, ht_local, ht_normal, update, blank}
use p2p_vn.Routing.Hosts.{find_link_by_addr, link_remove}
use p2p_vn.Routing.Trim.{free_host, host_remove, unlink_all, cut_host, trim_host}
use p2p_vn.Routing.Cache.{edge_of, export_links, export_hosts, update_exported_edges}
use p2p_vn.Routing.Query.{rt_get_edges}
use p2p_vn.Routing.Outside.{export_links-outside}
use p2p_vn.Routing.Exported.{update_exported_edges-keeps}
use p2p_vn.Paths.{next_discon}
use p2p_vn.Forward.{unicast}
use p2p_vn.Routing.Hosts.{find_host_by_addr}
use p2p_vn.Routing.Query.{
  give, ether_addr_is_mcast, addr_at, unicast_answer, route, rt_dhosts_to_host,
}
use p2p_vn.Routing.Locked.{IsSettled, rt_dhosts_to_host-IsSettled}
use p2p_vn.Routing.Dangling.{trim_host_frees_next}

abbrev pub address : ℕ → Ipv4Host
address m = record { mac = 2 ∷ 0 ∷ 0 ∷ 0 ∷ 0 ∷ m ∷ []; sin_family = 2; s_addr = m; sin_port = 9004 }

abbrev host : ℕ → HostType → List RtLink → RtHost
host ip type links = record {
  host = ip;
  type = type;
  l_max_ts_ms = 0;
  links = record { ct = length links; mem = 8; items = links };
}

-- The local host has a link to the second host, and an edge is already exported.
abbrev old_edge : PktEdge
old_edge = record {
  src = record { ip = 1; port = 9004; mac = [] };
  dst = record { ip = 7; port = 9004; mac = [] };
  rtt_us = 40;
  ts_ms = 3;
}

abbrev three : Routing
three = record blank {
  hosts = record { ct = 3; mem = 8; items = 10 ∷ 11 ∷ 12 ∷ [] };
  own = 10;
  m_ct = 3;
  tables = record {
    path = (1 ∷ 30 ∷ 0 ∷ []) ∷ ((0 ∷ 1 ∷ 0 ∷ []) ∷ ((0 ∷ 0 ∷ 1 ∷ []) ∷ []));
    next = replicate 3 (replicate 3 next_discon);
  };
  edges = record { ct = 1; mem = 8; items = old_edge ∷ [] };
  host_at = λ p.
      if p == 10
      then some (host 20 ht_local (record { dst = 11; rtt_us = 30; ts_ms = 5 } ∷ []))
      else if p == 11
      then some (host 21 ht_normal [])
      else if p == 12
      then some (host 22 ht_normal [])
      else none;
  ip_at = λ p.
      if p == 20 then some (address 1) else if p == 21 then some (address 2) else some (address 3);
  calls = 100;
}

abbrev pub network_order : ByteOrder
network_order = record {
  htonl = λ x. x;
  ntohl = λ x. x;
  htons = λ x. x;
  ntohs = λ x. x;
  htonl_lt = λ x h. h;
  ntohl_lt = λ x h. h;
  htons_lt = λ x h. h;
  ntohl-htonl = λ x h. refl;
  ntohs-htons = λ x h. refl;
}

three-IsArray : IsArray three.hosts
three-IsArray = record { written = omega arith; fits = omega arith; room = omega arith }

-- The state after the second host is trimmed: the link to it and the structure of the third are gone.
abbrev trimmed : Routing
trimmed = record three {
  hosts = remove three.hosts 1;
  host_at =
      update
        (update three.host_at 10 (
          some (record (host 20 ht_local []) {
            links =
                remove
                  (record {
                    ct = 1;
                    mem = 8;
                    items = record { dst = 11; rtt_us = 30; ts_ms = 5 } ∷ [];
                  })
                  0;
          })))
        12 none;
  ip_at = update three.ip_at 22 none;
}

run : trim_host three 1 ≡ some trimmed
unfolding trim_host cut_host unlink_all link_remove find_link_by_addr find_in bsearch bsearch_loop
    memcmp host_remove free_host remove
run = refl

trim_host_frees_next_example :
    (get_elem? (live trimmed.hosts) 1 ≡ some 12) × (trimmed.host_at 12 ≡ none)
trim_host_frees_next_example =
    trim_host_frees_next three trimmed 1 11 12 (host 21 ht_normal []) three-IsArray (omega arith)
      refl refl refl refl run

abbrev exported : Routing
exported = record three {
  edges = record {
    ct = 2;
    mem = 8;
    items =
        old_edge
        ∷ record {
          src = record { ip = 1; port = 9004; mac = 2 ∷ 0 ∷ 0 ∷ 0 ∷ 0 ∷ 1 ∷ [] };
          dst = record { ip = 2; port = 9004; mac = 2 ∷ 0 ∷ 0 ∷ 0 ∷ 0 ∷ 2 ∷ [] };
          rtt_us = 30;
          ts_ms = 5 * 2 ^ 32;
        }
        ∷ [];
  };
  calls = 101;
}

export_run : update_exported_edges (λ c. true) network_order three ≡ some (pos 0, exported)
unfolding update_exported_edges export_hosts export_links edge_of add_to_end check_and_realloc store
    pkt_ipv4_pack htonll
export_run = refl

update_exported_edges-keeps_example :
    (new : List PktEdge) × (rt_get_edges exported ≡ rt_get_edges three ++ new)
update_exported_edges-keeps_example =
    update_exported_edges-keeps (λ c. true) network_order three exported (pos 0) (omega arith)
      export_run

-- Two links to the second host, in a network of one row and one cell.
abbrev twice : List RtLink
twice =
    record { dst = 11; rtt_us = 30; ts_ms = 5 } ∷ record { dst = 11; rtt_us = 31; ts_ms = 6 } ∷ []

abbrev one_cell : Routing
one_cell = record three { tables = record { path = (1 ∷ []) ∷ []; next = (7 ∷ []) ∷ [] } }

export_links-outside_example :
    export_links
      (λ c. true)
      network_order
      one_cell
      0
      0
      (record { ip = 1; port = 9004; mac = (address 1).mac })
      twice
    ≡ none
export_links-outside_example =
    export_links-outside (λ c. true) network_order (λ n. refl) 0 (1 ∷ [])
      (record { ip = 1; port = 9004; mac = (address 1).mac }) twice 0 one_cell refl (omega arith)
      (omega arith)

sent :
    rt_dhosts_to_host (λ c. true) three (address 1).mac (address 2).mac
    ≡ some (give (21 ∷ []), three)
unfolding rt_dhosts_to_host route unicast_answer unicast addr_at ether_addr_is_mcast
    find_host_by_addr find_in bsearch bsearch_loop memcmp
sent = refl

rt_dhosts_to_host-IsSettled_example : IsSettled (give (21 ∷ []))
rt_dhosts_to_host-IsSettled_example =
    rt_dhosts_to_host-IsSettled (λ c. true) three three (address 1).mac (address 2).mac
      (give (21 ∷ [])) sent
