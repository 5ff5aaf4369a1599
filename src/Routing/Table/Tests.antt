-- ===== src/Routing/Table/Tests.antt =====
-- Memory in order with the local host and the address of a peer, and the calls on it.

use p2p_vn.Base.{
  ℕ, suc, ◌+◌, ◌∙◌, neg, ◌^◌, ◌<◌, ◌≡◌, inl, inr, refl, arith, true, some, none, pos, [], ◌∷◌, All,
  ◌==◌, if◌then◌else◌, Bool-cases, ==→eq, ==→ne, subst, sym, get_or, ap, ◌≢◌,
}
use p2p_vn.Order.Bytes.{memcmp}
use p2p_vn.Sorting.Insertion.{insertion}
use p2p_vn.Paths.{tables_of}
use p2p_vn.Paths.Seed.{IsLink}
use p2p_vn.DArray.{live}
use p2p_vn.Routing.Tests.{address, network_order}
use p2p_vn.Routing.State.{Routing, RtHost, RtLink, ht_local, ht_direct, blank, mac_of}
use p2p_vn.Routing.Hosts.{find_host_by_addr, host_cmp_addr, rt_lhost_add}
use p2p_vn.Routing.Update.{with_cache}
use p2p_vn.Routing.Query.{Answer, rt_dhosts_to_host}
use p2p_vn.Routing.Table.{Alive, Keeps, Fit}
use p2p_vn.Routing.Table.Changed.{inserted-ct, update-cases, replaced, replaced-Step}
use p2p_vn.Routing.Table.Recorded.{recorded-Fit, owned-Fit}
use p2p_vn.Routing.Table.Joined.{made, new_host, joined, Joins, joined-Step}
use p2p_vn.Routing.Table.Indexed.{IsFilled}
use p2p_vn.Routing.Table.Calls.{IsPeerIp}
use p2p_vn.Routing.Table.Untrimmed.{with_cache-Filled}
use p2p_vn.Routing.Table.Filled.{IsShort, exported_hosts}
use p2p_vn.Routing.Table.Described.{Describes}
use mathlib.Core.List.{Memᴰ}
use p2p_vn.Routing.Table.Answered.{IsNeighbour, rt_dhosts_to_host-IsNeighbour}
use p2p_vn.Search.{found}
use p2p_vn.DArray.{add_to_end, check_and_realloc, store, sort_items}
use p2p_vn.Sorting.Insertion.{sort_by, insert_by}
use p2p_vn.Routing.Cache.{indexed_hosts, indexed_links}
use p2p_vn.Routing.Table.Settled.{rt_lhost_add-Alive}

-- The local host's address stands at 0, a peer's at 1.
abbrev start : Routing
start = record blank {
  hosts = record { ct = 0; mem = 8; items = [] };
  edges = record { ct = 0; mem = 8; items = [] };
  ip_at = λ p. if p == 0 then some (address 1) else if p == 1 then some (address 2) else none;
  calls = 2;
}

start-Fit : (more : ℕ) → more < 2 ^ 60 → Fit more start
start-Fit more lt = record {
  table = record {
    keyed = record {
      array = record { written = omega arith; fits = omega arith; room = omega arith };
      sorted = tt;
    };
    alive = tt;
    each = λ p h e. cc;
    whole = λ p h e. cc;
    unused = λ p le. refl;
    old = λ p h e. cc;
    copies = λ p q h k e f t s. cc;
  };
  room = record {
    hosts = record { ct_lt = omega arith; mem_lt = omega arith };
    links = λ p h e. cc;
  };
}

start_ip : IsPeerIp start 0 (address 1)
start_ip = record { stands = refl; below = omega arith; no_copy = λ p h e t. cc }

rt_lhost_add-Alive_example :
    (out : Routing) × (rt_lhost_add (λ n. true) insertion start 0 ≡ some (pos 0, out))
    × Fit 4 out
    × Keeps start out
    × Alive out out.own
rt_lhost_add-Alive_example =
    rt_lhost_add-Alive (λ n. true) insertion network_order (λ n. refl) 4 start 0 (address 1)
      (start-Fit 5 (omega arith)) start_ip tt

-- The local host is in the array, and the tables are of one host.
abbrev alone : Routing
alone = record (joined insertion start 0 ht_local (address 1) start.ip_at 4) {
  m_ct = 1;
  tables = tables_of ([] ∷ []);
  own = 2;
}

start-Joins : Joins insertion start 0 ht_local (address 1) start.ip_at 4
start-Joins = record {
  later = omega arith;
  below = omega arith;
  stands = refl;
  same = λ p h e. refl;
  fresh = tt;
  copy = λ t. cc;
  no_copy = λ p h e t. cc;
}

alone-Fit : (more : ℕ) → suc more < 2 ^ 60 → Fit more alone
alone-Fit more lt =
    let step =
      joined-Step insertion start 0 ht_local (address 1) start.ip_at 4 more start-Joins
        (start-Fit (suc more) lt) in
    let first =
      recorded-Fit more (joined insertion start 0 ht_local (address 1) start.ip_at 4) 1 5
        (tables_of ([] ∷ [])) start.edges (omega arith) step.fit in
    (owned-Fit more _ 2 first.0).0

alone-one : alone.hosts.ct ≡ 1
alone-one =
    inserted-ct insertion
      (host_cmp_addr (made insertion start 0 ht_local (address 1) start.ip_at 4)) start.hosts 2

alone-own : Memᴰ alone.own (live alone.hosts)
alone-own = (alone-Fit 0 (omega arith)).table.whole 2 (new_host 0 ht_local) refl

peer_ip : IsPeerIp alone 1 (address 2)
peer_ip = record {
  stands = refl;
  below = omega arith;
  no_copy = λ p h e t. elim (update-cases start.host_at 2 p (new_host 0 ht_local) h e) [
    | inl (at, same) ↦ cc
    | inr (ne, f) ↦ cc
  ];
}

peer_ne : (address 2).mac ≢ mac_of alone alone.own
peer_ne e =
    let two : ℕ = 2 in
    let one : ℕ = 1 in let f : two ≡ one = ap (λ m. get_or m 5 0) e in omega (arith, f)

-- The peer has joined, and the local host has a link to it.
abbrev two : Routing
two = joined insertion alone 1 ht_direct (address 2) alone.ip_at 7

only_local : (p : ℕ) (h : RtHost) → alone.host_at p ≡ some h → (p ≡ 2) × (new_host 0 ht_local ≡ h)
only_local p h e = elim (update-cases start.host_at 2 p (new_host 0 ht_local) h e) [
  | inl at ↦ at
  | inr (ne, f) ↦ cc
]

two-Joins : Joins insertion alone 1 ht_direct (address 2) alone.ip_at 7
unfolding sort_items add_to_end check_and_realloc store sort_by insert_by memcmp
two-Joins = record {
  later = omega arith;
  below = omega arith;
  stands = refl;
  same = λ p h e. refl;
  fresh = (λ e. cc, tt);
  copy = λ t. cc;
  no_copy = peer_ip.no_copy;
}

two-Fit : (more : ℕ) → suc (suc more) < 2 ^ 60 → Fit more two
two-Fit more lt =
    (joined-Step insertion alone 1 ht_direct (address 2) alone.ip_at 7 more two-Joins
      (alone-Fit (suc more) lt)).fit

abbrev link : RtLink
link = record { dst = 5; rtt_us = 300; ts_ms = 9 }

abbrev with_link : RtHost
with_link = record (new_host 0 ht_local) { links = record { ct = 1; mem = 8; items = link ∷ [] } }

abbrev linked : Routing
linked = replaced two 2 8 (new_host 0 ht_local) with_link refl refl refl (omega arith)

linked-Fit : (more : ℕ) → suc (suc (suc more)) < 2 ^ 60 → Fit more linked
linked-Fit more lt =
    let f = two-Fit more (omega arith) in
    (replaced-Step two 2 8 (new_host 0 ht_local) with_link refl refl refl (omega arith) more f
      (record {
        self = (f.table.each 2 (new_host 0 ht_local) refl).self;
        array = record { written = omega arith; fits = omega arith; room = omega arith };
        dsts = (
          record {
            alive = (f.table.each 5 (new_host 1 ht_direct) refl).self;
            other = peer_ne;
            narrow = omega arith;
          },
          tt,
        );
      })
      (record { ct_lt = omega arith; mem_lt = omega arith })).fit

linked-two : linked.hosts.ct ≡ 2
linked-two =
    inserted-ct insertion
      (host_cmp_addr (made insertion alone 1 ht_direct (address 2) alone.ip_at 7)) alone.hosts 5
    ∙ ap (λ n. n + 1) alone-one

linked-IsShort : IsShort linked.hosts.ct linked
linked-IsShort p h e = elim (update-cases two.host_at 2 p with_link h e) [
  | inl (at, same) ↦
      let one = ap (λ (x : RtHost). x.links.ct) same in omega (arith, linked-two, one)
  | inr (ne, f) ↦ elim (update-cases alone.host_at 5 p (new_host 1 ht_direct) h f) [
    | inl (at, same) ↦ let no = ap (λ (x : RtHost). x.links.ct) same in omega (arith, no)
    | inr (ne', g) ↦
        let no = ap (λ (x : RtHost). x.links.ct) (only_local p h g).1 in omega (arith, no)
  ]
]

with_cache-Filled_example :
    (rd' : Routing) × (with_cache (λ n. true) insertion network_order (neg 5) linked
      ≡ some (pos 0, rd'))
    × (Fit 1 rd' × Keeps linked rd')
    × ((filled : IsFilled rd') × Describes rd' (live rd'.hosts) filled.hosts)
    × (rd'.own ≡ linked.own)
    × (rd'.edges.ct ≡ linked.edges.ct + exported_hosts linked rd'.tables 0 (live linked.hosts))
with_cache-Filled_example =
    let f = linked-Fit 1 (omega arith) in
    with_cache-Filled linked f.table (omega (arith, linked-two)) (f.table.whole 2 with_link refl)
      (λ n. true) insertion network_order (λ n. refl) 1 (neg 5) f refl linked-IsShort
      (inl (λ e. absurd (omega (arith, linked-two))))

alone-IsFilled : IsFilled alone
unfolding indexed_hosts indexed_links sort_items add_to_end check_and_realloc store sort_by
    insert_by
alone-IsFilled = record {
  hosts = [] ∷ [];
  indexed = refl;
  len = omega arith;
  net = λ i lt. elim (Bool-cases (i == 0)) [
    | inl e ↦ subst (λ j. All (IsLink 1 j) (get_or ([] ∷ []) j [])) (sym (==→eq i 0 e)) tt
    | inr e ↦ let ne = ==→ne i 0 e in absurd (omega arith)
  ];
  count = refl;
  tables = refl;
}

rt_dhosts_to_host-IsNeighbour_example :
    (cur : ℕ) × (a : Answer) × (find_host_by_addr alone (mac_of alone alone.own) ≡ found cur)
    × (rt_dhosts_to_host (λ n. true) alone (address 1).mac (1 ∷ []) ≡ some (a, alone))
    × All (IsNeighbour alone alone-IsFilled.hosts cur) a.addrs
rt_dhosts_to_host-IsNeighbour_example =
    rt_dhosts_to_host-IsNeighbour (λ n. true) alone alone-IsFilled (address 1).mac (1 ∷ [])
      (λ n. refl) (alone-Fit 0 (omega arith)).table (omega (arith, alone-one)) alone-own (λ e. cc)
