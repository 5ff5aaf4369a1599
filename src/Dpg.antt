-- ===== src/Dpg.antt =====
-- dpg.c: the group of the directly connected peers, a sorted array with one entry for each Ethernet
-- address. An entry is a `dp_t *`: the address of the peer's structure, and the Ethernet address that
-- stands there, which does not change once the peer is in the group. The result of taking the lock is
-- an argument, and a memory fault is `none`.
pub mod Insert
pub mod Remove
mod Tests
use p2p_vn.Base.{
  ℕ, ◌+◌, Bool, Option, none, some, Ordering, ℤ, pos, neg, is_neg, if◌then◌else◌, List, [], ◌∷◌,
  ◌++◌,
}
use p2p_vn.Order.Bytes.{memcmp}
use p2p_vn.Packet.{Mac, Ipv4Host, PktEdge}
use p2p_vn.Sorting.{Qsort}
use p2p_vn.Search.{found, missing, fault}
use p2p_vn.DArray.{DArray, da_init, add_to_end, remove, live, sort_items}
use p2p_vn.DArray.Keyed.{find_in}

pub record Peer : Type 0 where
  pub dp : ℕ
  pub mac : Mac

-- `struct direct_peer_group`, less its lock.
pub record Group : Type 0 where
  pub dps : DArray Peer
  pub l_addr : Ipv4Host

unfoldable pub dp_cmp : Peer → Peer → Ordering
dp_cmp p q = memcmp p.mac q.mac

-- `dpg_init`; `resolved` is what `getaddrinfo` gives for the external host and port.
unfoldable pub dpg_init : (lock : ℤ) (granted : Bool) → Option Ipv4Host → ℤ × Option Group
unfolding da_init
dpg_init lock granted resolved =
    if is_neg lock
    then (neg 1, none)
    else let (failed, dps) = da_init granted 8 in
      if failed then (neg 2, none) else elim resolved [
        | none ↦ (neg 3, none)
        | some addr ↦ (pos 0, some (record { dps = dps; l_addr = addr }))
      ]

unfoldable pub dpg_insert : Qsort → (lock : ℤ) (granted : Bool) → Group → Peer → Option (ℤ × Group)
unfolding dp_cmp
dpg_insert qs lock granted g dp =
    if is_neg lock then some (neg 1, g) else elim (find_in (dp_cmp dp) g.dps) [
      | found i ↦ some (pos 1, g)
      | fault ↦ none
      | missing ↦
          let (failed, dps) = add_to_end granted g.dps dp in
          if failed
          then some (neg 2, record g { dps = dps })
          else some (pos 0, record g { dps = sort_items qs dp_cmp dps })
    ]

unfoldable pub dpg_remove : (lock : ℤ) → Group → Peer → Option (ℤ × Group)
unfolding dp_cmp
dpg_remove lock g dp = if is_neg lock then some (neg 1, g) else elim (find_in (dp_cmp dp) g.dps) [
  | found i ↦ some (pos 0, record g { dps = remove g.dps i })
  | fault ↦ none
  | missing ↦ some (neg 2, g)
]

-- The loop of `dpg_send_linkstate`.
unfoldable pub send_each : List PktEdge → List Peer → List (Peer × List PktEdge)
send_each edges [] = []
send_each edges (p ∷ ps) = (p, edges) ∷ send_each edges ps

-- `dpg_send_linkstate`: the peers to which the edges are sent, in order, with the result.
unfoldable pub dpg_send_linkstate :
    (lock : ℤ) → Group → List PktEdge → ℤ × List (Peer × List PktEdge)
unfolding send_each
dpg_send_linkstate lock g edges =
    if is_neg lock then (neg 1, []) else (pos 0, send_each edges (live g.dps))
