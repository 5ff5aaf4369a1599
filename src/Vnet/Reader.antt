-- ===== src/Vnet/Reader.antt =====
-- vnet.c: the thread that reads packets from the device and sends them to the peers.
use p2p_vn.Base.{
  ℕ, ◌-◌, ◌^◌, Bool, false, Option, some, ◌>>=◌, List, ◌++◌, is_neg, if◌then◌else◌, length, drop,
}
use p2p_vn.Packet.Bytes.{read_bytes}
use p2p_vn.Routing.Query.{rt_dhosts_to_host, rt_hosts_free}
use p2p_vn.Vnet.{vnet_get_mac, vnet_recv}
use p2p_vn.Dpeer.World.{World, Node}
use p2p_vn.Dpeer.Packets.{send_each}

-- DATA_MAX_LEN
abbrev pub data_max_len : ℕ
data_max_len = 2 ^ 16 - 1

-- What the thread has: its buffer, in which older bytes stand behind a shorter packet.
pub record Reader : Type 0 where
  pub node : Node
  pub buffer : List ℕ
  pub running : Bool

module _ (w : World) where
  -- One turn of the loop of `vnet_reader_th`; `read` is what the device gives.
  unfoldable pub reader_turn : (read : ℕ → Option (List ℕ)) → Reader → Option Reader
  unfolding vnet_get_mac vnet_recv
  reader_turn read v = do
    let (r, packet) = vnet_recv read data_max_len
    let buffer = packet ++ drop (length packet) v.buffer
    let sent = (do
      (dst_mac, behind) ← read_bytes 6 buffer
      (hosts, rd) ← rt_dhosts_to_host w.grants v.node.rd (vnet_get_mac v.node.vnet) dst_mac
      let routed : Node = record v.node { rd = rd }
      let given = (do
        node ← send_each w packet routed hosts.addrs
        held ← rt_hosts_free hosts
        some (record v { node = node; buffer = buffer }))
      if is_neg hosts.code then some (record v { node = routed; buffer = buffer }) else given)
    if is_neg r then some (record v { running = false }) else sent
