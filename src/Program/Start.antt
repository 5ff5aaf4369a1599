-- ===== src/Program/Start.antt =====
-- sock.c: `main` from its first call on, and the loop that accepts peers.
use p2p_vn.Base.{
  ℕ, Bool, true, false, Option, none, some, ◌>>=◌, List, [], ◌∷◌, ℤ, pos, neg, is_neg, is_nonzero,
  if◌then◌else◌,
}
use p2p_vn.Packet.{Ipv4Host}
use p2p_vn.Sorting.{Qsort}
use p2p_vn.Vnet.{
  Vnet, Device, Spawned, skipped, listening, failed, died, vnet_init, vnet_get_mac,
  vnet_spawn_listener,
}
use p2p_vn.Dpg.{Group, dpg_init}
use p2p_vn.Pcon.{pcon_init}
use p2p_vn.Routing.State.{Routing, rt_init, update}
use p2p_vn.Routing.Hosts.{rt_lhost_add}
use p2p_vn.Dpeer.World.{Node}

-- What `peer_listener_bind` comes to: the result, the socket that it hands out, and the sockets and
-- lists of addresses that are held after it.
pub record Binding : Type 0 where
  pub ret : ℤ
  pub fd : Option ℤ
  pub sockets : List ℤ
  pub lists : ℕ

-- `peer_listener_bind`, with the results of its calls.
unfoldable pub peer_listener_bind : (getaddrinfo socket bind listen : ℤ) → Binding
peer_listener_bind getaddrinfo socket bind listen =
    if is_nonzero getaddrinfo
    then record { ret = neg 1; fd = none; sockets = []; lists = 0 }
    else if is_neg socket
    then record { ret = neg 2; fd = none; sockets = []; lists = 1 }
    else if is_neg bind
    then record { ret = neg 3; fd = none; sockets = socket ∷ []; lists = 1 }
    else if is_neg listen
    then record { ret = neg 4; fd = none; sockets = socket ∷ []; lists = 1 }
    else record { ret = pos 0; fd = some socket; sockets = socket ∷ []; lists = 1 }

-- `peer_listener` on the connections that come in: those handed to a thread, and whether the program
-- died. `incoming` is the result of `dp_create_incoming`.
unfoldable pub peer_listener : (incoming : ℤ → ℤ) → (accepts : List ℤ) → List ℤ × Bool
peer_listener incoming [] = ([], false)
peer_listener incoming (con_fd ∷ accepts) =
    let (served, dead) = peer_listener incoming accepts in
    if is_neg con_fd
    then ([], true)
    else if is_nonzero (incoming con_fd)
    then ([], true)
    else (con_fd ∷ served, dead)

-- What the system does while the program starts.
pub record System : Type 0 where
  pub device : Device
  pub grants : ℕ → Bool
  pub dpg_lock : ℤ
  pub dpg_granted : Bool
  pub resolved : Option Ipv4Host
  pub rt_lock : ℤ
  pub pcon_granted : Bool
  pub pcon_lock : ℤ
  pub reader_granted : Bool
  pub attr_init : ℤ
  pub detach : ℤ
  pub create : ℤ
  pub bound : Binding

-- `DIE`, or the state of the program when it begins to listen.
pub data Begun : Type 0 where
  dead : Begun
  up : Node → Begun

-- The local host as `main` makes it.
unfoldable pub local_host : Vnet → Group → Ipv4Host
unfolding vnet_get_mac
local_host vnet dpg = record dpg.l_addr { mac = vnet_get_mac vnet }

-- Whether the listener of the device kept the program from going on.
abbrev pub is_down : Spawned → Bool
is_down skipped = false
is_down listening = false
is_down (failed ret) = true
is_down died = true

module _ (qs : Qsort) (y : System) where
  -- `rt_lhost_add` for the local host, which stands at the address `ip_host`, after `rt_init`.
  unfoldable pub add_local : (ip_host : ℕ) → Ipv4Host → ℤ × Routing → Option (ℤ × Routing)
  unfolding rt_lhost_add
  add_local ip_host me (ret, rd) =
      let known : Routing = record rd { ip_at = update rd.ip_at ip_host (some me) } in
      let added = rt_lhost_add y.grants qs known ip_host in
      if is_neg ret then some (ret, rd) else added

  unfoldable pub init_routing : (ip_host : ℕ) → Ipv4Host → Option (ℤ × Routing)
  unfolding rt_init add_local
  init_routing ip_host me = add_local ip_host me (rt_init y.grants y.rt_lock)

  -- `main` with the group made, up to `peer_listener`.
  unfoldable pub begin_with : (ip_host : ℕ) → Vnet → Group → Option Begun
  unfolding init_routing local_host pcon_init vnet_spawn_listener
  begin_with ip_host vnet dpg = do
    (ret, rd) ← init_routing ip_host (local_host vnet dpg)
    let (ret', pc) = pcon_init y.pcon_granted y.pcon_lock
    let reader = vnet_spawn_listener y.reader_granted y.attr_init y.detach y.create vnet
    let node : Node = record {
      rd = rd;
      dpg = dpg;
      pc = pc;
      vnet = vnet;
      sent = [];
      spawned = [];
      calls = 0;
    }
    some (
        if is_neg ret
        then dead
        else if is_neg ret'
        then dead
        else if is_down reader
        then dead
        else if is_nonzero y.bound.ret
        then dead
        else up node)

  -- `main` after the options, up to `peer_listener`; `none` is the use of a device that is not filled
  -- in, as a failure of `vnet_init` is not fatal. Nor is one of `dp_create_initial`, which starts the
  -- thread for the peer of the command line.
  unfoldable pub begin : (ip_host : ℕ) → Option Begun
  unfolding vnet_init dpg_init begin_with
  begin ip_host = do
    let (ret, dpg) = dpg_init y.dpg_lock y.dpg_granted y.resolved
    let ready = (do vnet ← (vnet_init y.device).made; g ← dpg; begin_with ip_host vnet g)
    if is_neg ret then some dead else ready
