-- ===== src/Vnet.antt =====
-- vnet.c: the virtual network device. The calls of the system are arguments, by their results.
mod Tests
pub mod Made
pub mod Reader
use p2p_vn.Base.{
  ℕ, ◌+◌, ◌*◌, ◌/◌, ◌%◌, Bool, false, Option, none, some, List, [], ◌∷◌, ℤ, pos, negsuc, neg,
  is_neg, is_nonzero, ◌==◌, if◌then◌else◌, length, take,
}
use p2p_vn.Packet.{Mac}

-- `struct virtual_net_interface`, less its lock and its name; `fd` is -1 for a device that is not there.
pub record Vnet : Type 0 where
  pub fd : ℤ
  pub mac : Mac

-- `vnet_get_mac`
unfoldable pub vnet_get_mac : Vnet → Mac
vnet_get_mac vn = vn.mac

-- `vnet_init_noperm`, with the results of its calls of `random`. The mask 0xFE clears the lowest bit
-- of a byte.
unfoldable pub vnet_init_noperm : (random : ℕ → ℕ) → ℤ × Vnet
vnet_init_noperm random = (
  pos 0,
  record {
    fd = neg 1;
    mac =
        random 0 % 255 / 2 * 2
        ∷ random 1 % 255
        ∷ random 2 % 255
        ∷ random 3 % 255
        ∷ random 4 % 255
        ∷ random 5 % 255
        ∷ [];
  },
)

-- What the system does in `vnet_init`: the result of `pthread_mutex_init`, the results of `open` and of
-- the two calls of `ioctl`, the address of the adaptor, and the results of `random`.
pub record Device : Type 0 where
  pub lock : ℤ
  pub opened : ℤ
  pub tun_set_iff : ℤ
  pub get_hw_addr : ℤ
  pub sa_data : Mac
  pub random : ℕ → ℕ

-- The result and the device, if it was filled in, with the file that is open after the call.
pub record Setup : Type 0 where
  pub ret : ℤ
  pub made : Option Vnet
  pub open_fd : Option ℤ

-- The fallback on a device that is not there; every file was closed before.
unfoldable pub fake : Device → Setup
unfolding vnet_init_noperm
fake d =
    let (ret, vn) = vnet_init_noperm d.random in
    record { ret = ret; made = some vn; open_fd = none }

-- `vnet_init`
unfoldable pub vnet_init : Device → Setup
unfolding fake
vnet_init d =
    if is_neg d.lock
    then record { ret = d.lock; made = none; open_fd = none }
    else if is_neg d.opened
    then fake d
    else if is_neg d.tun_set_iff
    then fake d
    else if is_neg d.get_hw_addr
    then fake d
    else record {
      ret = pos 0;
      made = some (record { fd = d.opened; mac = d.sa_data });
      open_fd = some d.opened;
    }

-- `fd == -1`
unfoldable pub is_fake : Vnet → Bool
is_fake vn = elim vn.fd [ pos n ↦ false | negsuc n ↦ n == 0 ]

-- `vnet_send`: the result and what is written; `written` is what `write` returns for a length.
unfoldable pub vnet_send : (written : ℕ → Option ℕ) → Vnet → List ℕ → ℤ × List ℕ
unfolding is_fake
vnet_send written nd packet =
    let real : ℤ × List ℕ = elim (written (length packet)) [
      | none ↦ (neg 1, [])
      | some w ↦ (if w == length packet then pos 0 else neg 1, take w packet)
    ] in
    if is_fake nd then (pos 0, []) else real

-- `vnet_recv`: the result and the packet; `read` gives at most as many bytes as it is asked for.
unfoldable pub vnet_recv : (read : ℕ → Option (List ℕ)) → (nbyte : ℕ) → ℤ × List ℕ
vnet_recv read nbyte = elim (read nbyte) [ none ↦ (neg 1, []) | some packet ↦ (pos 0, packet) ]

-- `vnet_get_mtu`: the result and whether the socket that it opens is closed; `ioctl` gives the MTU.
unfoldable pub vnet_get_mtu : (socket ioctl : ℤ) (mtu : ℤ) → ℤ × Option ℤ
vnet_get_mtu socket ioctl mtu =
    if is_neg socket then (neg 1, none) else if is_neg ioctl then (neg 2, none) else (mtu, none)

-- How `vnet_spawn_listener` ends; `died` is the end of the program.
pub data Spawned : Type 0 where
  skipped : Spawned
  listening : Spawned
  failed : ℤ → Spawned
  died : Spawned

-- `vnet_spawn_listener`, with the results of the calls for the attributes and of `pthread_create`.
unfoldable pub vnet_spawn_listener : (granted : Bool) (attr_init detach create : ℤ) → Vnet → Spawned
unfolding is_fake
vnet_spawn_listener granted attr_init detach create vnet =
    let spawned : Spawned =
      if is_neg attr_init
      then failed (neg 3)
      else if is_neg detach
      then failed (neg 2)
      else if is_nonzero create
      then died
      else listening in
    if is_fake vnet then skipped else if granted then spawned else failed (neg 1)
