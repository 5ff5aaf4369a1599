-- ===== src/Vnet/Made.antt =====
-- The address of the device that `vnet_init` leaves.
use p2p_vn.Base.{
  ◌<◌, ◌≡◌, ◌⊎◌, inl, inr, refl, arith, true, false, Bool-cases, Option, none, some, ℤ, pos, is_neg,
  length, All,
}
use p2p_vn.Packet.{Mac}
use p2p_vn.Routing.Query.{ether_addr_is_mcast}
use p2p_vn.Vnet.{Vnet, Device, Setup, vnet_get_mac, vnet_init_noperm, fake, is_fake, vnet_init}

-- An Ethernet address of one host.
pub record IsAddress (mac : Mac) : Type 0 where
  pub six : length mac ≡ 6
  pub bytes : All (λ b. b < 256) mac
  pub single : ether_addr_is_mcast mac ≡ false

-- The device is there and its file is open, or it is not there and no file is open.
abbrev pub IsBacked : Vnet → Option ℤ → Type 0
IsBacked vn open_fd = (open_fd ≡ some vn.fd) ⊎ ((is_fake vn ≡ true) × (open_fd ≡ none))

-- The address is one of a single host.
abbrev pub IsMade : Setup → Type 0
IsMade m =
    (m.ret ≡ pos 0)
    × ((vn : Vnet) × (m.made ≡ some vn) × IsAddress (vnet_get_mac vn) × IsBacked vn m.open_fd)

fake-IsMade : (d : Device) → IsMade (fake d)
unfolding fake vnet_init_noperm vnet_get_mac is_fake ether_addr_is_mcast
fake-IsMade d =
    let address : IsAddress (vnet_get_mac (vnet_init_noperm d.random).1) = record {
      six = refl;
      bytes = (
        omega arith,
        (omega arith, (omega arith, (omega arith, (omega arith, (omega arith, tt))))),
      );
      single = ground arith;
    } in
    (refl, ((vnet_init_noperm d.random).1, refl, address, inr (refl, refl)))

-- With a lock made, and an adaptor whose address is that of a single host: `vnet_init` returns 0
-- and fills in a device that has six bytes for an address, each below 256, of a single host, and
-- either the file of the device is open, or the device is not there and no file is left open.
pub vnet_init-IsMade :
    (d : Device) → is_neg d.lock ≡ false → IsAddress d.sa_data → IsMade (vnet_init d)
unfolding vnet_init vnet_get_mac
vnet_init-IsMade d locked address = elim (Bool-cases (is_neg d.opened)) [
  | inl no_open ↦ rw (locked, no_open, vnet_init) (fake-IsMade d)
  | inr has_fd ↦ elim (Bool-cases (is_neg d.tun_set_iff)) [
    | inl no_tun ↦ rw (locked, has_fd, no_tun, vnet_init) (fake-IsMade d)
    | inr tun ↦ elim (Bool-cases (is_neg d.get_hw_addr)) [
      | inl no_addr ↦ rw (locked, has_fd, tun, no_addr, vnet_init) (fake-IsMade d)
      | inr addr ↦
          rw (locked, has_fd, tun, addr, vnet_init)
            (refl, (record { fd = d.opened; mac = d.sa_data }, refl, address, inl refl))
    ]
  ]
]
