-- ===== src/Vnet/Tests.antt =====
-- Devices that are there and devices that are not.
use p2p_vn.Base.{◌≡◌, refl, arith, some, [], ◌∷◌, pos, neg, ◌*◌, ◌+◌}
use p2p_vn.Routing.Query.{ether_addr_is_mcast}
use p2p_vn.Vnet.{Device, fake, vnet_init, vnet_init_noperm}
use p2p_vn.Vnet.Made.{IsAddress, IsMade, vnet_init-IsMade}

-- The adaptor cannot be used.
abbrev refused : Device
refused = record {
  lock = pos 0;
  opened = pos 3;
  tun_set_iff = neg 1;
  get_hw_addr = pos 0;
  sa_data = 2 ∷ 0 ∷ 0 ∷ 0 ∷ 0 ∷ 1 ∷ [];
  random = λ n. 255 * n + 7 + n;
}

fallback :
    (vnet_init refused).made ≡ some (record { fd = neg 1; mac = 6 ∷ 8 ∷ 9 ∷ 10 ∷ 11 ∷ 12 ∷ [] })
unfolding vnet_init fake vnet_init_noperm
fallback = refl

adaptor-IsAddress : IsAddress refused.sa_data
unfolding ether_addr_is_mcast
adaptor-IsAddress = record {
  six = refl;
  bytes =
      (omega arith, (omega arith, (omega arith, (omega arith, (omega arith, (omega arith, tt))))));
  single = refl;
}

vnet_init-IsMade_example : IsMade (vnet_init refused)
vnet_init-IsMade_example = vnet_init-IsMade refused refl adaptor-IsAddress
