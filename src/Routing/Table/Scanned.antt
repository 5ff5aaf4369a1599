-- ===== src/Routing/Table/Scanned.antt =====
-- routing.c: what `rt_update_edges` keeps between two edges.
use p2p_vn.Base.{
  ℕ, ◌≡◌, ◌≢◌, inl, inr, refl, sym, ap, subst, ◌∙◌, arith, Bool, true, false, ◌&&◌, some, Ordering,
  Ordering-cases,
}
use p2p_vn.Packet.{Mac, Ipv4Host}
use p2p_vn.Order.Bytes.{memcmp, memcmp→eq, memcmp_self}
use p2p_vn.Routing.State.{Routing, mac_of}
use p2p_vn.Routing.Update.{same_mac, Scan}
use p2p_vn.Routing.Table.{Alive, Keeps}

-- The host that the scan stands at is allocated, and has the address of the edge before; where the
-- scan passes over edges, it stands at one.
pub record IsScan (rd : Routing) (sc : Scan) : Type 0 where
  pub alive : (h : ℕ) → sc.cur_host_src ≡ some h → Alive rd h
  pub mac : (h : ℕ) → sc.cur_host_src ≡ some h → mac_of rd h ≡ sc.cur_ip_src.mac
  pub stands : sc.cont_to_new_src ≡ true → (h : ℕ) × (sc.cur_host_src ≡ some h)

pub IsScan-Keeps : (rd rd' : Routing) (sc : Scan) → Keeps rd rd' → IsScan rd sc → IsScan rd' sc
IsScan-Keeps rd rd' sc k v = record {
  alive = λ h e. k.alive h (v.alive h e);
  mac = λ h e. k.mac h (v.alive h e) ∙ v.mac h e;
  stands = v.stands;
}

-- A host that is allocated has the address.
pub record Known (rd : Routing) (mac : Mac) : Type 0 where
  pub at : ℕ
  pub alive : Alive rd at
  pub same : mac_of rd at ≡ mac

pub Known-Keeps : (rd rd' : Routing) (mac : Mac) → Keeps rd rd' → Known rd mac → Known rd' mac
Known-Keeps rd rd' mac k v = record {
  at = v.at;
  alive = k.alive v.at v.alive;
  same = k.mac v.at v.alive ∙ v.same;
}

-- A scan that stands at a host of the address.
pub IsScan-at :
    (rd : Routing) (src : Ipv4Host) (p : ℕ) (cont : Bool)
    → Alive rd p
    → mac_of rd p ≡ src.mac
    → IsScan rd (record { cur_ip_src = src; cur_host_src = some p; cont_to_new_src = cont })
IsScan-at rd src p cont a e = record {
  alive = λ h q. subst (Alive rd) (ground (arith, q)) a;
  mac = λ h q. subst (λ x. mac_of rd x ≡ src.mac) (ground (arith, q)) e;
  stands = λ c. (p, refl);
}

pub and_true : (a b : Bool) → (a && b) ≡ true → (a ≡ true) × (b ≡ true)
and_true true b e = (refl, e)
and_true false b e = cc

pub same_mac_ne : (a b : Mac) → same_mac a b ≡ false → a ≢ b
unfolding same_mac
same_mac_ne a b e q =
    let same : memcmp a b ≡ Ordering.eq = ap (memcmp a) (sym q) ∙ memcmp_self a in
    cc (rw (same, same_mac) at e)

pub same_mac→eq : (a b : Mac) → same_mac a b ≡ true → a ≡ b
unfolding same_mac
same_mac→eq a b e = elim (Ordering-cases (memcmp a b)) [
  | inl l ↦ cc (rw (l, same_mac) at e)
  | inr (inl q) ↦ memcmp→eq a b q
  | inr (inr g) ↦ cc (rw (g, same_mac) at e)
]
