-- ===== src/Routing/Table.antt =====
-- routing.h: what keeps the memory of `routing_t` in order. The children hold what the calls of
-- routing.c do to memory in order.
pub mod Lookup
pub mod Changed
pub mod Recorded
pub mod Joined
pub mod Added
pub mod Linked
pub mod Scanned
pub mod Entered
pub mod Edges
pub mod Direct
pub mod Relinked
pub mod Calls
pub mod Indexed
pub mod Described
pub mod Filled
pub mod Untrimmed
pub mod Settled
pub mod Answered
mod Tests
use mathlib.Core.List.{Memᴰ}
use p2p_vn.Base.{
  ℕ, suc, ◌+◌, ◌^◌, ◌<◌, ◌≤◌, ◌≡◌, ◌≢◌, ◌⊎◌, inl, inr, refl, sym, ap, subst, ◌∙◌, arith, Option,
  none, some, Ordering, List, [], ◌∷◌, All, ==_self, ne→==,
}
use p2p_vn.Order.{IsSorted}
use p2p_vn.Packet.{Ipv4Host}
use p2p_vn.Sorting.Keys.{All-map}
use p2p_vn.DArray.{DArray, live}
use p2p_vn.DArray.Laws.{IsArray}
use p2p_vn.DArray.Keyed.{IsKeyed}
use p2p_vn.Routing.State.{Routing, RtHost, RtLink, ht_normal, update, mac_of, mac_in}
use p2p_vn.Routing.Hosts.{host_cmp_addr}

-- A pointer to a host that is allocated, and that points to an address.
pub record Alive (rd : Routing) (p : ℕ) : Type 0 where
  pub host : RtHost
  pub ip : Ipv4Host
  pub points : rd.host_at p ≡ some host
  pub stands : rd.ip_at host.host ≡ some ip

-- A link of the host `p` leads to a host with another address, and its `rtt_us` fits `uint32_t`.
pub record Leads (rd : Routing) (p : ℕ) (l : RtLink) : Type 0 where
  pub alive : Alive rd l.dst
  pub other : mac_of rd l.dst ≢ mac_of rd p
  pub narrow : l.rtt_us < 2 ^ 32

-- The host at a number.
pub record IsHost (rd : Routing) (p : ℕ) (h : RtHost) : Type 0 where
  pub self : Alive rd p
  pub array : IsArray h.links
  pub dsts : All (Leads rd p) (live h.links)

-- The hosts of the array are sorted by address with no address twice, and allocated, as are the hosts
-- that they link to; no other is allocated. No call gave a number yet that is not below the count of the calls, and a copy
-- of an address belongs to one host.
pub record IsTable (rd : Routing) : Type 0 where
  pub keyed : IsKeyed (host_cmp_addr rd) rd.hosts
  pub alive : All (Alive rd) (live rd.hosts)
  pub each : (p : ℕ) (h : RtHost) → rd.host_at p ≡ some h → IsHost rd p h
  pub whole : (p : ℕ) (h : RtHost) → rd.host_at p ≡ some h → Memᴰ p (live rd.hosts)
  pub unused : (p : ℕ) → rd.calls ≤ p → rd.host_at p ≡ none
  pub old : (p : ℕ) (h : RtHost) → rd.host_at p ≡ some h → h.host < rd.calls
  pub copies :
      (p q : ℕ) (h k : RtHost)
      → rd.host_at p ≡ some h
      → rd.host_at q ≡ some k
      → h.type ≡ ht_normal
      → h.host ≡ k.host
      → p ≡ q

-- A step after which every host that was allocated is, and has the address that it had.
pub record Keeps (rd rd' : Routing) : Type 0 where
  pub alive : (p : ℕ) → Alive rd p → Alive rd' p
  pub mac : (p : ℕ) → Alive rd p → mac_of rd' p ≡ mac_of rd p

pub Keeps-self : (rd : Routing) → Keeps rd rd
Keeps-self rd = record { alive = λ p a. a; mac = λ p a. refl }

pub Keeps-trans : (a b c : Routing) → Keeps a b → Keeps b c → Keeps a c
Keeps-trans a b c f g = record {
  alive = λ p x. g.alive p (f.alive p x);
  mac = λ p x. g.mac p (f.alive p x) ∙ f.mac p x;
}

-- There is room for so many more elements.
pub record Small {A : Type 0} (more : ℕ) (d : DArray A) : Type 0 where
  pub ct_lt : d.ct + more < 2 ^ 60
  pub mem_lt : d.mem < 2 ^ 62

-- The same for the hosts, and for the links of each.
pub record Room (more : ℕ) (rd : Routing) : Type 0 where
  pub hosts : Small more rd.hosts
  pub links : (p : ℕ) (h : RtHost) → rd.host_at p ≡ some h → Small more h.links

pub update_self {ℓ} : {A : Type ℓ} (m : ℕ → A) (p : ℕ) (v : A) → update m p v p ≡ v
update_self m p v = rw (==_self p) refl

pub update_ne {ℓ} : {A : Type ℓ} (m : ℕ → A) (p q : ℕ) (v : A) → q ≢ p → update m p v q ≡ m q
update_ne m p q v d = rw (ne→== q p d) refl

pub Alive-mac : (rd : Routing) (p : ℕ) (a : Alive rd p) → mac_of rd p ≡ a.ip.mac
Alive-mac rd p a = rw (a.points, a.stands, mac_of, mac_in) refl

-- A step after which what was allocated points to the same address.
pub Keeps-of :
    (rd rd' : Routing)
    → ((p : ℕ) (a : Alive rd p) → (b : Alive rd' p) × (b.ip.mac ≡ a.ip.mac))
    → Keeps rd rd'
Keeps-of rd rd' f = record {
  alive = λ p a. (f p a).0;
  mac = λ p a. Alive-mac rd' p (f p a).0 ∙ (f p a).1 ∙ sym (Alive-mac rd p a);
}

-- Sortedness looks at the keys of the elements only.
IsSorted-cong :
    {A : Type 0} (P : A → Type 0) (f g : A → A → Ordering) (xs : List A)
    → ((x y : A) → P x → P y → g x y ≡ f x y)
    → All P xs
    → IsSorted f xs
    → IsSorted g xs
IsSorted-cong P f g [] same a s = tt
IsSorted-cong P f g (x ∷ xs) same a s = (above xs a.1 s.0, IsSorted-cong P f g xs same a.1 s.1)
  where
    above :
        (ys : List _)
        → All P ys
        → All (λ y. f x y ≡ Ordering.lt) ys
        → All (λ y. g x y ≡ Ordering.lt) ys
    above [] b l = tt
    above (y ∷ ys) b l = (same x y a.0 b.0 ∙ l.0, above ys b.1 l.1)

module _ (rd rd' : Routing) (keeps : Keeps rd rd') where
  pub host_cmp_addr-Keeps :
      (p q : ℕ) → Alive rd p → Alive rd q → host_cmp_addr rd' p q ≡ host_cmp_addr rd p q
  unfolding host_cmp_addr
  host_cmp_addr-Keeps p q a b = rw (keeps.mac p a, keeps.mac q b) refl

  pub IsKeyed-Keeps :
      (d : DArray ℕ)
      → All (Alive rd) (live d)
      → IsKeyed (host_cmp_addr rd) d
      → IsKeyed (host_cmp_addr rd') d
  IsKeyed-Keeps d a v = record {
    array = v.array;
    sorted =
        IsSorted-cong (Alive rd) (host_cmp_addr rd) (host_cmp_addr rd') (live d) host_cmp_addr-Keeps
          a v.sorted;
  }

  Leads-Keeps : (p : ℕ) (l : RtLink) → Alive rd p → Leads rd p l → Leads rd' p l
  Leads-Keeps p l a v = record {
    alive = keeps.alive l.dst v.alive;
    other = λ e. v.other (sym (keeps.mac l.dst v.alive) ∙ e ∙ keeps.mac p a);
    narrow = v.narrow;
  }

  pub IsHost-Keeps : (p : ℕ) (h : RtHost) → IsHost rd p h → IsHost rd' p h
  IsHost-Keeps p h v = record {
    self = keeps.alive p v.self;
    array = v.array;
    dsts = All-map (Leads rd p) (Leads rd' p) (live h.links) (λ l. Leads-Keeps p l v.self) v.dsts;
  }

-- Memory in order with room for so many more elements in each array.
pub record Fit (more : ℕ) (rd : Routing) : Type 0 where
  pub table : IsTable rd
  pub room : Room more rd

-- The array of hosts is the same, or there are more.
abbrev pub Grown : (d d' : DArray ℕ) → Type 0
Grown d d' = (d' ≡ d) ⊎ (d.ct < d'.ct)

-- A step that leaves memory in order, keeps what was there, and leaves the tables alone.
pub record Step (more : ℕ) (rd rd' : Routing) : Type 0 where
  pub fit : Fit more rd'
  pub keeps : Keeps rd rd'
  pub own : rd'.own ≡ rd.own
  pub m_ct : rd'.m_ct ≡ rd.m_ct
  pub tables : rd'.tables ≡ rd.tables
  pub hosts : Grown rd.hosts rd'.hosts

pub Step-self : (more : ℕ) (rd : Routing) → Fit more rd → Step more rd rd
Step-self more rd f = record {
  fit = f;
  keeps = Keeps-self rd;
  own = refl;
  m_ct = refl;
  tables = refl;
  hosts = inl refl;
}

Grown-trans : (a b c : DArray ℕ) → Grown a b → Grown b c → Grown a c
Grown-trans a b c (inl e) (inl f) = inl (f ∙ e)
Grown-trans a b c (inl e) (inr f) = inr (subst (λ (d : DArray ℕ). d.ct < c.ct) e f)
Grown-trans a b c (inr e) (inl f) = inr (subst (λ (d : DArray ℕ). a.ct < d.ct) (sym f) e)
Grown-trans a b c (inr e) (inr f) = inr (omega arith)

pub Step-trans : (n k : ℕ) (a b c : Routing) → Step n a b → Step k b c → Step k a c
Step-trans n k a b c s t = record {
  fit = t.fit;
  keeps = Keeps-trans a b c s.keeps t.keeps;
  own = t.own ∙ s.own;
  m_ct = t.m_ct ∙ s.m_ct;
  tables = t.tables ∙ s.tables;
  hosts = Grown-trans a.hosts b.hosts c.hosts s.hosts t.hosts;
}

Small-less : {A : Type 0} (more : ℕ) (d : DArray A) → Small (suc more) d → Small more d
Small-less more d s = record { ct_lt = (let lt = s.ct_lt in omega arith); mem_lt = s.mem_lt }

pub Fit-less : (more : ℕ) (rd : Routing) → Fit (suc more) rd → Fit more rd
Fit-less more rd f = record {
  table = f.table;
  room = record {
    hosts = Small-less more rd.hosts f.room.hosts;
    links = λ p h e. Small-less more h.links (f.room.links p h e);
  };
}

pub Step-less : (more : ℕ) (rd rd' : Routing) → Step (suc more) rd rd' → Step more rd rd'
Step-less more rd rd' s =
    Step-trans (suc more) more rd rd' rd' s (Step-self more rd' (Fit-less more rd' s.fit))
