-- ===== src/Routing/Table/Direct.antt =====
-- routing.c: memory in order stays so where a host comes to point to another place of its address.
use mathlib.Core.List.{Memᴰ}
use p2p_vn.Base.{
  ℕ, ◌≤◌, ◌<◌, ◌≡◌, ◌≢◌, ◌⊎◌, inl, inr, refl, sym, ap, subst, ◌∙◌, arith, Bool-cases, Option, some,
  none, ◌==◌, ==→eq, ==→ne,
}
use p2p_vn.Packet.{Ipv4Host}
use p2p_vn.Sorting.Keys.{All-map}
use p2p_vn.DArray.{live}
use p2p_vn.Routing.State.{
  Routing, RtHost, HostType, ht_local, ht_direct, ht_normal, update, mac_of, ◌>>=◌,
}
use p2p_vn.Routing.Hosts.{ihost_to_dhost}
use p2p_vn.Routing.Table.{
  Alive, IsHost, IsTable, Keeps, Small, Fit, Step, Step-self, update_ne, Alive-mac, Keeps-of,
  IsKeyed-Keeps, IsHost-Keeps,
}
use p2p_vn.Routing.Table.Changed.{update-cases, allocated_lt}

module _ (rd : Routing) (p at n : ℕ) (h : RtHost) (type : HostType)
    (ips : ℕ → Option Ipv4Host) where
  abbrev pub redirected : Routing
  redirected = record rd {
    host_at = update rd.host_at p (some (record h { host = at; type = type }));
    ip_at = ips;
    calls = n;
  }

  -- The new place has the address of the host and no other host's copy; the other hosts' addresses
  -- stay.
  pub record Redirects : Type 0 where
    pub stands : rd.host_at p ≡ some h
    pub ip : Ipv4Host
    pub points : ips at ≡ some ip
    pub address : ip.mac ≡ mac_of rd p
    pub later : rd.calls ≤ n
    pub below : at < n
    pub same : (q : ℕ) (k : RtHost) → rd.host_at q ≡ some k → q ≢ p → ips k.host ≡ rd.ip_at k.host
    pub copy : type ≡ ht_normal → (q : ℕ) (k : RtHost) → rd.host_at q ≡ some k → q ≢ p → k.host ≢ at
    pub no_copy :
        (q : ℕ) (k : RtHost) → rd.host_at q ≡ some k → q ≢ p → k.type ≡ ht_normal → k.host ≢ at

  module _ (r : Redirects) where
    redirected-Keeps : Keeps rd redirected
    redirected-Keeps = Keeps-of rd redirected (λ q a. elim (Bool-cases (q == p)) [
      | inl t ↦
          let e = ==→eq q p t in
          (
            record {
              host = record h { host = at; type = type };
              ip = r.ip;
              points = rw t refl;
              stands = r.points;
            },
            r.address ∙ ap (mac_of rd) (sym e) ∙ Alive-mac rd q a,
          )
      | inr f ↦ (
        record {
          host = a.host;
          ip = a.ip;
          points = rw f a.points;
          stands = r.same q a.host a.points (==→ne q p f) ∙ a.stands;
        },
        refl,
      )
    ])

    -- A host after the call is the one that was redirected, or stood before.
    redirected-cases :
        (q : ℕ) (k : RtHost)
        → redirected.host_at q ≡ some k
        → ((q ≡ p) × (record h { host = at; type = type } ≡ k))
          ⊎ ((q ≢ p) × (rd.host_at q ≡ some k))
    redirected-cases q k e = update-cases rd.host_at p q _ k e

    redirected-copies :
        (q s : ℕ) (k l : RtHost)
        → redirected.host_at q ≡ some k
        → redirected.host_at s ≡ some l
        → k.type ≡ ht_normal
        → k.host ≡ l.host
        → IsTable rd
        → q ≡ s
    redirected-copies q s k l e f t same table = elim (redirected-cases q k e) [
      | inl (here, is) ↦ elim (redirected-cases s l f) [
        | inl (here', is') ↦ here ∙ sym here'
        | inr (ne, g) ↦ absurd (
            r.copy (ap (λ (x : RtHost). x.type) is ∙ t) s l g ne
              (sym same ∙ ap (λ (x : RtHost). x.host) (sym is)))
      ]
      | inr (ne, g) ↦ elim (redirected-cases s l f) [
        | inl (here', is') ↦
            absurd (r.no_copy q k g ne t (same ∙ ap (λ (x : RtHost). x.host) (sym is')))
        | inr (ne', g') ↦ table.copies q s k l g g' t same
      ]
    ]

    pub redirected-Step : (more : ℕ) → Fit more rd → Step more rd redirected
    redirected-Step more f =
        let keeps = redirected-Keeps in
        record {
          fit = record {
            table = record {
              keyed = IsKeyed-Keeps rd redirected keeps rd.hosts f.table.alive f.table.keyed;
              alive = All-map _ _ (live rd.hosts) keeps.alive f.table.alive;
              each = λ q k e. elim (redirected-cases q k e) [
                | inl (here, is) ↦
                    let v = IsHost-Keeps rd redirected keeps p h (f.table.each p h r.stands) in
                    subst (λ x. IsHost redirected x k) (sym here)
                      (subst (IsHost redirected p) is
                        (record { self = v.self; array = v.array; dsts = v.dsts }))
                | inr (ne, g) ↦ IsHost-Keeps rd redirected keeps q k (f.table.each q k g)
              ];
              whole = λ q k e. elim (redirected-cases q k e) [
                | inl (here, is) ↦
                    subst (λ x. Memᴰ x (live rd.hosts)) (sym here) (f.table.whole p h r.stands)
                | inr (ne, g) ↦ f.table.whole q k g
              ];
              unused = λ q le.
                  let below = allocated_lt rd p h f.table r.stands in
                  let later = r.later in
                  update_ne rd.host_at p q _ (λ e. absurd (omega arith))
                  ∙ f.table.unused q (omega arith);
              old = λ q k e. elim (redirected-cases q k e) [
                | inl (here, is) ↦ subst (λ (x : RtHost). x.host < n) is r.below
                | inr (ne, g) ↦ let lt = f.table.old q k g in let later = r.later in omega arith
              ];
              copies = λ q s k l e g t same. redirected-copies q s k l e g t same f.table;
            };
            room = record {
              hosts = f.room.hosts;
              links = λ q k e. elim (redirected-cases q k e) [
                | inl (here, is) ↦
                    subst (λ (x : RtHost). Small more x.links) is (f.room.links p h r.stands)
                | inr (ne, g) ↦ f.room.links q k g
              ];
            };
          };
          keeps = keeps;
          own = refl;
          m_ct = refl;
          tables = refl;
          hosts = inl refl;
        }

-- `ihost_to_dhost` of a host with the address that stands at a place that has no host's copy.
pub ihost_to_dhost-Step :
    (more : ℕ) (rd : Routing) (p at : ℕ) (ip : Ipv4Host)
    → Fit more rd
    → Alive rd p
    → rd.ip_at at ≡ some ip
    → ip.mac ≡ mac_of rd p
    → at < rd.calls
    → ((q : ℕ) (k : RtHost) → rd.host_at q ≡ some k → k.type ≡ ht_normal → k.host ≢ at)
    → (rd' : Routing) × (ihost_to_dhost rd p at ≡ some rd') × Step more rd rd'
unfolding ihost_to_dhost
ihost_to_dhost-Step more rd p at ip f a e same below no_copy = split a.host.type refl
  where
    split :
        (t : HostType)
        → a.host.type ≡ t
        → (rd' : Routing) × (ihost_to_dhost rd p at ≡ some rd') × Step more rd rd'
    split ht_local t = (rd, rw (a.points, t, ihost_to_dhost, ◌>>=◌) refl, Step-self more rd f)
    split ht_direct t = (rd, rw (a.points, t, ihost_to_dhost, ◌>>=◌) refl, Step-self more rd f)
    split ht_normal t =
        let ips : ℕ → Option Ipv4Host = update rd.ip_at a.host.host none in
        (
          redirected rd p at rd.calls a.host ht_direct ips,
          rw (a.points, t, ihost_to_dhost, ◌>>=◌) refl,
          redirected-Step rd p at rd.calls a.host ht_direct ips
              (record {
                stands = a.points;
                ip = ip;
                points =
                    update_ne rd.ip_at a.host.host at none
                      (λ q. no_copy p a.host a.points t (sym q))
                    ∙ e;
                address = same;
                later = omega arith;
                below = below;
                same = λ q k g ne.
                    update_ne rd.ip_at a.host.host k.host none
                      (λ s. ne (sym (f.table.copies p q a.host k a.points g t (sym s))));
                copy = λ g. cc;
                no_copy = λ q k g ne u. no_copy q k g u;
              })
              more f,
        )

-- The links of each host stay where a host is redirected.
pub redirected-links :
    (rd : Routing) (p at n q : ℕ) (h k : RtHost) (type : HostType) (ips : ℕ → Option Ipv4Host)
    → rd.host_at p ≡ some h
    → rd.host_at q ≡ some k
    → (k' : RtHost) × ((redirected rd p at n h type ips).host_at q ≡ some k') × (k'.links ≡ k.links)
redirected-links rd p at n q h k type ips e g = elim (Bool-cases (q == p)) [
  | inl t ↦
      let here : some h ≡ some k = sym e ∙ ap rd.host_at (sym (==→eq q p t)) ∙ g in
      let same : h ≡ k = ground (arith, here) in
      (record h { host = at; type = type }, rw t refl, ap (λ (x : RtHost). x.links) same)
  | inr f ↦ (k, rw f g, refl)
]
