-- ===== src/Routing/Table/Changed.antt =====
-- routing.c: memory in order stays so where an address is put to a number that no host points to, and
-- where a host is replaced by one with the same address.

use p2p_vn.Base.{
  false, ℕ, suc, ◌+◌, ◌≤◌, ◌<◌, ◌≡◌, ◌≢◌, ◌⊎◌, inl, inr, refl, sym, ap, subst, ◌∙◌, arith, true,
  Bool-cases, Option, some, Ordering, ◌==◌, ==→eq, ==→ne, ltb, ltb→lt, ltb→le,
}
use p2p_vn.Packet.{Ipv4Host}
use p2p_vn.Sorting.{Qsort}
use p2p_vn.Sorting.Keys.{All-map}
use p2p_vn.DArray.{DArray, add_to_end, check_and_realloc, live, sort_items}
use p2p_vn.Routing.State.{Routing, RtHost, update, put_host}
use p2p_vn.Routing.Table.{
  IsHost, IsTable, Keeps, Small, Fit, Step, update_ne, Keeps-of, IsKeyed-Keeps, IsHost-Keeps,
}

pub add_to_end-granted : {A : Type 0} (d : DArray A) (x : A) → (add_to_end true d x).0 ≡ false
unfolding add_to_end check_and_realloc
add_to_end-granted d x = ground arith

pub add_to_end-Small :
    {A : Type 0} (more : ℕ) (d : DArray A) (x : A)
    → Small (suc more) d
    → Small more (add_to_end true d x).1
unfolding add_to_end check_and_realloc
add_to_end-Small more d x s =
    let a = s.ct_lt in
    let b = s.mem_lt in
    elim (Bool-cases (ltb d.mem (d.ct + 1))) [
      | inl e ↦
          let lt = ltb→lt d.mem (d.ct + 1) e in
          rw e (record { ct_lt = omega arith; mem_lt = omega arith })
      | inr e ↦ rw e (record { ct_lt = omega arith; mem_lt = b })
    ]

pub sort_items-Small :
    {A : Type 0} (more : ℕ) (qs : Qsort) (cmp : A → A → Ordering) (d : DArray A)
    → Small more d
    → Small more (sort_items qs cmp d)
unfolding sort_items
sort_items-Small more qs cmp d s = record { ct_lt = s.ct_lt; mem_lt = s.mem_lt }

pub inserted-ct :
    {A : Type 0} (qs : Qsort) (cmp : A → A → Ordering) (d : DArray A) (x : A)
    → (sort_items qs cmp (add_to_end true d x).1).ct ≡ d.ct + 1
unfolding sort_items add_to_end check_and_realloc
inserted-ct qs cmp d x = elim (Bool-cases (ltb d.mem (d.ct + 1))) [
  | inl e ↦ rw e refl
  | inr e ↦ rw e refl
]

-- What stands at a number after a write to `p`.
pub update-cases :
    {A : Type 0} (m : ℕ → Option A) (p q : ℕ) (v w : A)
    → update m p (some v) q ≡ some w
    → ((q ≡ p) × (v ≡ w)) ⊎ ((q ≢ p) × (m q ≡ some w))
update-cases m p q v w e = elim (Bool-cases (q == p)) [
  | inl t ↦ inl (==→eq q p t, (let f : some v ≡ some w = rw t at e in ground (arith, f)))
  | inr t ↦ inr (==→ne q p t, rw t at e)
]

pub allocated_lt :
    (rd : Routing) (p : ℕ) (h : RtHost) → IsTable rd → rd.host_at p ≡ some h → p < rd.calls
allocated_lt rd p h t e = elim (Bool-cases (ltb p rd.calls)) [
  | inl l ↦ ltb→lt p rd.calls l
  | inr l ↦ let none_there = t.unused p (ltb→le p rd.calls l) in cc
]

-- Other addresses, the same where the hosts point.
module _ (rd : Routing) (ips : ℕ → Option Ipv4Host)
    (same : (p : ℕ) (h : RtHost) → rd.host_at p ≡ some h → ips h.host ≡ rd.ip_at h.host) where
  abbrev pub readdressed : Routing
  readdressed = record rd { ip_at = ips }

  readdressed-Keeps : Keeps rd readdressed
  readdressed-Keeps = Keeps-of rd readdressed (λ p a. (
    record {
      host = a.host;
      ip = a.ip;
      points = a.points;
      stands = same p a.host a.points ∙ a.stands;
    },
    refl,
  ))

  pub readdressed-Step : (more : ℕ) → Fit more rd → Step more rd readdressed
  readdressed-Step more f = record {
    fit = record {
      table = record {
        keyed = IsKeyed-Keeps rd readdressed readdressed-Keeps rd.hosts f.table.alive f.table.keyed;
        alive = All-map _ _ (live rd.hosts) readdressed-Keeps.alive f.table.alive;
        each = λ p h e. IsHost-Keeps rd readdressed readdressed-Keeps p h (f.table.each p h e);
        whole = f.table.whole;
        unused = f.table.unused;
        old = f.table.old;
        copies = f.table.copies;
      };
      room = record { hosts = f.room.hosts; links = f.room.links };
    };
    keeps = readdressed-Keeps;
    own = refl;
    m_ct = refl;
    tables = refl;
    hosts = inl refl;
  }

-- Another host at a number, with the same address and type, and perhaps calls more.
module _ (rd : Routing) (p n : ℕ) (h h' : RtHost) (stands : rd.host_at p ≡ some h)
    (same_host : h'.host ≡ h.host) (same_type : h'.type ≡ h.type) (later : rd.calls ≤ n) where
  abbrev pub replaced : Routing
  replaced = record (put_host rd p h') { calls = n }

  -- What stood there before.
  replaced_was :
      (q : ℕ) (k : RtHost)
      → update rd.host_at p (some h') q ≡ some k
      → (k₀ : RtHost) × (rd.host_at q ≡ some k₀) × (k.host ≡ k₀.host) × (k.type ≡ k₀.type)
  replaced_was q k e = elim (update-cases rd.host_at p q h' k e) [
    | inl (at, same) ↦ (
      h,
      ap rd.host_at at ∙ stands,
      ap (λ (x : RtHost). x.host) (sym same) ∙ same_host,
      ap (λ (x : RtHost). x.type) (sym same) ∙ same_type,
    )
    | inr (ne, f) ↦ (k, f, refl, refl)
  ]

  replaced-Keeps : Keeps rd replaced
  replaced-Keeps = Keeps-of rd replaced (λ q a. elim (Bool-cases (q == p)) [
    | inl t ↦
        let was : some a.host ≡ some h = sym a.points ∙ ap rd.host_at (==→eq q p t) ∙ stands in
        let same : a.host ≡ h = ground (arith, was) in
        (
          record {
            host = h';
            ip = a.ip;
            points = rw t refl;
            stands = ap rd.ip_at (same_host ∙ ap (λ (x : RtHost). x.host) (sym same)) ∙ a.stands;
          },
          refl,
        )
    | inr f ↦ (record { host = a.host; ip = a.ip; points = rw f a.points; stands = a.stands }, refl)
  ])

  pub replaced-Step :
      (more : ℕ) → Fit more rd → IsHost rd p h' → Small more h'.links → Step more rd replaced
  replaced-Step more f host small = record {
    fit = record {
      table = record {
        keyed = IsKeyed-Keeps rd replaced replaced-Keeps rd.hosts f.table.alive f.table.keyed;
        alive = All-map _ _ (live rd.hosts) replaced-Keeps.alive f.table.alive;
        each = λ q k e.
            IsHost-Keeps rd replaced replaced-Keeps q k (elim (update-cases rd.host_at p q h' k e) [
              | inl (at, same) ↦ subst (λ x. IsHost rd x k) (sym at) (subst (IsHost rd p) same host)
              | inr (ne, g) ↦ f.table.each q k g
            ]);
        whole = λ q k e. let was = replaced_was q k e in f.table.whole q was.0 was.1;
        unused = λ q le.
            let below = allocated_lt rd p h f.table stands in
            update_ne rd.host_at p q (some h') (λ at. absurd (omega arith))
            ∙ f.table.unused q (omega arith);
        old = λ q k e.
            let (k₀, g, same, t) = replaced_was q k e in let lt = f.table.old q k₀ g in omega arith;
        copies = λ q r k l e g t same.
            let (k₀, e₀, hk, tk) = replaced_was q k e in
            let (l₀, g₀, hl, tl) = replaced_was r l g in
            f.table.copies q r k₀ l₀ e₀ g₀ (sym tk ∙ t) (sym hk ∙ same ∙ hl);
      };
      room = record {
        hosts = f.room.hosts;
        links = λ q k e. elim (update-cases rd.host_at p q h' k e) [
          | inl (at, same) ↦ subst (λ (x : RtHost). Small more x.links) same small
          | inr (ne, g) ↦ f.room.links q k g
        ];
      };
    };
    keeps = replaced-Keeps;
    own = refl;
    m_ct = refl;
    tables = refl;
    hosts = inl refl;
  }
