-- ===== src/Pcon/Limit.antt =====
-- How often `pcon_connect` lets a host be tried.

use mathlib.Core.List.Permᴰ
use p2p_vn.Base.{
  ℕ, ◌+◌, ◌^◌, ◌<◌, ◌≤◌, ◌≡◌, ◌≢◌, ◌⊎◌, inl, inr, refl, sym, ap, ◌∙◌, subst, arith, Bool, true,
  false, Option, some, Ordering, ℤ, pos, All, get_elem?, set, le→ltb, Bool-cases, length-set,
}
use p2p_vn.Order.{IsOrder}
use p2p_vn.Order.Bytes.{memcmp-IsOrder, key-IsOrder, lex-IsOrder}
use p2p_vn.Sorting.{Qsort}
use p2p_vn.Sorting.Keys.{All-get}
use p2p_vn.Sorting.Places.{sorted_unique, take-set, get_elem?-set, IsSorted-set_same, index_perm}
use p2p_vn.Search.{found, missing}
use p2p_vn.Search.Sorted.{get_elem?_lt}
use p2p_vn.DArray.{live, add_to_end, sort_items}
use p2p_vn.DArray.Keyed.{
  IsKeyed, find_in, find_in-Answers, insert-IsKeyed, missing-fresh, length-perm, length-live,
}
use mathlib.Core.Option.{some-injective}
use mathlib.Core.Bool.{false≢true}
use p2p_vn.Dpg.Insert.{Search-cases}
use p2p_vn.Packet.{Ipv4Host}
use p2p_vn.Packet.Bytes.{le_bytes}
use p2p_vn.Pcon.{Limiter, Attempt, Timeval, Timers, us, host_cmp, pcon_connect, pc_con_ease_sec}

host_cmp-IsOrder : IsOrder host_cmp
unfolding host_cmp
host_cmp-IsOrder = lex-IsOrder (key-IsOrder (λ (a : Attempt). a.host.mac) memcmp-IsOrder) (
    lex-IsOrder (key-IsOrder (λ (a : Attempt). le_bytes 4 a.host.s_addr) memcmp-IsOrder)
      (key-IsOrder (λ (a : Attempt). le_bytes 2 a.host.sin_port) memcmp-IsOrder))

pub record IsLimiter (pc : Limiter) : Type 0 where
  pub keyed : IsKeyed host_cmp pc.ipas
  pub small : pc.ipas.ct ≤ 2 ^ 63

-- The limiter has an attempt for the host, made at `ts`.
abbrev pub Tried : Limiter → Ipv4Host → Timeval → Type 0
Tried pc h ts =
    (i : ℕ) × (a : Attempt) × (get_elem? (live pc.ipas) i ≡ some a)
    × (host_cmp (record { attempt_ts = ts; host = h }) a ≡ Ordering.eq)
    × (a.attempt_ts ≡ ts)

abbrev Reply : Type 0
Reply = ℤ × Limiter × Bool

same_limiter :
    {r s : ℤ} {p q : Limiter} {b c : Bool}
    → ◌≡◌ {A = Option Reply} (some (r, p, b)) (some (s, q, c))
    → p ≡ q
same_limiter e = ap (λ (t : Reply). t.1) (some-injective _ _ e)

same_flag :
    {r s : ℤ} {p q : Limiter} {b c : Bool}
    → ◌≡◌ {A = Option Reply} (some (r, p, b)) (some (s, q, c))
    → b ≡ c
same_flag e = ap (λ (t : Reply). t.2) (some-injective _ _ e)

abbrev attempt : Timeval → Ipv4Host → Attempt
attempt ts h = record { attempt_ts = ts; host = h }

abbrev ease : Timeval
ease = record { tv_sec = pc_con_ease_sec; tv_usec = 0 }

module _ (timers : Timers) (qs : Qsort) (now : Timeval) (granted : Bool) (pc : Limiter)
    (h : Ipv4Host) (v : IsLimiter pc) where
  -- What the search for the host finds.
  attempt_lookup :
      ((i : ℕ) × (a : Attempt) × (find_in (host_cmp (attempt now h)) pc.ipas ≡ found i)
        × (get_elem? (live pc.ipas) i ≡ some a)
        × (host_cmp (attempt now h) a ≡ Ordering.eq))
      ⊎ ((find_in (host_cmp (attempt now h)) pc.ipas ≡ missing)
          × All (λ a. host_cmp (attempt now h) a ≢ Ordering.eq) (live pc.ipas))
  attempt_lookup =
      let r = find_in-Answers host_cmp-IsOrder pc.ipas (attempt now h) v.keyed v.small in
      elim (Search-cases (find_in (host_cmp (attempt now h)) pc.ipas)) [
        | inl (i, e) ↦ let q = rw e at r in inl (i, q.0, e, q.1, q.2)
        | inr (inl e) ↦ inr (e, missing-fresh host_cmp-IsOrder pc.ipas (attempt now h) (rw e at r))
        | inr (inr e) ↦ absurd (rw e at r)
      ]

  -- A host that was tried not more than two seconds ago is refused with 1: nothing is spawned, and
  -- the limiter stays as it was.
  pub pcon_connect_recent :
      (before : Timeval)
      → now.tv_usec < 1000000
      → before.tv_usec < 1000000
      → Tried pc h before
      → us now ≤ us before + us ease
      → pcon_connect timers qs now granted pc h ≡ some (pos 1, pc, false)
  unfolding pcon_connect
  pcon_connect_recent before nn nb (i, a, at_i, same, ts) soon =
      let same' : host_cmp (attempt now h) a ≡ Ordering.eq = same in
      elim attempt_lookup [
        | inr (e, absent) ↦ absurd (
            All-get (λ (b : Attempt). host_cmp (attempt now h) b ≢ Ordering.eq) (live pc.ipas) i a
              at_i absent same')
        | inl (j, b, e, at_j, found_j) ↦
            let ab : a ≡ b =
              sorted_unique host_cmp-IsOrder (live pc.ipas) i j a b v.keyed.sorted at_i at_j
                (sym (host_cmp-IsOrder.eq_left (attempt now h) a b same') ∙ found_j) in
            let ts' : b.attempt_ts ≡ before = sym (ap (λ (c : Attempt). c.attempt_ts) ab) ∙ ts in
            rw (
              e,
              at_j,
              ts',
              timers.timercmp-timersub now before ease nn nb (omega arith),
              le→ltb (us before + us ease) (us now) soon,
              pcon_connect,
            )
      ]

  connect_missing :
      find_in (host_cmp (attempt now h)) pc.ipas ≡ missing
      → pcon_connect timers qs now granted pc h
        ≡ some (
          pos 0,
          record { ipas = sort_items qs host_cmp (add_to_end granted pc.ipas (attempt now h)).1 },
          true,
        )
  unfolding pcon_connect
  connect_missing e = rw (e, pcon_connect)

  renewed : ℕ → Attempt → Limiter
  renewed i fh = record {
    ipas = record pc.ipas { items = set pc.ipas.items i (record fh { attempt_ts = now }) };
  }

  connect_found :
      (i : ℕ) (fh : Attempt)
      → find_in (host_cmp (attempt now h)) pc.ipas ≡ found i
      → get_elem? (live pc.ipas) i ≡ some fh
      → (pcon_connect timers qs now granted pc h ≡ some (pos 1, pc, false))
        ⊎ (pcon_connect timers qs now granted pc h ≡ some (pos 0, renewed i fh, true))
  unfolding pcon_connect renewed
  connect_found i fh e at_i =
      elim (Bool-cases
        (timers.timercmp_gt (timers.timersub now fh.attempt_ts) (timers.span ease))) [
          | inl late ↦ inr (rw (e, at_i, late, pcon_connect))
          | inr early ↦ inl (rw (e, at_i, early, pcon_connect))
        ]

  renewed-Tried :
      (i : ℕ) (fh : Attempt)
      → get_elem? (live pc.ipas) i ≡ some fh
      → host_cmp (attempt now h) fh ≡ Ordering.eq
      → IsLimiter (renewed i fh) × Tried (renewed i fh) h now
  unfolding renewed host_cmp
  renewed-Tried i fh at_i same =
      let fresh : Attempt = record fh { attempt_ts = now } in
      let shape = take-set pc.ipas.ct pc.ipas.items i fresh in
      let size = length-set pc.ipas.items i fresh in
      let arr = v.keyed.array in
      (
        record {
          keyed = record {
            array = record {
              written = omega (arith, size, arr.written);
              fits = omega (arith, size, arr.fits);
              room = arr.room;
            };
            sorted = rw shape (
                IsSorted-set_same host_cmp-IsOrder fh fresh (live pc.ipas) i at_i
                  (host_cmp-IsOrder.self fh) v.keyed.sorted);
          };
          small = v.small;
        },
        (
          i,
          fresh,
          rw shape (get_elem?-set (live pc.ipas) i fresh (get_elem?_lt (live pc.ipas) i fh at_i)),
          same,
          refl,
        ),
      )

  inserted-Tried :
      pc.ipas.mem < 2 ^ 62
      → (granted ≡ true) ⊎ (pc.ipas.ct < pc.ipas.mem)
      → All (λ a. host_cmp (attempt now h) a ≢ Ordering.eq) (live pc.ipas)
      → let pc' : Limiter = record {
        ipas = sort_items qs host_cmp (add_to_end granted pc.ipas (attempt now h)).1;
      } in
        IsLimiter pc' × Tried pc' h now
  inserted-Tried room given absent =
      let nh = attempt now h in
      let pc' : Limiter = record {
        ipas = sort_items qs host_cmp (add_to_end granted pc.ipas nh).1;
      } in
      let (ok, keyed, perm) =
        insert-IsKeyed host_cmp-IsOrder qs granted pc.ipas nh v.keyed room given absent in
      let place = index_perm (Permᴰ.symm perm) 0 nh refl in
      let arr = v.keyed.array in
      (
        record {
          keyed = keyed;
          small = omega (
            arith,
            length-perm perm,
            length-live host_cmp-IsOrder pc.ipas arr,
            length-live host_cmp-IsOrder pc'.ipas keyed.array,
            arr.written,
            arr.fits,
          );
        },
        (place.0, nh, place.1, host_cmp-IsOrder.self nh, refl),
      )

  -- For a limiter in order with memory below 2^62, and room or memory granted: when a call spawns
  -- a connection, the limiter is again in order and has an attempt for the host with the time of
  -- the call.
  pub pcon_connect-Tried :
      (r : ℤ) (pc' : Limiter)
      → pc.ipas.mem < 2 ^ 62
      → (granted ≡ true) ⊎ (pc.ipas.ct < pc.ipas.mem)
      → pcon_connect timers qs now granted pc h ≡ some (r, pc', true)
      → IsLimiter pc' × Tried pc' h now
  pcon_connect-Tried r pc' room given run = elim attempt_lookup [
    | inr (e, absent) ↦
        subst (λ q. IsLimiter q × Tried q h now) (same_limiter (sym (connect_missing e) ∙ run))
          (inserted-Tried room given absent)
    | inl (i, fh, e, at_i, same) ↦ elim (connect_found i fh e at_i) [
      | inl refused ↦ absurd (false≢true (same_flag (sym refused ∙ run)))
      | inr spawned ↦
          subst (λ q. IsLimiter q × Tried q h now) (same_limiter (sym spawned ∙ run))
            (renewed-Tried i fh at_i same)
    ]
  ]

-- For a limiter in order with memory below 2^62, room or memory granted, and times with less than
-- a million microseconds: after a call for a host that spawned a connection, a call for the same
-- host not more than PC_CON_EASE_SEC later returns 1, changes nothing and spawns nothing.
pub pcon_connect_twice :
    (timers : Timers) (qs : Qsort) (now later : Timeval) (granted granted' : Bool) (pc : Limiter)
    (h : Ipv4Host) (r : ℤ) (pc' : Limiter)
    → IsLimiter pc
    → pc.ipas.mem < 2 ^ 62
    → (granted ≡ true) ⊎ (pc.ipas.ct < pc.ipas.mem)
    → now.tv_usec < 1000000
    → later.tv_usec < 1000000
    → us later ≤ us now + us ease
    → pcon_connect timers qs now granted pc h ≡ some (r, pc', true)
    → pcon_connect timers qs later granted' pc' h ≡ some (pos 1, pc', false)
pcon_connect_twice timers qs now later granted granted' pc h r pc' v room given nn nl soon run =
    let (v', tried) = pcon_connect-Tried timers qs now granted pc h v r pc' room given run in
    pcon_connect_recent timers qs later granted' pc' h v' now nl nn tried soon
