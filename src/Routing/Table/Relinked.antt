-- ===== src/Routing/Table/Relinked.antt =====
-- routing.c: memory in order stays so where a link is renewed or removed.
use p2p_vn.Base.{
  ℕ, zero, suc, ◌^◌, ◌<◌, ◌≡◌, refl, sym, subst, arith, some, List, [], ◌∷◌, All, set, take,
  length-set, length-take, get_elem?,
}
use p2p_vn.Sorting.Keys.{All-get}
use p2p_vn.Search.Sorted.{get_elem?_lt}
use p2p_vn.DArray.{DArray, live, remove}
use p2p_vn.DArray.Laws.{IsArray, remove-live, remove_small}
use p2p_vn.DArray.Keyed.{All-erase_at}
use p2p_vn.Routing.State.{Routing, RtHost, RtLink, put_host, ◌>>=◌}
use p2p_vn.Routing.Hosts.{link_remove}
use p2p_vn.Routing.Table.{Leads, Fit, Step}
use p2p_vn.Routing.Table.Changed.{replaced-Step}

All-take_set :
    {A : Type 0} (P : A → Type 0) (n : ℕ) (xs : List A) (i : ℕ) (v : A)
    → P v
    → All P (take n xs)
    → All P (take n (set xs i v))
All-take_set P zero xs i v p a = tt
All-take_set P (suc n) [] i v p a = tt
All-take_set P (suc n) (x ∷ xs) zero v p a = (p, a.1)
All-take_set P (suc n) (x ∷ xs) (suc i) v p a = (a.0, All-take_set P n xs i v p a.1)

-- A link of a host gets a new round trip time and time stamp.
pub renewed-Step :
    (more : ℕ) (rd : Routing) (p stod rtt_us ts_ms : ℕ) (h : RtHost) (link : RtLink)
    → Fit more rd
    → rtt_us < 2 ^ 32
    → rd.host_at p ≡ some h
    → get_elem? (live h.links) stod ≡ some link
    → Step more rd (
        put_host rd p (record h {
          links = record h.links {
            items = set h.links.items stod (record link { rtt_us = rtt_us; ts_ms = ts_ms });
          };
        }))
renewed-Step more rd p stod rtt_us ts_ms h link f narrow e g =
    let host = f.table.each p h e in
    let small = f.room.links p h e in
    let new : RtLink = record link { rtt_us = rtt_us; ts_ms = ts_ms } in
    let len = length-set h.links.items stod new in
    let w = host.array.written in
    let fit = host.array.fits in
    let links : DArray RtLink = record h.links { items = set h.links.items stod new } in
    let old = All-get (Leads rd p) (live h.links) stod link g host.dsts in
    let leads : Leads rd p new = record { alive = old.alive; other = old.other; narrow = narrow } in
    replaced-Step rd p rd.calls h (record h { links = links }) e refl refl (omega arith) more f
      (record {
        self = host.self;
        array = record {
          written = omega (arith, len);
          fits = omega (arith, len);
          room = host.array.room;
        };
        dsts = All-take_set (Leads rd p) h.links.ct h.links.items stod new leads host.dsts;
      })
      (record { ct_lt = small.ct_lt; mem_lt = small.mem_lt })

-- `link_remove` of one of the links of a host.
pub link_remove-Step :
    (more : ℕ) (rd : Routing) (p l : ℕ) (h : RtHost)
    → Fit more rd
    → rd.host_at p ≡ some h
    → l < h.links.ct
    → (rd' : Routing) × (link_remove rd p l ≡ some rd') × Step more rd rd'
unfolding link_remove
link_remove-Step more rd p l h f e lt =
    let host = f.table.each p h e in
    let small = f.room.links p h e in
    let (shape, array) = remove-live h.links l host.array lt in
    let (ct, mem) = remove_small h.links l host.array lt in
    (
      put_host rd p (record h { links = remove h.links l }),
      rw (e, link_remove, ◌>>=◌) refl,
      replaced-Step rd p rd.calls h (record h { links = remove h.links l }) e refl refl
          (omega arith) more f
          (record {
            self = host.self;
            array = array;
            dsts = subst (All (Leads rd p)) (sym shape) (All-erase_at _ (live h.links) l host.dsts);
          })
          (record {
            ct_lt = (let c = small.ct_lt in omega arith);
            mem_lt = (let m = small.mem_lt in omega arith);
          }),
    )

-- An index that reads a live link is below the count.
pub live_lt :
    {A : Type 0} (d : DArray A) (i : ℕ) (x : A)
    → IsArray d
    → get_elem? (live d) i ≡ some x
    → i < d.ct
live_lt d i x v e =
    let lt = get_elem?_lt (live d) i x e in
    let len = length-take d.ct d.items v.written in omega arith
