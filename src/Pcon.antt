-- ===== src/Pcon.antt =====
-- pcon.c: the limiter of connection attempts, an array of attempts sorted by host. The macros of
-- sys/time.h and the time of day are parameters; the lock is held through each call.
pub mod Limit
mod Tests
use p2p_vn.Base.{
  ℕ, zero, suc, ◌+◌, ◌*◌, ◌/◌, ◌%◌, ◌<◌, ◌≡◌, Bool, true, false, Option, none, some, Ordering, ℤ,
  pos, neg, is_neg, if◌then◌else◌, List, [], ◌∷◌, ltb, set, get_elem?,
}
use p2p_vn.Order.Bytes.{memcmp, then_by}
use p2p_vn.Packet.{Mac, Ipv4Host}
use p2p_vn.Packet.Bytes.{le_bytes}
use p2p_vn.Sorting.{Qsort}
use p2p_vn.Search.{found, missing, fault}
use p2p_vn.DArray.{DArray, da_init, da_destroy, add_to_end, live, sort_items}
use p2p_vn.DArray.Keyed.{find_in}

pub record Timeval : Type 0 where
  pub tv_sec : ℕ
  pub tv_usec : ℕ

abbrev pub us : Timeval → ℕ
us t = t.tv_sec * 1000000 + t.tv_usec

-- `timersub` and `timercmp(…, >)`: the difference of two times is above a span exactly if the later
-- one is past the earlier one by more than the span.
pub record Timers : Type 1 where
  pub Span : Type 0
  pub timersub : Timeval → Timeval → Span
  pub span : Timeval → Span
  pub timercmp_gt : Span → Span → Bool
  pub timercmp-timersub :
      (now before out : Timeval)
      → now.tv_usec < 1000000
      → before.tv_usec < 1000000
      → out.tv_usec < 1000000
      → timercmp_gt (timersub now before) (span out) ≡ ltb (us before + us out) (us now)

-- `struct ip_attempt`
pub record Attempt : Type 0 where
  pub attempt_ts : Timeval
  pub host : Ipv4Host

-- `struct peer_cons`, less its lock.
pub record Limiter : Type 0 where
  pub ipas : DArray Attempt

-- PC_CON_EASE_SEC
abbrev pub pc_con_ease_sec : ℕ
pc_con_ease_sec = 2

unfoldable pub host_cmp : Attempt → Attempt → Ordering
host_cmp a b = then_by (memcmp a.host.mac b.host.mac) (
    then_by (memcmp (le_bytes 4 a.host.s_addr) (le_bytes 4 b.host.s_addr))
      (memcmp (le_bytes 2 a.host.sin_port) (le_bytes 2 b.host.sin_port)))

-- `pcon_init`; `lock` is the result of `pthread_mutex_init`.
unfoldable pub pcon_init : (granted : Bool) (lock : ℤ) → ℤ × Limiter
unfolding da_init
pcon_init granted lock =
    let (failed, ipas) = da_init granted 8 in
    if failed
    then (neg 1, record { ipas = ipas })
    else if is_neg lock
    then (neg 1, record { ipas = da_destroy ipas })
    else (pos 0, record { ipas = ipas })

-- The result, the limiter, and whether `dp_create_linkstate` is called for the host (its result is
-- not used). `none` is a memory fault.
unfoldable pub pcon_connect :
    Timers
    → Qsort
    → (now : Timeval) (granted : Bool) → Limiter
    → Ipv4Host
    → Option (ℤ × Limiter × Bool)
unfolding host_cmp
pcon_connect timers qs now granted pc host_attempt =
    let nh : Attempt = record { attempt_ts = now; host = host_attempt } in
    let out = timers.span (record { tv_sec = pc_con_ease_sec; tv_usec = 0 }) in
    elim (find_in (host_cmp nh) pc.ipas) [
      | fault ↦ none
      | found i ↦ elim (get_elem? (live pc.ipas) i) [
        | none ↦ none
        | some fh ↦
            if timers.timercmp_gt (timers.timersub now fh.attempt_ts) out
            then some (
              pos 0,
              record {
                ipas = record pc.ipas {
                  items = set pc.ipas.items i (record fh { attempt_ts = now });
                };
              },
              true,
            )
            else some (pos 1, pc, false)
      ]
      | missing ↦
          let grown = (add_to_end granted pc.ipas nh).1 in
          some (pos 0, record { ipas = sort_items qs host_cmp grown }, true)
    ]

-- `pcon_destroy`
unfoldable pub pcon_destroy : Limiter → Limiter
pcon_destroy pc = record { ipas = da_destroy pc.ipas }
