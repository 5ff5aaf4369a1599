-- ===== src/Pcon/Tests.antt =====
-- Runs of the limiter, with times counted in microseconds.
use p2p_vn.Base.{◌≡◌, refl, arith, [], ◌∷◌, inl, true, false, some, pos, ℕ, ◌+◌, ltb}
use p2p_vn.Sorting.Insertion.{insertion, sort_by, insert_by}
use p2p_vn.Search.{bsearch, bsearch_loop}
use p2p_vn.DArray.{add_to_end, check_and_realloc, store, sort_items}
use p2p_vn.DArray.Keyed.{find_in}
use p2p_vn.Packet.{Ipv4Host}
use p2p_vn.Pcon.{Limiter, Timeval, Timers, us, pcon_connect}
use p2p_vn.Pcon.Limit.{IsLimiter, Tried, pcon_connect-Tried, pcon_connect_twice}

-- A span is a pair of times, and the comparison adds instead of subtracting.
abbrev clock : Timers
clock = record {
  Span = ℕ × ℕ;
  timersub = λ a b. (us a, us b);
  span = λ t. (us t, 0);
  timercmp_gt = λ a b. ltb (a.1 + (b.0)) (a.0 + b.1);
  timercmp-timersub = λ now before out a b c. ground arith;
}

abbrev seconds : ℕ → Timeval
seconds s = record { tv_sec = s; tv_usec = 500000 }

abbrev host : Ipv4Host
host = record {
  mac = 2 ∷ 0 ∷ 0 ∷ 0 ∷ 0 ∷ 7 ∷ [];
  sin_family = 2;
  s_addr = 16777343;
  sin_port = 10531;
}

abbrev empty : Limiter
empty = record { ipas = record { ct = 0; mem = 8; items = [] } }

abbrev one : Limiter
one = record {
  ipas = record { ct = 1; mem = 8; items = record { attempt_ts = seconds 10; host = host } ∷ [] };
}

empty-IsLimiter : IsLimiter empty
empty-IsLimiter = record {
  keyed = record {
    array = record { written = omega arith; fits = omega arith; room = omega arith };
    sorted = tt;
  };
  small = omega arith;
}

first_try : pcon_connect clock insertion (seconds 10) true empty host ≡ some (pos 0, one, true)
unfolding pcon_connect find_in bsearch bsearch_loop add_to_end check_and_realloc store sort_items
    sort_by insert_by
first_try = refl

pcon_connect-Tried_example : IsLimiter one × Tried one host (seconds 10)
pcon_connect-Tried_example =
    pcon_connect-Tried clock insertion (seconds 10) true empty host empty-IsLimiter (pos 0) one
      (omega arith) (inl refl) first_try

pcon_connect_twice_example :
    pcon_connect clock insertion (seconds 12) true one host ≡ some (pos 1, one, false)
pcon_connect_twice_example =
    pcon_connect_twice clock insertion (seconds 10) (seconds 12) true true empty host (pos 0) one
      empty-IsLimiter (omega arith) (inl refl) (omega arith) (omega arith) (omega arith) first_try
