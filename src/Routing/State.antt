-- ===== src/Routing/State.antt =====
-- routing.h: the data of `routing_t`, with the memory that its pointers lead to. A pointer is the
-- number of the `malloc` call that gave it; a freed structure is `none`. `calls` counts the calls,
-- and `grants` of the children says which of them give memory.
-- A step through a pointer that may dangle: `none` is a memory fault.
pub use p2p_vn.Base.{◌>>=◌}
use p2p_vn.Base.{ℕ, Bool, false, Option, none, some, [], ℤ, pos, neg, is_neg, ◌==◌, if◌then◌else◌}
use p2p_vn.Packet.{Mac, Ipv4Host, PktEdge}
use p2p_vn.Paths.{Tables}
use p2p_vn.DArray.{DArray, da_init, da_destroy}

-- `struct _rt_link`
pub record RtLink : Type 0 where
  pub dst : ℕ
  pub rtt_us : ℕ
  pub ts_ms : ℕ

-- `enum host_type`
pub data HostType : Type 0 where
  ht_local ht_direct ht_normal : HostType

-- `struct _rt_host`
pub record RtHost : Type 0 where
  pub host : ℕ
  pub type : HostType
  pub l_max_ts_ms : ℕ
  pub links : DArray RtLink

-- `routing_t`, less its lock, with the memory. A call of `compute_paths` that failed may have left the
-- pointers `path` and `next` dangling.
pub record Routing : Type 0 where
  pub hosts : DArray ℕ
  pub own : ℕ
  pub m_ct : ℕ
  pub tables : Tables
  pub dangling : Bool
  pub edges : DArray PktEdge
  pub host_at : ℕ → Option RtHost
  pub ip_at : ℕ → Option Ipv4Host
  pub calls : ℕ

-- `m[p] = v`
abbrev pub update {ℓ} : {A : Type ℓ} → (ℕ → A) → ℕ → A → ℕ → A
update m p v q = if q == p then v else m q

-- `p->host->mac`; through a dangling pointer there stands the empty string, which is no address.
abbrev pub mac_in : (ℕ → Option RtHost) → (ℕ → Option Ipv4Host) → ℕ → Mac
mac_in host_at ip_at p = elim (host_at p) [
  | none ↦ []
  | some h ↦ elim (ip_at h.host) [ none ↦ [] | some ip ↦ ip.mac ]
]

abbrev pub mac_of : Routing → ℕ → Mac
mac_of rd p = mac_in rd.host_at rd.ip_at p

abbrev pub put_host : Routing → ℕ → RtHost → Routing
put_host rd p h = record rd { host_at = update rd.host_at p (some h) }

-- The structure before any call: no memory is in use.
abbrev pub blank : Routing
blank = record {
  hosts = record { ct = 0; mem = 0; items = [] };
  own = 0;
  m_ct = 0;
  tables = record { path = []; next = [] };
  dangling = false;
  edges = record { ct = 0; mem = 0; items = [] };
  host_at = λ p. none;
  ip_at = λ p. none;
  calls = 0;
}

-- `rt_init`; `lock` is the result of `pthread_rwlock_init`.
unfoldable pub rt_init : (grants : ℕ → Bool) (lock : ℤ) → ℤ × Routing
unfolding da_init
rt_init grants lock =
    if is_neg lock
    then (lock, blank)
    else let (no_hosts, hosts) = da_init (grants 0) 8 in
      let (no_edges, edges) = da_init (grants 1) 8 in
      if no_hosts then (neg 1, record blank { hosts = hosts; calls = 1 }) else (
        if no_edges then neg 2 else pos 0,
        record blank { hosts = hosts; edges = edges; calls = 2 },
      )

-- `rt_destroy`
unfoldable pub rt_destroy : Routing → Routing
unfolding da_destroy
rt_destroy rd = record rd { hosts = da_destroy rd.hosts; edges = da_destroy rd.edges }
