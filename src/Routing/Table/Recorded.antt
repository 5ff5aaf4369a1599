-- ===== src/Routing/Table/Recorded.antt =====
-- routing.c: memory in order stays so where the tables, the edges or the local host are others.
use p2p_vn.Base.{ℕ, ◌≤◌, refl, arith}
use p2p_vn.Packet.{PktEdge}
use p2p_vn.Paths.{Tables}
use p2p_vn.Sorting.Keys.{All-map}
use p2p_vn.DArray.{DArray, live}
use p2p_vn.Routing.State.{Routing}
use p2p_vn.Routing.Table.{Keeps, Fit, Keeps-of, IsKeyed-Keeps, IsHost-Keeps}

-- Other tables and edges, and perhaps calls more.
pub recorded-Fit :
    (more : ℕ) (rd : Routing) (m_ct n : ℕ) (tables : Tables) (edges : DArray PktEdge)
    → rd.calls ≤ n
    → Fit more rd
    → let rd' : Routing = record rd { m_ct = m_ct; tables = tables; edges = edges; calls = n } in
      Fit more rd' × Keeps rd rd'
recorded-Fit more rd m_ct n tables edges later f =
    let rd' : Routing = record rd { m_ct = m_ct; tables = tables; edges = edges; calls = n } in
    let keeps : Keeps rd rd' =
      Keeps-of rd rd' (λ p a.
        (record { host = a.host; ip = a.ip; points = a.points; stands = a.stands }, refl)) in
    (
      record {
        table = record {
          keyed = IsKeyed-Keeps rd rd' keeps rd.hosts f.table.alive f.table.keyed;
          alive = All-map _ _ (live rd.hosts) keeps.alive f.table.alive;
          each = λ p h e. IsHost-Keeps rd rd' keeps p h (f.table.each p h e);
          whole = f.table.whole;
          unused = λ p le. f.table.unused p (omega arith);
          old = λ p h e. let lt = f.table.old p h e in omega arith;
          copies = f.table.copies;
        };
        room = record { hosts = f.room.hosts; links = f.room.links };
      },
      keeps,
    )

-- Another local host.
pub owned-Fit :
    (more : ℕ) (rd : Routing) (own : ℕ)
    → Fit more rd
    → let rd' : Routing = record rd { own = own } in Fit more rd' × Keeps rd rd'
owned-Fit more rd own f =
    let rd' : Routing = record rd { own = own } in
    let keeps : Keeps rd rd' =
      Keeps-of rd rd' (λ p a.
        (record { host = a.host; ip = a.ip; points = a.points; stands = a.stands }, refl)) in
    (
      record {
        table = record {
          keyed = IsKeyed-Keeps rd rd' keeps rd.hosts f.table.alive f.table.keyed;
          alive = All-map _ _ (live rd.hosts) keeps.alive f.table.alive;
          each = λ p h e. IsHost-Keeps rd rd' keeps p h (f.table.each p h e);
          whole = f.table.whole;
          unused = f.table.unused;
          old = f.table.old;
          copies = f.table.copies;
        };
        room = record { hosts = f.room.hosts; links = f.room.links };
      },
      keeps,
    )
