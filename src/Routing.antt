-- ===== src/Routing.antt =====
-- routing.c and routing.h: the hosts that are known, the links between them and the tables made of
-- these. The children model the memory (`State`), the hosts and links (`Hosts`), the removal of hosts
-- (`Trim`), the tables and exported edges (`Cache`), the calls that change the state (`Update`) and
-- the query for the hosts to forward to (`Query`). `Table` is about memory in order, `Reads` the
-- reads of the tables, `Exported`, `Outside`, `Dangling` and `Locked` about the exported edges, the
-- reads outside the tables, the trimmed hosts and the read lock.
pub mod State
pub mod Reads
pub mod Hosts
pub mod Trim
pub mod Cache
pub mod Update
pub mod Query
pub mod Exported
pub mod Outside
pub mod Dangling
pub mod Locked
pub mod Table
mod Tests
