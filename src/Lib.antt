-- ===== src/Lib.antt =====
-- p2p_vn joins hosts on the Internet into one virtual Ethernet. A host reads packets from its
-- virtual network device, sends them to the peers it is connected to, and forwards what those
-- send, by a table of paths that it computes from the links that all hosts announce.
--
-- The parts and the files that model them:
--   routing.c  the known hosts and links, with the tables made of them. `Paths` models the tables
--              `path` and `next` and the loops of `compute_paths` on the indices of the hosts;
--              `Forward` models how `rt_dhosts_to_host` reads them; `Routing` models `routing_t` with
--              its memory: `State` the data, `Hosts` finding and adding hosts and links, `Trim`
--              `trim_disjoint_hosts`, `Cache` `update_cache`, `Update` the calls that change the state
--              (`rt_dhost_add_link`, `rt_update_edges`, `rt_dhost_remove`) and `Query` the calls that
--              read it. `Routing/Table` says when this memory is in order: the hosts of the array are
--              sorted by address, no pointer of a host or link is freed, no copy of an address is
--              shared, and no link leads from a host to itself. Its children follow the calls
--              through such a memory, with every allocation granted, up to the update of the tables,
--              which is followed where no host has more links than there are hosts (`Untrimmed`).
--   dpg.c      the group of the connected peers, in `Dpg`.
--   pcon.c     the limiter of connection attempts, in `Pcon`.
--   dpeer.c    the threads that serve a peer, in `Dpeer`: the file itself the loop `dp_psend_data`, `Send`
--              the packets that go out, `Receive` the header that comes in, `World` the state and the
--              system, `Packets` `dp_recv_packet` and its handlers, `Threads` the loop of `dp_th`, and
--              `Starts` the three threads that lead to it and the calls that make them.
--   vnet.c     the virtual network device, in `Vnet`, and the thread that reads it, in `Vnet/Reader`.
--   sock.c     the options in `Program`, and the start in `Program/Start`.
--   pkt.c      with peer_proto.h and the byte order macros of util.h, in `Packet`.
--   darray.h   the growable arrays that hold hosts, links, edges, peers and attempts, in `DArray`.
--   stdparam.h the binary search that DEF_BSEARCH defines for each of these arrays, in `Search`.
-- `Base` has the shared names, list lemmas and what holds after a step that may fail (`Each`),
-- `Order` what a comparison function must satisfy and `memcmp`, and `Sorting` the `qsort` of the
-- C library.
--
-- How the code corresponds: a struct is a record with the fields' names, an `int` result is of
-- type `ℤ`, and a function that changes its argument returns the new value. A pointer into an
-- array is an index. A pointer to a host or an address is the number of the `malloc` call that
-- gave it, and the routing state maps these numbers to what stands there, so a step through a
-- freed pointer gives `none`, and so does a read of the tables through `rd->path` outside a row
-- (`Routing/Reads`). Unsigned integers are natural numbers with the wrap-around of the
-- code written out where an operation can reach it: the weights of 32 bits, the 64 bits of
-- `size_t` in the search and in the array macros, the 16 bits of a packet's length.
--
-- Parameters, since their code is not in the repository: `qsort` (`Sorting.Qsort`), the byte
-- order functions (`Packet.ByteOrder`), the macros of sys/time.h (`Pcon.Timers`), `send` on a
-- connection (`Dpeer.Socket`), `recv` with MSG_WAITALL (`Dpeer.Receive.Receiver`), the calls of
-- the system that a thread makes, by number (`Dpeer.World.World`), the results of `malloc` and
-- `realloc`, of taking a lock, of the time of day and of `getaddrinfo`.
--
-- Fuel: the search has one round more than the array has elements; the loop along a path has the
-- weight of the path and a round for each host; the send loop has a round more than there are
-- bytes. That this is enough is among the results. The loops of `compute_paths` are counted. A
-- thread runs for ever, so `dp_th` has a number of turns and says where the thread is after them.
--
-- A call that holds a lock throughout is one step, and one thread runs at a time: a peer's
-- thread has the state of the program to itself between its calls of the system. The peer to
-- whom a packet is sent is named by the address of its `remote_host`, and what is sent to it
-- is recorded with that. The blocks of memory that hand a thread its peer, and the epoll file
-- of a thread, are not followed. A `malloc` that fails in `Routing/Table`, and the hosts that
-- `trim_disjoint_hosts` trims, are outside its statements: the trimming frees another host
-- than the one it takes from the array. The appends to the two local arrays of
-- `rt_dhosts_to_host` are taken to succeed. Not modelled: `usage`, the names in log messages
-- and the debug output (debug.c), which only write to the terminal, and svect.h, which nothing
-- includes.
pub mod Base
pub mod Order
pub mod Search
pub mod Sorting
pub mod DArray
pub mod Packet
pub mod Dpg
pub mod Pcon
pub mod Vnet
pub mod Dpeer
pub mod Program
pub mod Routing
pub mod Paths
pub mod Forward
