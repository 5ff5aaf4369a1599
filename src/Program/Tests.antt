-- ===== src/Program/Tests.antt =====
-- Runs of the options, and of the start of the program.
use p2p_vn.Base.{pos, none, true, ◌≡◌, refl, some, [], ◌∷◌, List}
use p2p_vn.Sorting.Insertion.{insertion, sort_by, insert_by}
use p2p_vn.Packet.{Ipv4Host}
use p2p_vn.Order.Bytes.{memcmp}
use p2p_vn.Search.{bsearch, bsearch_loop}
use p2p_vn.DArray.{da_init, add_to_end, check_and_realloc, store, sort_items}
use p2p_vn.DArray.Keyed.{find_in}
use p2p_vn.Routing.Hosts.{host_alloc, host_insert_unchecked, find_host_by_addr, host_cmp_addr}
use p2p_vn.Routing.State.{blank, update, ht_local}
use p2p_vn.Dpeer.World.{Node}
use p2p_vn.Program.Start.{System, init_routing, begin_with, begin, up}
use p2p_vn.Program.Up.{IsFirst, begin-IsFirst}
use p2p_vn.Program.{Chars, Opt, Settings, opt_e, opt_l, opt_v, defaults, settings_of, same_chars}
use p2p_vn.Program.Ports.{settings_of-ports}

abbrev port_7000 : Chars
port_7000 = 55 ∷ 48 ∷ 48 ∷ 48 ∷ []

abbrev port_7001 : Chars
port_7001 = 55 ∷ 48 ∷ 48 ∷ 49 ∷ []

abbrev host : Chars
host = 97 ∷ []

abbrev command_line : List Opt
command_line = opt_v ∷ opt_l port_7000 ∷ opt_e host ∷ opt_l port_7001 ∷ []

abbrev chosen : Settings
chosen = record defaults {
  debug = 1;
  ex_host = some host;
  ex_port = port_7000;
  peer_port = port_7000;
  listen_port = port_7001;
}

parsed : settings_of command_line ≡ some chosen
unfolding settings_of same_chars
parsed = refl

settings_of-ports_example :
    (chosen.ex_port ≡ port_7000) × (chosen.peer_port ≡ port_7000) × (chosen.listen_port ≡ port_7001)
unfolding same_chars
settings_of-ports_example =
    settings_of-ports command_line chosen (refl, (refl, (refl, (refl, tt)))) parsed

-- A system on which every call succeeds.
abbrev system : System
system = record {
  device = record {
    lock = pos 0;
    opened = pos 4;
    tun_set_iff = pos 0;
    get_hw_addr = pos 0;
    sa_data = 2 ∷ 0 ∷ 0 ∷ 0 ∷ 0 ∷ 9 ∷ [];
    random = λ n. n;
  };
  grants = λ n. true;
  dpg_lock = pos 0;
  dpg_granted = true;
  resolved = some (record { mac = []; sin_family = 2; s_addr = 16777343; sin_port = 9004 });
  rt_lock = pos 0;
  pcon_granted = true;
  pcon_lock = pos 0;
  reader_granted = true;
  attr_init = pos 0;
  detach = pos 0;
  create = pos 0;
  bound = record { ret = pos 0; fd = some (pos 5); sockets = pos 5 ∷ []; lists = 1 };
}

abbrev first_node : Node
first_node = record {
  rd = record blank {
    hosts = record { ct = 1; mem = 8; items = 2 ∷ [] };
    own = 2;
    edges = record { ct = 0; mem = 8; items = [] };
    host_at =
        update (λ p. none) 2
          (some (record {
            host = 99;
            type = ht_local;
            l_max_ts_ms = 0;
            links = record { ct = 0; mem = 8; items = [] };
          }));
    ip_at =
        update (λ p. none) 99
          (some (record {
            mac = 2 ∷ 0 ∷ 0 ∷ 0 ∷ 0 ∷ 9 ∷ [];
            sin_family = 2;
            s_addr = 16777343;
            sin_port = 9004;
          }));
    calls = 5;
  };
  dpg = record {
    dps = record { ct = 0; mem = 8; items = [] };
    l_addr = record { mac = []; sin_family = 2; s_addr = 16777343; sin_port = 9004 };
  };
  pc = record { ipas = record { ct = 0; mem = 8; items = [] } };
  vnet = record { fd = pos 4; mac = 2 ∷ 0 ∷ 0 ∷ 0 ∷ 0 ∷ 9 ∷ [] };
  sent = [];
  spawned = [];
  calls = 0;
}

abbrev me : Ipv4Host
me = record { mac = 2 ∷ 0 ∷ 0 ∷ 0 ∷ 0 ∷ 9 ∷ []; sin_family = 2; s_addr = 16777343; sin_port = 9004 }

routed : init_routing insertion system 99 me ≡ some (pos 0, first_node.rd)
unfolding init_routing host_alloc host_insert_unchecked find_host_by_addr find_in bsearch
    bsearch_loop add_to_end check_and_realloc store sort_items host_cmp_addr sort_by insert_by
    da_init memcmp
routed = refl

begun : begin insertion system 99 ≡ some (up first_node)
unfolding begin begin_with
begun = rw (routed, begin, begin_with) refl

begin-IsFirst_example : IsFirst 99 first_node
begin-IsFirst_example = begin-IsFirst insertion system 99 first_node begun
