-- ===== src/Program.antt =====
-- sock.c: the options of the command line, and the start of the program. A string is a list of its
-- bytes.
pub mod Start
pub mod Ports
pub mod Up
mod Tests
use p2p_vn.Base.{
  ℕ, zero, suc, ◌+◌, Bool, true, false, Option, none, some, ◌>>=◌, List, [], ◌∷◌, ◌==◌, ◌&&◌,
  if◌then◌else◌,
}

-- A string without its final zero.
abbrev pub Chars : Type 0
Chars = List ℕ

-- `!strcmp(s, t)`
unfoldable pub same_chars : Chars → Chars → Bool
same_chars [] [] = true
same_chars [] (c ∷ t) = false
same_chars (c ∷ s) [] = false
same_chars (c ∷ s) (d ∷ t) = let rest = same_chars s t in if c == d then rest else false

-- DEFAULT_PORT_STR, "9004"
abbrev pub default_port_str : Chars
default_port_str = 57 ∷ 48 ∷ 48 ∷ 52 ∷ []

-- The variables of `main` that the options set.
pub record Settings : Type 0 where
  pub debug : ℕ
  pub tap_if : Chars
  pub ex_host : Option Chars
  pub ex_port : Chars
  pub peer_host : Option Chars
  pub peer_port : Chars
  pub listen_port : Chars
  pub enc_key : Option Chars

-- Their first values; `tap_if` is "tap5".
abbrev pub defaults : Settings
defaults = record {
  debug = 0;
  tap_if = 116 ∷ 97 ∷ 112 ∷ 53 ∷ [];
  ex_host = none;
  ex_port = default_port_str;
  peer_host = none;
  peer_port = default_port_str;
  listen_port = default_port_str;
  enc_key = none;
}

-- What `getopt` returns for one option of the string "vQ:i:e:E:r:R:l:h", with `optarg`. Every other
-- result, -h included, is `unknown`.
pub data Opt : Type 0 where
  opt_v : Opt
  opt_i : Chars → Opt
  opt_e : Chars → Opt
  opt_E : Chars → Opt
  opt_r : Chars → Opt
  opt_R : Chars → Opt
  opt_l : Chars → Opt
  opt_Q : Chars → Opt
  unknown : Opt

-- A port that still has its default value follows the listen port.
abbrev pub follow_listen : (port optarg : Chars) → Chars
follow_listen port optarg = if same_chars port default_port_str then optarg else port

-- One turn of the loop over the options; `none` is `usage`, which ends the program.
unfoldable pub set_option : Settings → Opt → Option Settings
unfolding same_chars
set_option s opt_v = some (record s { debug = s.debug + 1 })
set_option s (opt_i optarg) = some (record s { tap_if = optarg })
set_option s (opt_e optarg) = some (record s { ex_host = some optarg })
set_option s (opt_E optarg) = some (record s { ex_port = optarg })
set_option s (opt_r optarg) = some (record s { peer_host = some optarg })
set_option s (opt_R optarg) = some (record s { peer_port = optarg })
set_option s (opt_l optarg) = some (record s {
  listen_port = optarg;
  ex_port = follow_listen s.ex_port optarg;
  peer_port = follow_listen s.peer_port optarg;
})
set_option s (opt_Q optarg) = some (record s { enc_key = some optarg })
set_option s unknown = none

-- The loop over the options.
unfoldable pub set_options : Settings → List Opt → Option Settings
unfolding set_option
set_options s [] = some s
set_options s (o ∷ os) = do s' ← set_option s o; set_options s' os

-- `main` up to its first call: without -e the program ends with `usage`.
unfoldable pub settings_of : List Opt → Option Settings
unfolding set_options
settings_of os = do s ← set_options defaults os; elim s.ex_host [ none ↦ none | some host ↦ some s ]
