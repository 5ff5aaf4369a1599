-- ===== src/Program/Ports.antt =====
-- The ports that the options come to.
use p2p_vn.Base.{
  ◌≡◌, inl, inr, refl, sym, ap, ◌∙◌, arith, Bool, true, false, Bool-cases, Option-cases, none, some,
  ◌+◌, List, [], ◌∷◌, ◌==◌, ==→eq, if◌then◌else◌, All,
}
use p2p_vn.Program.{
  Chars, Settings, Opt, opt_v, opt_i, opt_e, opt_E, opt_r, opt_R, opt_l, opt_Q, unknown, same_chars,
  default_port_str, defaults, follow_listen, set_option, set_options, settings_of,
}

-- The arguments of -l, in order.
abbrev pub listens : List Opt → List Chars
listens [] = []
listens (opt_l optarg ∷ os) = optarg ∷ listens os
listens (_ ∷ os) = listens os

-- Neither -E nor -R.
abbrev pub sets_no_port : Opt → Bool
sets_no_port (opt_E optarg) = false
sets_no_port (opt_R optarg) = false
sets_no_port _ = true

-- The first of the ports that is not the default one.
abbrev pub first_other : List Chars → Chars
first_other [] = default_port_str
first_other (port ∷ ports) = if same_chars port default_port_str then first_other ports else port

abbrev pub last_of : Chars → List Chars → Chars
last_of port [] = port
last_of port (next ∷ ports) = last_of next ports

-- What a port comes to that only -l changes.
abbrev settled : Chars → List Chars → Chars
settled port ports = if same_chars port default_port_str then first_other ports else port

same_chars→eq : (s t : Chars) → same_chars s t ≡ true → s ≡ t
unfolding same_chars
same_chars→eq [] [] h = refl
same_chars→eq [] (c ∷ t) h = absurd (ground arith)
same_chars→eq (c ∷ s) [] h = absurd (ground arith)
same_chars→eq (c ∷ s) (d ∷ t) h = elim (Bool-cases (c == d)) [
  | inl e ↦
      let rest : same_chars s t ≡ true = rw e at h in
      let same = ==→eq c d e in let tails = same_chars→eq s t rest in cc
  | inr e ↦ let f : false ≡ true = rw e at h in absurd (ground arith)
]

settled_end : (port : Chars) → port ≡ settled port []
settled_end port = elim (Bool-cases (same_chars port default_port_str)) [
  | inl e ↦ rw e (same_chars→eq port default_port_str e)
  | inr e ↦ rw e refl
]

settled_follow :
    (port optarg : Chars) (ports : List Chars)
    → settled (follow_listen port optarg) ports ≡ settled port (optarg ∷ ports)
settled_follow port optarg ports = elim (Bool-cases (same_chars port default_port_str)) [
  | inl e ↦ rw e refl
  | inr e ↦ rw (e, e) refl
]

abbrev Ported : Settings → List Opt → Settings → Type 0
Ported s os s' =
    (s'.ex_port ≡ settled s.ex_port (listens os))
    × (s'.peer_port ≡ settled s.peer_port (listens os))
    × (s'.listen_port ≡ last_of s.listen_port (listens os))

set_options-Ported :
    (os : List Opt) (s s' : Settings)
    → All (λ o. sets_no_port o ≡ true) os
    → set_options s os ≡ some s'
    → Ported s os s'
unfolding set_options set_option
set_options-Ported [] s s' a run =
    let same : s ≡ s' = ground arith in
    (
      ap (λ (z : Settings). z.ex_port) (sym same) ∙ settled_end s.ex_port,
      ap (λ (z : Settings). z.peer_port) (sym same) ∙ settled_end s.peer_port,
      ap (λ (z : Settings). z.listen_port) (sym same),
    )
set_options-Ported (opt_v ∷ os) s s' a run =
    set_options-Ported os (record s { debug = s.debug + 1 }) s' a.1 run
set_options-Ported (opt_i optarg ∷ os) s s' a run =
    set_options-Ported os (record s { tap_if = optarg }) s' a.1 run
set_options-Ported (opt_e optarg ∷ os) s s' a run =
    set_options-Ported os (record s { ex_host = some optarg }) s' a.1 run
set_options-Ported (opt_E optarg ∷ os) s s' a run = let h = a.0 in absurd (ground arith)
set_options-Ported (opt_r optarg ∷ os) s s' a run =
    set_options-Ported os (record s { peer_host = some optarg }) s' a.1 run
set_options-Ported (opt_R optarg ∷ os) s s' a run = let h = a.0 in absurd (ground arith)
set_options-Ported (opt_l optarg ∷ os) s s' a run =
    let (ex, peer, listen) =
      set_options-Ported os
        (record s {
          listen_port = optarg;
          ex_port = follow_listen s.ex_port optarg;
          peer_port = follow_listen s.peer_port optarg;
        })
        s' a.1 run in
    (
      ex ∙ settled_follow s.ex_port optarg (listens os),
      peer ∙ settled_follow s.peer_port optarg (listens os),
      listen,
    )
set_options-Ported (opt_Q optarg ∷ os) s s' a run =
    set_options-Ported os (record s { enc_key = some optarg }) s' a.1 run
set_options-Ported (unknown ∷ os) s s' a run = absurd (ground arith)

-- For a command line that is accepted and has neither -E nor -R: the external port and the port of
-- the peer are the first port given with -l that is not the default one, or the default if there
-- is none, and the listen port is the last one given.
pub settings_of-ports :
    (os : List Opt) (s : Settings)
    → All (λ o. sets_no_port o ≡ true) os
    → settings_of os ≡ some s
    → (s.ex_port ≡ first_other (listens os))
      × (s.peer_port ≡ first_other (listens os))
      × (s.listen_port ≡ last_of default_port_str (listens os))
unfolding settings_of same_chars
settings_of-ports os s a run = elim (Option-cases (set_options defaults os)) [
  | inl e ↦ let f : none ≡ some s = rw e at run in absurd (ground arith)
  | inr (s', e) ↦ elim (Option-cases s'.ex_host) [
    | inl no_host ↦ let f : none ≡ some s = rw (e, no_host) at run in absurd (ground arith)
    | inr (host, f) ↦
        let same : some s' ≡ some s = rw (e, f) at run in
        let s'≡s : s' ≡ s = ground arith in set_options-Ported os defaults s a (rw (sym s'≡s) e)
  ]
]
