-- ===== src/Routing/Table/Entered.antt =====
-- routing.c: the rounds of `rt_update_edges` on memory in order, where every allocation is granted.
use p2p_vn.Base.{
  ℕ, suc, ◌^◌, ◌<◌, ◌≡◌, ◌≢◌, inl, inr, refl, sym, ◌∙◌, arith, Bool, true, false, not, ◌&&◌,
  Bool-cases, Option, some, Option-cases, pos, ltb,
}
use p2p_vn.Packet.{Mac, Ipv4Host, ByteOrder}
use p2p_vn.Sorting.{Qsort}
use p2p_vn.Routing.State.{Routing, RtHost, ◌>>=◌, mac_of}
use p2p_vn.Routing.Update.{
  same_mac, is_local, Scan, Turn, linked, passed_over, new_source, enter_source, add_edge,
}
use p2p_vn.Routing.Table.{Alive, Fit, Fit-less, Step, Step-self, Step-trans}
use p2p_vn.Routing.Table.Scanned.{IsScan, Known, IsScan-at, and_true, same_mac→eq}
use p2p_vn.Routing.Table.Lookup.{find_host-cases}
use p2p_vn.Routing.Table.Changed.{replaced, replaced-Step}
use p2p_vn.Routing.Table.Added.{add_copy-Adds}
use p2p_vn.Routing.Table.Linked.{link_add-Step}

-- What the test of the source leaves: the edge is to join the host of its source, or is passed over;
-- either way a host has the address of the source.
pub data Entered (more : ℕ) (rd : Routing) (mac : Mac)
    : Option (Turn × Routing × Scan) → Type 0 where
  joins :
      (rd' : Routing) (sc : Scan) (h : ℕ)
      → Step more rd rd'
      → IsScan rd' sc
      → sc.cur_host_src ≡ some h
      → mac_of rd' h ≡ mac
      → Entered more rd mac (some (linked, rd', sc))
  passes :
      (rd' : Routing) (sc : Scan)
      → Step more rd rd'
      → IsScan rd' sc
      → Known rd' mac
      → Entered more rd mac (some (passed_over, rd', sc))

module _ (grants : ℕ → Bool) (qs : Qsort) (order : ByteOrder)
    (given : (n : ℕ) → grants n ≡ true) where
  at_most : (more : ℕ) (rd : Routing) → Fit (suc more) rd → rd.hosts.ct < 2 ^ 60
  at_most more rd f = let lt = f.room.hosts.ct_lt in omega arith

  -- The links of a host are wiped.
  wiped-Step :
      (more : ℕ) (rd : Routing) (p : ℕ) (h : RtHost) (e : rd.host_at p ≡ some h)
      → Fit (suc more) rd
      → Step more rd (
          replaced rd p rd.calls h
            (record h { links = record h.links { ct = 0 } })
            e
            refl
            refl
            (omega arith))
  wiped-Step more rd p h e f =
      let host = f.table.each p h e in
      let small = f.room.links p h e in
      replaced-Step rd p rd.calls h (record h { links = record h.links { ct = 0 } }) e refl refl
        (omega arith) more (Fit-less more rd f)
        (record {
          self = host.self;
          array = record { written = omega arith; fits = host.array.fits; room = host.array.room };
          dsts = tt;
        })
        (record { ct_lt = (let lt = small.ct_lt in omega arith); mem_lt = small.mem_lt })

  new_source-Entered :
      (more : ℕ) (rd : Routing) (src : Ipv4Host) (ts_ms : ℕ)
      → Fit (suc more) rd
      → Entered more rd src.mac (new_source grants qs order rd src ts_ms)
  unfolding new_source
  new_source-Entered more rd src ts_ms f =
      elim (find_host-cases rd src.mac f.table (at_most more rd f)) [
        | inr (e, fresh) ↦
            let (rd', run, step, alive, mac) =
              add_copy-Adds grants qs given rd order more src f fresh in
            rw (e, run, new_source, ◌>>=◌)
              (joins rd'
                (record { cur_ip_src = src; cur_host_src = some rd.calls; cont_to_new_src = false })
                rd.calls step (IsScan-at rd' src rd.calls false alive mac) refl mac)
        | inl (i, e, v) ↦
            let h : RtHost = v.alive.host in
            elim (Bool-cases (not (is_local h.type) && ltb h.l_max_ts_ms ts_ms)) [
              | inl newer ↦
                  let step = wiped-Step more rd v.at h v.alive.points f in
                  rw (e, v.reads, v.alive.points, newer, new_source, ◌>>=◌)
                    (joins _
                      (record {
                        cur_ip_src = src;
                        cur_host_src = some v.at;
                        cont_to_new_src = false;
                      })
                      v.at step
                      (IsScan-at _ src v.at false (step.keeps.alive v.at v.alive)
                        (step.keeps.mac v.at v.alive ∙ v.same))
                      refl (step.keeps.mac v.at v.alive ∙ v.same))
              | inr older ↦
                  rw (e, v.reads, v.alive.points, older, new_source, ◌>>=◌)
                    (passes rd
                      (record {
                        cur_ip_src = src;
                        cur_host_src = some v.at;
                        cont_to_new_src = true;
                      })
                      (Step-self more rd (Fit-less more rd f))
                      (IsScan-at rd src v.at true v.alive v.same)
                      (record { at = v.at; alive = v.alive; same = v.same }))
            ]
      ]

  pub enter_source-Entered :
      (more : ℕ) (rd : Routing) (sc : Scan) (src : Ipv4Host) (ts_ms : ℕ)
      → Fit (suc more) rd
      → IsScan rd sc
      → Entered more rd src.mac (enter_source grants qs order rd sc src ts_ms)
  unfolding enter_source
  enter_source-Entered more rd sc src ts_ms f v =
      let stays : Step more rd rd = Step-self more rd (Fit-less more rd f) in
      let fresh = new_source-Entered more rd src ts_ms f in
      elim (Bool-cases (sc.cont_to_new_src && same_mac src.mac sc.cur_ip_src.mac)) [
        | inl over ↦
            let (cont, same) = and_true _ _ over in
            let (h, e) = v.stands cont in
            rw (over, enter_source)
              (passes rd sc stays v (record {
                at = h;
                alive = v.alive h e;
                same = v.mac h e ∙ sym (same_mac→eq _ _ same);
              }))
        | inr on ↦ elim (Option-cases sc.cur_host_src) [
          | inl e ↦ rw (on, e, enter_source) fresh
          | inr (h, e) ↦ elim (Bool-cases (same_mac src.mac sc.cur_ip_src.mac)) [
            | inl same ↦
                rw (on, e, same, enter_source)
                  (joins rd (record sc { cont_to_new_src = false }) h stays
                    (record { alive = v.alive; mac = v.mac; stands = λ c. cc }) e
                    (v.mac h e ∙ sym (same_mac→eq _ _ same)))
            | inr new ↦ rw (on, e, new, enter_source) fresh
          ]
        ]
      ]

  -- `rt_update_edges`, from the search for the destination on.
  pub add_edge-Step :
      (more : ℕ) (rd : Routing) (h : ℕ) (dst : Ipv4Host) (rtt_us ts_ms : ℕ)
      → Fit (suc (suc more)) rd
      → Alive rd h
      → dst.mac ≢ mac_of rd h
      → rtt_us < 2 ^ 32
      → (rd' : Routing) × (add_edge grants qs order rd (some h) dst rtt_us ts_ms
          ≡ some (pos 0, rd'))
        × Step more rd rd'
  unfolding add_edge
  add_edge-Step more rd h dst rtt_us ts_ms f a other narrow =
      elim (find_host-cases rd dst.mac f.table (at_most (suc more) rd f)) [
        | inr (e, fresh) ↦
            let (rd₁, run, step, alive, mac) =
              add_copy-Adds grants qs given rd order (suc more) dst f fresh in
            let (rd₂, added, last) =
              link_add-Step grants qs given rd₁ more h rd.calls rtt_us ts_ms step.fit
                (step.keeps.alive h a) alive (λ q. other (sym mac ∙ q ∙ step.keeps.mac h a))
                narrow in
            (
              rd₂,
              rw (e, run, added, add_edge, ◌>>=◌) refl,
              Step-trans (suc more) more rd rd₁ rd₂ step last,
            )
        | inl (i, e, v) ↦
            let (rd₂, added, last) =
              link_add-Step grants qs given rd more h v.at rtt_us ts_ms (Fit-less (suc more) rd f) a
                v.alive (λ q. other (sym v.same ∙ q)) narrow in
            (rd₂, rw (e, v.reads, added, add_edge, ◌>>=◌) refl, last)
      ]
