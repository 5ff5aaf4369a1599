-- ===== src/Dpeer/Whole.antt =====
-- `dp_psend_data` sends the whole buffer, or fails having sent the front of it.
use mathlib.Core.List.{append_assoc, append-nil}
use p2p_vn.Base.{
  ℕ, zero, suc, ◌<◌, ◌≡◌, ◌≢◌, ◌⊎◌, inl, inr, refl, sym, ap, ◌∙◌, arith, Bool-cases, ==→eq, ==→ne,
  Option-cases, some, List, [], ◌∷◌, ◌++◌, ℤ, pos, neg, ◌==◌, length, take, drop,
}
use p2p_vn.DArray.Keyed.{take-drop}
use p2p_vn.Dpeer.{Socket, dp_psend_data}

abbrev pub IsSent : List ℕ → ℤ × List ℕ → Type 0
IsSent buf r =
    ((r.0 ≡ pos 0) × (r.1 ≡ buf)) ⊎ ((r.0 ≡ neg 1) × ((rest : List ℕ) × (r.1 ++ rest ≡ buf)))

length-drop : (n : ℕ) (xs : List ℕ) → 0 < n → 0 < length xs → length (drop n xs) < length xs
length-drop zero xs h k = absurd (omega arith)
length-drop (suc n) [] h k = absurd (omega arith)
length-drop (suc zero) (x ∷ xs) h k = omega arith
length-drop (suc (suc n)) (x ∷ []) h k = omega arith
length-drop (suc (suc n)) (x ∷ y ∷ xs) h k =
    omega (arith, length-drop (suc n) (y ∷ xs) (omega arith) (omega arith))

length-drop_nil : (n : ℕ) (xs : List ℕ) → xs ≡ [] → length (drop n xs) ≡ 0
length-drop_nil zero xs e = ap length e
length-drop_nil (suc n) xs e = ap (λ l. length (drop (suc n) l)) e

IsSent-after :
    (front rem buf : List ℕ) (r : ℤ × List ℕ)
    → front ++ rem ≡ buf
    → IsSent rem r
    → IsSent buf (r.0, front ++ r.1)
IsSent-after front rem buf r e (inl (c, b)) = inl (c, ap (λ l. front ++ l) b ∙ e)
IsSent-after front rem buf r e (inr (c, (rest, b))) =
    inr (c, (rest, append_assoc front r.1 rest ∙ ap (λ l. front ++ l) b ∙ e))

length-zero : (xs : List ℕ) → length xs ≡ 0 → xs ≡ []
length-zero [] e = refl
length-zero (x ∷ xs) e = absurd (omega arith)

-- What remains after a call is less than what there was.
rem-shorter :
    (s : Socket) (call n : ℕ) (buf : List ℕ)
    → s.send call (length buf) ≡ some n
    → length (drop n buf) ≢ 0
    → length (drop n buf) < length buf
rem-shorter s call n [] e ne = absurd (ne (length-drop_nil n [] refl))
rem-shorter s call n (x ∷ xs) e ne =
    length-drop n (x ∷ xs) (s.send-pos call (length (x ∷ xs)) n e (omega arith)) (omega arith)

-- With more fuel than bytes to send, `dp_psend_data` returns: with 0 and exactly the bytes of the
-- buffer sent, or with -1 and a front part of them sent.
pub dp_psend_data-IsSent :
    (fuel : ℕ) (s : Socket) (call : ℕ) (buf : List ℕ)
    → length buf < fuel
    → (r : ℤ × List ℕ) × (dp_psend_data fuel s call buf ≡ some r) × IsSent buf r
unfolding dp_psend_data
dp_psend_data-IsSent zero s call buf h = absurd (omega arith)
dp_psend_data-IsSent (suc fuel) s call buf h = elim (Option-cases (s.send call (length buf))) [
  | inl e ↦ ((neg 1, []), rw (e, dp_psend_data) refl, inr (refl, (buf, refl)))
  | inr (n, e) ↦ elim (Bool-cases (length (drop n buf) == 0)) [
    | inl f ↦
        let end = length-zero (drop n buf) (==→eq _ 0 f) in
        (
          (pos 0, take n buf),
          rw (e, f, dp_psend_data) refl,
          inl (
            refl,
            sym (append-nil (take n buf)) ∙ ap (λ l. take n buf ++ l) (sym end) ∙ take-drop n buf,
          ),
        )
    | inr f ↦
        let less = rem-shorter s call n buf e (==→ne _ 0 f) in
        let (r, run, sent) =
          dp_psend_data-IsSent fuel s (suc call) (drop n buf) (omega (arith, less)) in
        (
          (r.0, take n buf ++ r.1),
          rw (e, f, run, dp_psend_data) refl,
          IsSent-after (take n buf) (drop n buf) buf r (take-drop n buf) sent,
        )
  ]
]
