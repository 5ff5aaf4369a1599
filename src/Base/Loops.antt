-- ===== src/Base/Loops.antt =====
-- Counted loops, and the one rule by which their invariants are proved.
use Prim.Native.Nat.{ℕ, zero, suc, ◌+◌, ◌<◌}
use mathlib.Core.Path.{◌≡◌, subst}
use native.Mathlib.Omega.{arith}

-- `for (x = first; x < first + rounds; x++) s = body(x, s)`
unfoldable pub count_up {ℓ} : {S : Type ℓ} → (ℕ → S → S) → (rounds first : ℕ) → S → S
count_up body zero first s = s
count_up body (suc rounds) first s = count_up body rounds (first + 1) (body first s)

-- An invariant indexed by the loop counter, kept by each round below the bound, holds at the bound.
pub count_up_inv {ℓ κ} :
    {S : Type ℓ} (P : ℕ → S → Type κ) (body : ℕ → S → S) (bound : ℕ)
    → ((x : ℕ) (s : S) → x < bound → P x s → P (suc x) (body x s))
    → (rounds first : ℕ) (s : S) → first + rounds ≡ bound
    → P first s
    → P bound (count_up body rounds first s)
unfolding count_up
count_up_inv P body bound keep zero first s e h =
    let e' : first ≡ bound = omega arith in subst (λ k. P k s) e' h
count_up_inv P body bound keep (suc rounds) first s e h =
    let next : suc first ≡ first + 1 = omega arith in
    count_up_inv P body bound keep rounds (first + 1) (body first s) (omega arith)
      (subst (λ k. P k (body first s)) next (keep first s (omega arith) h))
