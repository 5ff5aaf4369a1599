-- ===== src/Base/Steps.antt =====
-- What holds of every value that a step may give.
use mathlib.Core.Bool.{Bool, true, false}
use mathlib.Core.Option.{Option, none, some}
use p2p_vn.Base.Options.{◌>>=◌}
use p2p_vn.Base.Tests.{if◌then◌else◌}

-- What holds of the value, if there is one.
abbrev pub EachAt {ℓ κ} : {A : Type ℓ} → (A → Type κ) → Option A → Type κ
EachAt P none = Unit
EachAt P (some a) = P a

pub record Each {ℓ κ} {A : Type ℓ} (P : A → Type κ) (o : Option A) : Type κ where
  pub each : EachAt P o

pub bind-Each {ℓ κ λ₁} :
    {A : Type ℓ} {B : Type κ} {P : B → Type λ₁} {k : A → Option B} (m : Option A)
    → ((a : A) → Each P (k a))
    → Each P (m >>= k)
bind-Each none h = record { each = tt }
bind-Each (some a) h = h a

pub if-Each {ℓ κ} :
    {A : Type ℓ} {P : A → Type κ} {x y : Option A} (b : Bool)
    → Each P x
    → Each P y
    → Each P (if b then x else y)
if-Each true hx hy = hx
if-Each false hx hy = hy

pub then-Each {ℓ κ λ₁ μ} :
    {A : Type ℓ} {B : Type κ} {Q : A → Type λ₁} {P : B → Type μ} (m : Option A) {k : A → Option B}
    → Each Q m
    → ((a : A) → Q a → Each P (k a))
    → Each P (m >>= k)
then-Each none q h = record { each = tt }
then-Each (some a) q h = h a q.each
