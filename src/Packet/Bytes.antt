-- ===== src/Packet/Bytes.antt =====
-- Integers and arrays in the memory of a little-endian machine, which is what goes over a connection.
use p2p_vn.Base.{
  ℕ, zero, suc, ◌+◌, ◌*◌, ◌/◌, ◌%◌, ◌≡◌, refl, ap, arith, Option, none, some, ◌>>=◌, List, [], ◌∷◌,
  ◌++◌, length,
}

unfoldable pub le_bytes : (width value : ℕ) → List ℕ
le_bytes zero value = []
le_bytes (suc width) value = value % 256 ∷ le_bytes width (value / 256)

-- The integer at the front, and what follows; `none` is a read past the end.
unfoldable pub read_le : (width : ℕ) → List ℕ → Option (ℕ × List ℕ)
read_le zero bs = some (0, bs)
read_le (suc width) [] = none
read_le (suc width) (b ∷ bs) = do (high, rest) ← read_le width bs; some (b + 256 * high, rest)

-- The array of `n` bytes at the front, and what follows.
unfoldable pub read_bytes : (n : ℕ) → List ℕ → Option (List ℕ × List ℕ)
read_bytes zero bs = some ([], bs)
read_bytes (suc n) [] = none
read_bytes (suc n) (b ∷ bs) = do (front, rest) ← read_bytes n bs; some (b ∷ front, rest)

-- The value has no more than `width` bytes.
abbrev pub Fits : (width value : ℕ) → Type 0
Fits zero value = value ≡ 0
Fits (suc width) value = Fits width (value / 256)

pub read_le-le_bytes :
    (width value : ℕ) (rest : List ℕ)
    → Fits width value
    → read_le width (le_bytes width value ++ rest) ≡ some (value, rest)
unfolding read_le le_bytes
read_le-le_bytes zero value rest h = ground arith
read_le-le_bytes (suc width) value rest h =
    rw (read_le-le_bytes width (value / 256) rest h) (ap (λ v. some (v, rest)) (omega arith))

pub length-le_bytes : (width value : ℕ) → length (le_bytes width value) ≡ width
unfolding le_bytes
length-le_bytes zero value = refl
length-le_bytes (suc width) value = ap suc (length-le_bytes width (value / 256))

pub read_bytes-append : (xs rest : List ℕ) → read_bytes (length xs) (xs ++ rest) ≡ some (xs, rest)
unfolding read_bytes
read_bytes-append [] rest = refl
read_bytes-append (x ∷ xs) rest = rw (read_bytes-append xs rest) refl
