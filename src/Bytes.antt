-- ===== src/Bytes.antt =====
-- Fixed-width unsigned integers and byte slices: `to_le_bytes`, `from_le_bytes`,
-- `copy_from_slice` into a sub-range, sub-slices, `try_into` an array.
-- A byte is a number below 256, a slice is a list of them.
use native.Mathlib.Nat.{pow-suc}
use iog.Prelude.{
  ℕ, zero, suc, ◌+◌, ◌-◌, ◌*◌, ◌/◌, ◌%◌, ◌^◌, ◌<◌, ◌≡◌, refl, ap, Option, none, some, List, [], ◌∷◌,
  arith, if◌then◌else◌, ◌==◌, length, take, drop, All,
}

abbrev pub IsByte : ℕ → Type 0
IsByte b = b < 256

-- `x as u16` and `u64` additions, which wrap in the release profile.
abbrev pub as_u16 : ℕ → ℕ
as_u16 n = n % 2 ^ 16

unfoldable pub add_u64 : ℕ → ℕ → ℕ
add_u64 a b = (a + b) % 2 ^ 64

-- The width in bytes comes first.
unfoldable pub to_le_bytes : ℕ → ℕ → List ℕ
to_le_bytes zero v = []
to_le_bytes (suc k) v = (v % 256) ∷ to_le_bytes k (v / 256)

unfoldable pub from_le_bytes : List ℕ → ℕ
from_le_bytes [] = 0
from_le_bytes (b ∷ bs) = b + 256 * from_le_bytes bs

-- `dst[at..at + src.len()].copy_from_slice(src)`, for a range inside `dst`.
unfoldable pub copy_at : ℕ → List ℕ → List ℕ → List ℕ
copy_at zero [] dst = dst
copy_at zero (b ∷ src) [] = []
copy_at zero (b ∷ src) (d ∷ dst) = b ∷ copy_at zero src dst
copy_at (suc i) src [] = []
copy_at (suc i) src (d ∷ dst) = d ∷ copy_at i src dst

-- `xs[lo..hi]`, for a range inside `xs`.
unfoldable pub slice : ℕ → ℕ → List ℕ → List ℕ
slice lo hi xs = take (hi - lo) (drop lo xs)

-- `xs.try_into().ok()` at `[u8; n]`.
unfoldable pub to_array : ℕ → List ℕ → Option (List ℕ)
to_array n xs = if length xs == n then some xs else none

pub from_le_bytes-to_le_bytes : (k v : ℕ) → v < 256 ^ k → from_le_bytes (to_le_bytes k v) ≡ v
unfolding from_le_bytes to_le_bytes
from_le_bytes-to_le_bytes zero v h = omega arith
from_le_bytes-to_le_bytes (suc k) v h =
    omega (arith, from_le_bytes-to_le_bytes k (v / 256) (below k v h))
  where
    below : (k v : ℕ) → v < 256 ^ suc k → v / 256 < 256 ^ k
    below k v h = omega arith

pub to_le_bytes-from_le_bytes :
    (bs : List ℕ) → All IsByte bs → to_le_bytes (length bs) (from_le_bytes bs) ≡ bs
unfolding from_le_bytes to_le_bytes
to_le_bytes-from_le_bytes [] h = refl
to_le_bytes-from_le_bytes (b ∷ bs) h =
    let low : (b + 256 * from_le_bytes bs) % 256 ≡ b = omega arith in
    let high : (b + 256 * from_le_bytes bs) / 256 ≡ from_le_bytes bs = omega arith in
    ground (arith, low, high, to_le_bytes-from_le_bytes bs h.1)

pub length-to_le_bytes : (k v : ℕ) → length (to_le_bytes k v) ≡ k
unfolding to_le_bytes
length-to_le_bytes zero v = refl
length-to_le_bytes (suc k) v = ap suc (length-to_le_bytes k (v / 256))

pub to_le_bytes-IsByte : (k v : ℕ) → All IsByte (to_le_bytes k v)
unfolding to_le_bytes
to_le_bytes-IsByte zero v = tt
to_le_bytes-IsByte (suc k) v = (omega arith, to_le_bytes-IsByte k (v / 256))

pub from_le_bytes-lt : (bs : List ℕ) → All IsByte bs → from_le_bytes bs < 256 ^ length bs
unfolding from_le_bytes
from_le_bytes-lt [] h = omega arith
from_le_bytes-lt (b ∷ bs) h = omega (arith, pow-suc 256 (length bs), from_le_bytes-lt bs h.1)
