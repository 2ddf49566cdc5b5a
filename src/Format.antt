-- ===== src/Format.antt =====
-- `format_bytes` of gateway/utils.rs. A `f64` that stands for a number of bytes in a unit is the
-- natural number `m` of which it is a 1024th as many times as the unit says: the division by 1024
-- only lowers the exponent and is exact. A text is the list of its code points.
pub mod Printed
pub mod Within
use iog.Prelude.{
  ℕ, zero, suc, ◌+◌, ◌*◌, ◌/◌, ◌%◌, ◌^◌, ◌==◌, List, [], ◌∷◌, ◌++◌, if◌then◌else◌, ltb, leb,
}
use iog.Configuration.{codes}

-- `a / d` to the nearest number, the even one of two.
unfoldable pub nearest : ℕ → ℕ → ℕ
nearest a d =
    let q = a / d in
    let r = a % d in if ltb (2 * r) d then q else if ltb d (2 * r) then q + 1 else q + q % 2

-- `bytes as f64`: 53 bits and as many doublings as it takes.
unfoldable pub to_f64_from : ℕ → ℕ → ℕ → ℕ
unfolding nearest
to_f64_from zero d bytes = nearest bytes d * d
to_f64_from (suc n) d bytes =
    let more = to_f64_from n (2 * d) bytes in
    if ltb bytes (2 ^ 53 * d) then nearest bytes d * d else more

unfoldable pub to_f64 : ℕ → ℕ
unfolding to_f64_from
to_f64 bytes = to_f64_from 11 1 bytes

-- The loop: the first number counts the units that are left.
unfoldable pub unit_from : ℕ → ℕ → ℕ → ℕ
unit_from zero unit_idx m = unit_idx
unit_from (suc n) unit_idx m =
    let more = unit_from n (unit_idx + 1) m in
    if leb (1024 ^ (unit_idx + 1)) m then more else unit_idx

unfoldable pub unit_of : ℕ → ℕ
unfolding unit_from
unit_of m = unit_from 4 0 m

-- The value with two digits behind the point, in hundredths.
unfoldable pub hundredths : ℕ → ℕ
unfolding unit_of nearest
hundredths m = nearest (100 * m) (1024 ^ unit_of m)

-- `UNITS`
unfoldable pub unit_name : ℕ → List ℕ
unit_name unit_idx =
    if unit_idx == 0
    then codes "B"
    else if unit_idx == 1
    then codes "KB"
    else if unit_idx == 2
    then codes "MB"
    else if unit_idx == 3
    then codes "GB"
    else codes "TB"

-- A number below 10^20 in decimal.
unfoldable pub digits : ℕ → ℕ → List ℕ
digits zero n = []
digits (suc fuel) n =
    let rest = digits fuel (n / 10) in
    if ltb n 10 then (48 + n) ∷ [] else rest ++ ((48 + n % 10) ∷ [])

unfoldable pub format_bytes : ℕ → List ℕ
unfolding to_f64 unit_of hundredths unit_name digits
format_bytes bytes =
    let m = to_f64 bytes in
    let h = hundredths m in
    if unit_of m == 0
    then digits 20 bytes ++ codes " " ++ unit_name 0
    else digits 20 (h / 100)
      ++ codes "."
      ++ ((48 + h / 10 % 10) ∷ (48 + h % 10) ∷ [])
      ++ codes " "
      ++ unit_name (unit_of m)
