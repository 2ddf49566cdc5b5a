-- ===== src/Format/Printed.antt =====
-- The text that `format_bytes` prints, read again.
use iog.Prelude.{
  ℕ, zero, suc, ◌+◌, ◌*◌, ◌/◌, ◌%◌, ◌^◌, ◌-◌, ◌==◌, ◌≤◌, ◌<◌, ◌≡◌, refl, ap, false, ◌∙◌, List, [],
  ◌∷◌, ◌++◌, arith, if◌then◌else◌, ltb, Bool-cases, inl, inr,
}
use native.Mathlib.Nat.{div-le_self}
use mathlib.Core.List.{append_assoc}
use iog.Configuration.{codes}
use iog.Format.{nearest, to_f64, unit_of, hundredths, unit_name, digits, format_bytes}
use iog.Format.Within.{to_f64_close, IsClose, hundredths-unit_of}

-- The number before the first space, its point left out, and what stands behind that space.
abbrev pub reading : ℕ → List ℕ → ℕ × List ℕ
reading n [] = (n, [])
reading n (c ∷ cs) =
    let rest = reading (if c == 46 then n else 10 * n + (c - 48)) cs in
    if c == 32 then (n, cs) else rest

reading-digit :
    (n d : ℕ) (cs : List ℕ) → d < 10 → reading n ((48 + d) ∷ cs) ≡ reading (10 * n + d) cs
reading-digit n d cs h =
    let e32 : ((48 + d) == 32) ≡ false = ground arith in
    let e46 : ((48 + d) == 46) ≡ false = ground arith in
    rw (e32, e46) (ap (λ k. reading k cs) (omega arith))

reading-digits :
    (fuel n : ℕ) (cs : List ℕ) → n < 10 ^ fuel → reading 0 (digits fuel n ++ cs) ≡ reading n cs
unfolding digits
reading-digits zero n cs h = ap (λ k. reading k cs) (omega arith)
reading-digits (suc fuel) n cs h = elim (Bool-cases (ltb n 10)) [
  | inl e ↦ rw e (reading-digit 0 n cs (ground arith) ∙ ap (λ k. reading k cs) (omega arith))
  | inr e ↦
      rw (e, append_assoc, reading-digits fuel (n / 10) _ (ground arith))
        (reading-digit (n / 10) (n % 10) cs (ground arith) ∙ ap (λ k. reading k cs) (omega arith))
]

reading-hundredths :
    (n : ℕ) (cs : List ℕ)
    → n < 10 ^ 22
    → reading 0 (
        digits 20 (n / 100)
        ++ codes "."
        ++ ((48 + n / 10 % 10) ∷ (48 + n % 10) ∷ [])
        ++ codes " "
        ++ cs)
      ≡ (n, cs)
reading-hundredths n cs h =
    let tail = codes "." ++ ((48 + n / 10 % 10) ∷ (48 + n % 10) ∷ []) ++ codes " " ++ cs in
    let first =
      reading-digit (n / 100) (n / 10 % 10) ((48 + n % 10) ∷ codes " " ++ cs) (omega arith) in
    let second =
      reading-digit (10 * (n / 100) + n / 10 % 10) (n % 10) (codes " " ++ cs) (omega arith) in
    let whole : 10 * (10 * (n / 100) + n / 10 % 10) + n % 10 ≡ n = omega arith in
    rw (append_assoc, append_assoc, append_assoc)
      (reading-digits 20 (n / 100) _ (omega arith) ∙ first ∙ second ∙ ap (λ k. (k, cs)) whole)

nearest-le : (a d : ℕ) → nearest a d ≤ a / d + 1
unfolding nearest
nearest-le a d = ground arith

hundredths-le : (m : ℕ) → hundredths m ≤ 100 * m + 1
unfolding hundredths
hundredths-le m =
    let below = nearest-le (100 * m) (1024 ^ unit_of m) in
    let less = div-le_self (100 * m) (1024 ^ unit_of m) in omega arith

reading-format_bytes :
    (bytes : ℕ)
    → bytes < 2 ^ 64
    → reading 0 (format_bytes bytes) ≡ (
      if unit_of (to_f64 bytes) == 0 then bytes else hundredths (to_f64 bytes),
      unit_name (unit_of (to_f64 bytes)),
    )
unfolding format_bytes
reading-format_bytes bytes h =
    let m = to_f64 bytes in
    elim (Bool-cases (unit_of m == 0)) [
      | inl e ↦ rw (e, append_assoc, reading-digits 20 bytes _ (ground arith)) refl
      | inr e ↦
          let (low, high) = to_f64_close bytes in
          let most = hundredths-le m in rw e (reading-hundredths (hundredths m) _ (omega arith))
    ]

-- For every 64-bit number of bytes, what `format_bytes` prints can be read again: a number, a space
-- and a unit, which is at most the terabyte; of a unit above the byte there is at least one in the
-- number of bytes, and of the next unit, if there is one, less than one. With the byte as the unit
-- the number is the number of bytes; with any other it has two digits behind its point, and is
-- within half a hundredth of the number of bytes in that unit, or within that and 1024 bytes from
-- 2^53 bytes on.
pub format_bytes-IsClose :
    (bytes : ℕ)
    → bytes < 2 ^ 64
    → (reading 0 (format_bytes bytes) ≡ (
      if unit_of (to_f64 bytes) == 0 then bytes else hundredths (to_f64 bytes),
      unit_name (unit_of (to_f64 bytes)),
    ))
      × IsClose bytes
          (unit_of (to_f64 bytes))
          (hundredths (to_f64 bytes))
          (if ltb bytes (2 ^ 53) then 0 else 204800)
format_bytes-IsClose bytes h = (reading-format_bytes bytes h, hundredths-unit_of bytes)
