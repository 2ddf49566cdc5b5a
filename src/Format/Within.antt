-- ===== src/Format/Within.antt =====
-- The number that `format_bytes` prints, against the number of bytes.
use iog.Prelude.{
  ℕ, zero, suc, ◌+◌, ◌*◌, ◌/◌, ◌%◌, ◌^◌, ◌==◌, ◌≤◌, ◌<◌, ◌≡◌, ◌⊎◌, sym, subst, arith, if◌then◌else◌,
  ltb, Bool-cases, inl, inr,
}
use native.Mathlib.Nat.{div-add-mod, mod-lt, add-mul, one-mul, mul_comm}
use iog.Format.{nearest, to_f64_from, to_f64, unit_from, unit_of, hundredths}

-- A `f64` is exact below 2^53 and at most 1024 off below 2^64.
pub to_f64_exact : (bytes : ℕ) → bytes < 2 ^ 53 → to_f64 bytes ≡ bytes
unfolding to_f64 to_f64_from nearest
to_f64_exact bytes h = ground arith

nearest_close :
    (a d : ℕ) → 0 < d → (2 * a ≤ 2 * (nearest a d * d) + d) × (2 * (nearest a d * d) ≤ 2 * a + d)
unfolding nearest
nearest_close a d h =
    let q = a / d in
    let whole = div-add-mod a d in
    let below = mod-lt a h in
    let up = add-mul q 1 d in
    let one = one-mul d in
    let swap = mul_comm d q in
    elim (Bool-cases (ltb (2 * (a % d)) d)) [
      | inl e ↦ rw e (ground arith, ground arith)
      | inr e ↦ elim (Bool-cases (ltb d (2 * (a % d)))) [
        | inl e' ↦ rw (e, e') (ground arith, ground arith)
        | inr e' ↦ elim (Bool-cases (q % 2 == 0)) [
          | inl even ↦
              let same : q + q % 2 ≡ q = ground arith in
              rw (e, e') (rw same (ground arith, ground arith))
          | inr odd ↦
              let next : q + q % 2 ≡ q + 1 = ground arith in
              rw (e, e') (rw next (ground arith, ground arith))
        ]
      ]
    ]

-- The last of so many doublings.
abbrev doubled : ℕ → ℕ → ℕ
doubled zero d = d
doubled (suc n) d = doubled n (2 * d)

doubled-le : (n d : ℕ) → d ≤ doubled n d
doubled-le zero d = omega arith
doubled-le (suc n) d = omega (arith, doubled-le n (2 * d))

to_f64_from_close :
    (n d bytes : ℕ)
    → 0 < d
    → (2 * bytes ≤ 2 * to_f64_from n d bytes + doubled n d)
      × (2 * to_f64_from n d bytes ≤ 2 * bytes + doubled n d)
unfolding to_f64_from
to_f64_from_close zero d bytes h = nearest_close bytes d h
to_f64_from_close (suc n) d bytes h = elim (Bool-cases (ltb bytes (2 ^ 53 * d))) [
  | inl e ↦
      let (below, above) = nearest_close bytes d h in
      let more = doubled-le (suc n) d in rw e (omega arith, omega arith)
  | inr e ↦ rw e (to_f64_from_close n (2 * d) bytes (omega arith))
]

pub to_f64_close :
    (bytes : ℕ) → (2 * bytes ≤ 2 * to_f64 bytes + 2048) × (2 * to_f64 bytes ≤ 2 * bytes + 2048)
unfolding to_f64
to_f64_close bytes = to_f64_from_close 11 1 bytes (omega arith)

-- The unit, by the size of the `f64`.
unit_cases :
    (m : ℕ)
    → ((unit_of m ≡ 0) × (m < 1024))
      ⊎ (((unit_of m ≡ 1) × (1024 ≤ m) × (m < 1024 ^ 2))
          ⊎ (((unit_of m ≡ 2) × (1024 ^ 2 ≤ m) × (m < 1024 ^ 3))
              ⊎ (((unit_of m ≡ 3) × (1024 ^ 3 ≤ m) × (m < 1024 ^ 4))
                  ⊎ ((unit_of m ≡ 4) × (1024 ^ 4 ≤ m)))))
unfolding unit_of unit_from
unit_cases m = ground arith

-- The number and the unit that are printed are right for the number of bytes.
abbrev pub IsClose : ℕ → ℕ → ℕ → ℕ → Type 0
IsClose bytes k h off =
    (k ≤ 4)
    × (0 < k → 1024 ^ k ≤ bytes)
    × (k < 4 → bytes < 1024 ^ (k + 1))
    × (200 * bytes ≤ 2 * (h * 1024 ^ k) + 1024 ^ k + off)
    × (2 * (h * 1024 ^ k) ≤ 200 * bytes + 1024 ^ k + off)

-- With a `f64` that is exact, and with one that is not.
exact-IsClose : (m : ℕ) → IsClose m (unit_of m) (hundredths m) 0
unfolding hundredths
exact-IsClose m = elim (unit_cases m) [
  | inl (e, small) ↦
      let (below, above) = nearest_close (100 * m) 1 (omega arith) in
      rw e (omega arith, λ h. omega arith, λ h. omega arith, omega arith, omega arith)
  | inr (inl (e, least, small)) ↦
      let (below, above) = nearest_close (100 * m) 1024 (omega arith) in
      rw e (omega arith, λ h. omega arith, λ h. omega arith, omega arith, omega arith)
  | inr (inr (inl (e, least, small))) ↦
      let (below, above) = nearest_close (100 * m) (1024 ^ 2) (omega arith) in
      rw e (omega arith, λ h. omega arith, λ h. omega arith, omega arith, omega arith)
  | inr (inr (inr (inl (e, least, small)))) ↦
      let (below, above) = nearest_close (100 * m) (1024 ^ 3) (omega arith) in
      rw e (omega arith, λ h. omega arith, λ h. omega arith, omega arith, omega arith)
  | inr (inr (inr (inr (e, least)))) ↦
      let (below, above) = nearest_close (100 * m) (1024 ^ 4) (omega arith) in
      rw e (omega arith, λ h. omega arith, λ h. omega arith, omega arith, omega arith)
]

large-IsClose :
    (bytes m : ℕ)
    → 2 ^ 53 ≤ bytes
    → 2 * bytes ≤ 2 * m + 2048
    → 2 * m ≤ 2 * bytes + 2048
    → IsClose bytes (unit_of m) (hundredths m) 204800
unfolding hundredths
large-IsClose bytes m large low high = elim (unit_cases m) [
  | inl (e, small) ↦ absurd (omega arith)
  | inr (inl (e, least, small)) ↦ absurd (omega arith)
  | inr (inr (inl (e, least, small))) ↦ absurd (omega arith)
  | inr (inr (inr (inl (e, least, small)))) ↦ absurd (omega arith)
  | inr (inr (inr (inr (e, least)))) ↦
      let (below, above) = nearest_close (100 * m) (1024 ^ 4) (omega arith) in
      rw e (omega arith, λ h. omega arith, λ h. omega arith, omega arith, omega arith)
]

pub hundredths-unit_of :
    (bytes : ℕ)
    → IsClose bytes
        (unit_of (to_f64 bytes))
        (hundredths (to_f64 bytes))
        (if ltb bytes (2 ^ 53) then 0 else 204800)
hundredths-unit_of bytes = elim (Bool-cases (ltb bytes (2 ^ 53))) [
  | inl e ↦
      let small : bytes < 2 ^ 53 = ground arith in
      rw e (
        subst (λ m. IsClose bytes (unit_of m) (hundredths m) 0) (sym (to_f64_exact bytes small))
          (exact-IsClose bytes))
  | inr e ↦
      let large : 2 ^ 53 ≤ bytes = ground arith in
      let (low, high) = to_f64_close bytes in
      rw e (large-IsClose bytes (to_f64 bytes) large low high)
]
