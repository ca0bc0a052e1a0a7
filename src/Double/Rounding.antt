-- ===== src/Double/Rounding.antt =====
-- How far rounding to 53 bits moves a number.
use native.Mathlib.Nat.{
  div-add-mod', mod-lt, add-mul, mul-le-mul_right, mul-pos, pow-suc, div-le_of_le-mul,
  mul-lt-mul_of_pos_right,
}
use native.Mathlib.Decide.{dec_lt}
use memory_demo.Base.{
  ℕ, zero, suc, ◌+◌, ◌*◌, ◌/◌, ◌%◌, ◌^◌, ◌≤◌, ◌<◌, ◌≡◌, refl, ap, arith, ltb, ltb→le, lt→ltb,
  Bool-cases, inl, inr,
}
use memory_demo.Double.{near, round_from, to_double}

-- The nearest whole number is at most a half away.
pub near_bounds :
    (n d : ℕ) → 0 < d → (2 * (near n d * d) ≤ 2 * n + d) × (2 * n ≤ 2 * (near n d * d) + d)
unfolding near
near_bounds n d pos =
    ground
      (arith, div-add-mod' n d, mod-lt n pos, add-mul (n / d) 1 d, add-mul (n / d) (n / d % 2) d)

-- Rounding to 53 bits moves a number by at most 2 ^ -53 of it.
pub round_from_bounds :
    (fuel n d unit : ℕ)
    → 0 < d
    → 0 < unit
    → 2 ^ 52 * (unit * d) ≤ n
    → n < 2 ^ fuel * (2 ^ 52 * (unit * d))
    → (2 ^ 53 * (round_from fuel n d unit * d) ≤ 2 ^ 53 * n + n)
      × (2 ^ 53 * n ≤ 2 ^ 53 * (round_from fuel n d unit * d) + n)
unfolding round_from
round_from_bounds zero n d unit pd pu low high = absurd (omega arith)
round_from_bounds (suc fuel) n d unit pd pu low high =
    elim (Bool-cases (ltb n (2 ^ 53 * (unit * d)))) [
      | inl fits ↦ rw fits (omega (arith, near_bounds n (unit * d) (mul-pos pu pd)))
      | inr more ↦
          let m = ltb→le n (2 ^ 53 * (unit * d)) more in
          rw more (
            round_from_bounds fuel n d (2 * unit) pd (omega arith) (omega (arith, m)) (
              omega (arith, high, pow-suc 2 fuel, ap (λ (t : ℕ). t * (unit * d)) (pow-suc 2 fuel))))
    ]

near-le : (n d c : ℕ) → 0 < d → n ≤ c * d → near n d ≤ c
unfolding near
near-le n d c pos h =
    let q : n / d ≤ c = div-le_of_le-mul d (omega arith) in
    elim (dec_lt (n / d) c) [
      | yes below ↦ ground (arith, mod-lt (n / d) {m = 2} (omega arith))
      | no at ↦
          let same : n / d ≡ c = omega arith in
          let exact : n % d ≡ 0 = omega (arith, div-add-mod' n d, ap (λ (t : ℕ). t * d) same) in
          rw (exact, same) (ground arith)
    ]

double_unit : (c e unit : ℕ) → c * 2 ^ suc e * unit ≡ c * 2 ^ e * (2 * unit)
double_unit c e unit = rw (pow-suc 2 e) (omega arith)

within :
    (n d unit c e : ℕ)
    → 0 < d
    → 0 < unit
    → n ≤ c * 2 ^ e * unit * d
    → near n (unit * d) * unit ≤ c * 2 ^ e * unit
within n d unit c e pd pu h =
    mul-le-mul_right unit (near-le n (unit * d) (c * 2 ^ e) (mul-pos pu pd) (omega arith))

-- Rounding does not pass a bound that has few bits: c 2 ^ e units, with c below 2 ^ 53.
pub round_from-le :
    (fuel n d unit c e : ℕ)
    → 0 < d
    → 0 < unit
    → c < 2 ^ 53
    → n ≤ c * 2 ^ e * unit * d
    → round_from fuel n d unit ≤ c * 2 ^ e * unit
unfolding round_from
round_from-le zero n d unit c e pd pu small h = div-le_of_le-mul d (omega arith)
round_from-le (suc fuel) n d unit c zero pd pu small h =
    elim (Bool-cases (ltb n (2 ^ 53 * (unit * d)))) [
      | inl fits ↦ rw fits (within n d unit c 0 pd pu h)
      | inr more ↦
          let m = ltb→le n (2 ^ 53 * (unit * d)) more in
          absurd (omega (arith, mul-lt-mul_of_pos_right small (mul-pos pu pd)))
    ]
round_from-le (suc fuel) n d unit c (suc e) pd pu small h =
    elim (Bool-cases (ltb n (2 ^ 53 * (unit * d)))) [
      | inl fits ↦ rw fits (within n d unit c (suc e) pd pu h)
      | inr more ↦
          rw (more, double_unit c e unit)
            (round_from-le fuel n d (2 * unit) c e pd (omega arith) small
              (omega (arith, h, ap (λ (t : ℕ). t * d) (double_unit c e unit))))
    ]

near-one : (n : ℕ) → near n 1 ≡ n
unfolding near
near-one n = ground arith

-- What fits 53 bits is not rounded.
round_from-exact : (fuel n : ℕ) → n < 2 ^ 53 → round_from (suc fuel) n 1 1 ≡ n
unfolding round_from
round_from-exact fuel n h =
    rw (lt→ltb n (2 ^ 53 * (1 * 1)) (omega arith)) (omega (arith, near-one n))

pub to_double-exact : (n : ℕ) → n < 2 ^ 53 → to_double n ≡ n
unfolding to_double
to_double-exact n h = round_from-exact 63 n h

to_double_eq : (n : ℕ) → to_double n ≡ round_from 64 n 1 1
unfolding to_double
to_double_eq n = refl

-- A 64-bit integer that is converted to double is at most 2 ^ -53 of itself away.
pub to_double_bounds :
    (n : ℕ)
    → n < 2 ^ 64
    → (2 ^ 53 * to_double n ≤ 2 ^ 53 * n + n) × (2 ^ 53 * n ≤ 2 ^ 53 * to_double n + n)
to_double_bounds n h = elim (dec_lt n (2 ^ 53)) [
  | yes few ↦ omega (arith, to_double-exact n few)
  | no many ↦ rounded (omega arith)
]
  where
    rounded :
        2 ^ 53 ≤ n
        → (2 ^ 53 * to_double n ≤ 2 ^ 53 * n + n) × (2 ^ 53 * n ≤ 2 ^ 53 * to_double n + n)
    rounded many = omega (
      arith,
      to_double_eq n,
      round_from_bounds 64 n 1 1 (omega arith) (omega arith) (omega arith) (omega arith),
    )
