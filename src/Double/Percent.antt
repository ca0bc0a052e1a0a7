-- ===== src/Double/Percent.antt =====
-- The quotient of two integers as a double, in whole percent: `a * 1.0 / b * 100`, cut to an integer.
use native.Mathlib.Nat.{div-add-mod', mod-lt, mul-le-mul_right, mul-le-mul_left}
use memory_demo.Base.{ℕ, zero, suc, ◌+◌, ◌*◌, ◌/◌, ◌%◌, ◌^◌, ◌≤◌, ◌<◌, ◌≡◌, refl, arith}
use memory_demo.Double.{near, round_from, div_double, times, whole, one_double}
use memory_demo.Double.Rounding.{round_from-le, round_from_bounds}

-- The quotient of two integers in percent, the smaller one by the larger: at most 100.
pub percent-le : (p t : ℕ) → 0 < t → p ≤ t → whole (times (div_double p t) 100) ≤ 100
unfolding times div_double whole
percent-le p t pos h =
    let quotient =
      round_from-le 192 (p * one_double) t 1 1 128 pos (omega arith) (omega arith) (omega arith) in
    let product =
      round_from-le 192 (div_double p t * 100) 1 1 100 128 (omega arith) (omega arith) (omega arith)
        (omega arith) in
    omega arith

-- A positive part of a total below 2 ^ 45, as a quotient: off by at most 2 ^ -53 of it, at least
-- 2 ^ -46, and at most 1.
quotient_bounds :
    (p t : ℕ)
    → 0 < p
    → p ≤ t
    → t < 2 ^ 45
    → let q = div_double p t in
      (2 ^ 53 * (q * t) ≤ 2 ^ 53 * (p * 2 ^ 128) + p * 2 ^ 128)
      × (2 ^ 53 * (p * 2 ^ 128) ≤ 2 ^ 53 * (q * t) + p * 2 ^ 128)
      × (2 ^ 82 ≤ q)
      × (q ≤ 2 ^ 128)
unfolding div_double
quotient_bounds p t pos part small =
    let q = round_from 192 (p * 2 ^ 128) t 1 in
    let (above, below) =
      round_from_bounds 192 (p * 2 ^ 128) t 1 (omega arith) (omega arith) (omega arith)
        (omega arith) in
    let most : q ≤ 2 ^ 128 = omega (
      arith,
      round_from-le 192 (p * 2 ^ 128) t 1 1 128 (omega arith) (omega arith) (omega arith)
          (omega arith),
    ) in
    let bound = mul-le-mul_left {m = t} {n = 2 ^ 45} q (omega arith) in
    (above, below, omega (arith, bound), most)

product_bounds :
    (q : ℕ)
    → 2 ^ 82 ≤ q
    → q ≤ 2 ^ 128
    → let x = times q 100 in
      (2 ^ 53 * x ≤ 2 ^ 53 * (q * 100) + q * 100) × (2 ^ 53 * (q * 100) ≤ 2 ^ 53 * x + q * 100)
unfolding times
product_bounds q least most = omega (
  arith,
  round_from_bounds 192 (q * 100) 1 1 (omega arith) (omega arith) (omega arith) (omega arith),
)

-- No part of a total: every operation is exact.
zero_percent : (t : ℕ) → 0 < t → whole (times (div_double 0 t) 100) ≡ 0
unfolding whole times div_double
zero_percent t pos =
    let q =
      round_from-le 192 (0 * one_double) t 1 0 0 pos (omega arith) (omega arith) (omega arith) in
    let x =
      round_from-le 192 (div_double 0 t * 100) 1 1 0 0 (omega arith) (omega arith) (omega arith)
        (omega arith) in
    omega arith

positive_percent :
    (p t : ℕ)
    → 0 < p
    → p ≤ t
    → t < 2 ^ 45
    → let n = whole (times (div_double p t) 100) in (n * t ≤ 100 * p) × (100 * p ≤ (n + 1) * t)
unfolding whole
positive_percent p t pos part small =
    let q = div_double p t in
    let x = times q 100 in
    let (q_above, q_below, least, most) = quotient_bounds p t pos part small in
    let (x_above, x_below) = product_bounds q least most in
    let whole_part = div-add-mod' x one_double in
    let left : x % one_double < one_double = mod-lt x (omega arith) in
    let low = mul-le-mul_right {m = x / one_double * 2 ^ 128} {n = x} t (omega arith) in
    let high = mul-le-mul_right {m = x} {n = (x / one_double + 1) * 2 ^ 128} t (omega arith) in
    let above = mul-le-mul_right t x_above in
    let below = mul-le-mul_right t x_below in (omega arith, omega arith)

-- The quotient in percent is the whole part of the exact one, or where that is a whole number
-- perhaps one less.
pub percent_bounds :
    (p t : ℕ)
    → 0 < t
    → p ≤ t
    → t < 2 ^ 45
    → let n = whole (times (div_double p t) 100) in (n * t ≤ 100 * p) × (100 * p ≤ (n + 1) * t)
percent_bounds zero t pos part small = rw (zero_percent t pos) (omega arith, omega arith)
percent_bounds (suc p) t pos part small = positive_percent (suc p) t (omega arith) part small

-- 0.29 as a double, times 100, is below 29.
pub twenty_nine_percent : whole (times (div_double 29 100) 100) ≡ 28
unfolding whole times div_double round_from near
twenty_nine_percent = refl
