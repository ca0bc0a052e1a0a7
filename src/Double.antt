-- ===== src/Double.antt =====
-- The arithmetic on `double` that the programs do: conversion of an integer, division and
-- multiplication by a small integer, of numbers that are not negative. Each operation rounds its exact
-- result to 53 bits, to the nearest, a tie to the even one. Division by a power of two is exact.
pub mod Rounding
pub mod Percent
use memory_demo.Base.{ℕ, zero, suc, ◌+◌, ◌*◌, ◌/◌, ◌%◌, ◌^◌, ltb, if◌then◌else◌}

-- The whole number nearest to n / d, a tie to the even one.
unfoldable pub near : ℕ → ℕ → ℕ
near n d =
    if ltb (2 * (n % d)) d
    then n / d
    else if ltb d (2 * (n % d))
    then n / d + 1
    else n / d + n / d % 2

-- n / d to 53 bits: the unit is doubled until the quotient by it has no more than 53 bits. The exact
-- quotient is less than 2 ^ 53 or has 53 bits before the point, so that 1 is the unit to begin with.
pub round_from : (fuel n d unit : ℕ) → ℕ
unfolding near
round_from zero n d unit = n / d
round_from (suc fuel) n d unit =
    let rest = round_from fuel n d (2 * unit) in
    if ltb n (2 ^ 53 * (unit * d)) then near n (unit * d) * unit else rest

-- An integer as a double. 64 rounds are enough for 64 bits.
pub to_double : ℕ → ℕ
to_double n = round_from 64 n 1 1

-- Doubles with a fraction are counted in units of 2 ^ -128, a bound below every quotient of two
-- positive 64-bit integers.
abbrev pub one_double : ℕ
one_double = 2 ^ 128

pub div_double : ℕ → ℕ → ℕ
div_double a b = round_from 192 (a * one_double) b 1

pub times : ℕ → ℕ → ℕ
times x k = round_from 192 (x * k) 1 1

-- The whole part, which a conversion to an integer leaves.
pub whole : ℕ → ℕ
whole x = x / one_double
