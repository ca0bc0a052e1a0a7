-- ===== src/Decimal/Size.antt =====
-- How long decimal text is.
use native.Mathlib.Nat.{pow-suc}
use memory_demo.Base.{
  ℕ, zero, suc, ◌+◌, ◌/◌, ◌%◌, ◌^◌, ◌≤◌, ◌<◌, ◌≡◌, refl, ap, [], ◌∷◌, arith, ltb, ltb→le,
  Bool-cases, inl, inr, length, length-append,
}
use memory_demo.Decimal.{Chars, digits, padded, fixed, cut}

-- A text that is shorter than the buffer is not cut.
pub cut_lem : (n : ℕ) (s : Chars) → length s < n → cut n s ≡ s
unfolding cut
cut_lem zero s h = absurd (omega arith)
cut_lem (suc zero) [] h = refl
cut_lem (suc zero) (c ∷ s) h = absurd (omega arith)
cut_lem (suc (suc n)) [] h = refl
cut_lem (suc (suc n)) (c ∷ s) h = ap (λ t. c ∷ t) (cut_lem (suc n) s (omega arith))

-- A number below 10 ^ k has at most k digits.
length-digits : (rounds k n : ℕ) → 0 < k → n < 10 ^ k → length (digits rounds n) ≤ k
unfolding digits
length-digits zero k n pos h = omega arith
length-digits (suc rounds) zero n pos h = absurd (omega arith)
length-digits (suc rounds) (suc k) n pos h = elim (Bool-cases (ltb n 10)) [
  | inl one ↦ rw one (omega arith)
  | inr more ↦
      let below = ltb→le n 10 more in
      rw more (
        omega (
          arith,
          length-append {0} (digits rounds (n / 10)) ((b'0' + n % 10) ∷ []),
          length-digits rounds k (n / 10) (has_more k below h) (omega (arith, h, pow-suc 10 k)),
        ))
]
  where
    has_more : (k : ℕ) → 10 ≤ n → n < 10 ^ suc k → 0 < k
    has_more zero b l = absurd (omega arith)
    has_more (suc j) b l = omega arith

length-padded : (places n : ℕ) → length (padded places n) ≡ places
unfolding padded
length-padded zero n = refl
length-padded (suc places) n = omega (arith, length-padded places (n % 10 ^ places))

pub length-fixed :
    (places k n : ℕ) → 0 < k → n / 10 ^ places < 10 ^ k → length (fixed places n) ≤ k + 1 + places
unfolding fixed
length-fixed places k n pos h = omega (
  arith,
  length-append {0} (digits 30 (n / 10 ^ places)) (b'.' ∷ padded places (n % 10 ^ places)),
  length-digits 30 k (n / 10 ^ places) pos h,
  length-padded places (n % 10 ^ places),
)
