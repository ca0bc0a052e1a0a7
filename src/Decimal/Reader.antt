-- ===== src/Decimal/Reader.antt =====
-- Reading decimal text back.
use mathlib.Core.List.{append_assoc}
use native.Mathlib.Nat.{div-lt_iff_lt-mul, pow-suc, div-add-mod', mod-lt}
use memory_demo.Base.{
  ℕ, zero, suc, ◌+◌, ◌-◌, ◌*◌, ◌/◌, ◌%◌, ◌^◌, ◌≤◌, ◌<◌, ◌≡◌, refl, ap, ◌∙◌, Option, none, some, [],
  ◌∷◌, ◌++◌, arith, ltb, ltb→lt, ltb→le, leb, false, ◌==◌, ◌&&◌, if◌then◌else◌, Bool-cases, inl,
  inr,
}
use memory_demo.Decimal.{Chars, digits, padded, fixed}

-- The number that the digits at the front spell behind n, and what follows them.
pub read_number : ℕ → Chars → ℕ × Chars
read_number n [] = (n, [])
read_number n (c ∷ rest) =
    let more = read_number (n * 10 + (c - b'0')) rest in
    if leb b'0' c && leb c b'9' then more else (n, c ∷ rest)

-- A text that does not go on with a digit.
abbrev pub IsBreak : Chars → Type 0
IsBreak [] = Unit
IsBreak (c ∷ rest) = (leb b'0' c && leb c b'9') ≡ false

read_digit :
    (n d : ℕ) (rest : Chars)
    → d < 10
    → read_number n ((b'0' + d) ∷ rest) ≡ read_number (n * 10 + d) rest
unfolding read_number
read_digit n d rest h = ground arith

read-break : (n : ℕ) (rest : Chars) → IsBreak rest → read_number n rest ≡ (n, rest)
unfolding read_number
read-break n [] h = refl
read-break n (c ∷ rest) h = rw h

power : ℕ → ℕ
power zero = 1
power (suc k) = 10 * power k

-- The digits of n are read as n behind the digits before them.
read-digits :
    (rounds n : ℕ) (rest : Chars)
    → 0 < rounds
    → n < power rounds
    → read_number 0 (digits rounds n ++ rest) ≡ read_number n rest
unfolding digits power
read-digits zero n rest pos h = absurd (omega arith)
read-digits (suc rounds) n rest pos h = elim (Bool-cases (ltb n 10)) [
  | inl one ↦
      let first : read_number 0 ((b'0' + n) ∷ rest) ≡ read_number n rest =
        read_digit 0 n rest (ltb→lt n 10 one) ∙ ap (λ m. read_number m rest) (omega arith) in
      rw one first
  | inr more ↦
      let below = ltb→le n 10 more in
      let last : n / 10 * 10 + n % 10 ≡ n = omega arith in
      rw more (
        ap (read_number 0) (append_assoc (digits rounds (n / 10)) ((b'0' + n % 10) ∷ []) rest)
        ∙ read-digits rounds (n / 10) ((b'0' + n % 10) ∷ rest) (enough rounds below h) (omega arith)
        ∙ read_digit (n / 10) (n % 10) rest (omega arith)
        ∙ ap (λ m. read_number m rest) last)
]
  where
    enough : (rounds : ℕ) → 10 ≤ n → n < 10 * power rounds → 0 < rounds
    enough zero b h = absurd (omega arith)
    enough (suc k) b h = omega arith

-- Exactly so many digits, behind n.
pub read_places : ℕ → ℕ → Chars → Option (ℕ × Chars)
read_places zero n rest = some (n, rest)
read_places (suc places) n [] = none
read_places (suc places) n (c ∷ rest) =
    let more = read_places places (n * 10 + (c - b'0')) rest in
    if leb b'0' c && leb c b'9' then more else none

-- A point and so many places, behind the whole part w.
pub after_point : ℕ → ℕ × Chars → Option (ℕ × Chars)
after_point places (w, []) = none
after_point places (w, c ∷ rest) = if c == b'.' then read_places places w rest else none

-- A whole part, a point and so many places: the number that is spelt without the point.
pub read_fixed : ℕ → Chars → Option (ℕ × Chars)
unfolding read_number
read_fixed places s = after_point places (read_number 0 s)

read_place :
    (places w d : ℕ) (rest : Chars)
    → d < 10
    → read_places (suc places) w ((b'0' + d) ∷ rest) ≡ read_places places (w * 10 + d) rest
unfolding read_places
read_place places w d rest h = ground arith

power_pos : (k : ℕ) → 0 < 10 ^ k
power_pos zero = omega arith
power_pos (suc k) = omega (arith, power_pos k, pow-suc 10 k)

power_eq : (k : ℕ) → power k ≡ 10 ^ k
unfolding power
power_eq zero = refl
power_eq (suc k) = omega (arith, power_eq k, pow-suc 10 k)

read-padded :
    (places w n : ℕ) (rest : Chars)
    → n < 10 ^ places
    → read_places places w (padded places n ++ rest) ≡ some (w * 10 ^ places + n, rest)
unfolding read_places padded
read-padded zero w n rest h = ground arith
read-padded (suc places) w n rest h =
    let pos = power_pos places in
    let first : n / 10 ^ places < 10 =
      (div-lt_iff_lt-mul pos).1 (omega (arith, h, pow-suc 10 places)) in
    let total : (w * 10 + n / 10 ^ places) * 10 ^ places + n % 10 ^ places
        ≡ w * 10 ^ suc places + n =
      omega (arith, div-add-mod' n (10 ^ places), ap (λ (t : ℕ). w * t) (pow-suc 10 places)) in
    read_place places w (n / 10 ^ places) (padded places (n % 10 ^ places) ++ rest) first
    ∙ read-padded places (w * 10 + n / 10 ^ places) (n % 10 ^ places) rest (mod-lt n pos)
    ∙ ap (λ m. some (m, rest)) total

-- What `fixed` has printed is read back, up to 30 digits before the point.
pub read-fixed :
    (places n : ℕ) (rest : Chars)
    → n / 10 ^ places < 10 ^ 30
    → read_fixed places (fixed places n ++ rest) ≡ some (n, rest)
unfolding read_fixed after_point fixed
read-fixed places n rest h =
    let front : Chars = digits 30 (n / 10 ^ places) in
    let fraction : Chars = padded places (n % 10 ^ places) in
    let read : read_number 0 ((front ++ b'.' ∷ fraction) ++ rest)
        ≡ (n / 10 ^ places, b'.' ∷ fraction ++ rest) =
      ap (read_number 0) (append_assoc front (b'.' ∷ fraction) rest)
      ∙ read-digits 30 (n / 10 ^ places) (b'.' ∷ fraction ++ rest) (omega arith)
          (omega (arith, h, power_eq 30))
      ∙ read-break (n / 10 ^ places) (b'.' ∷ fraction ++ rest) refl in
    rw read (
      read-padded places (n / 10 ^ places) (n % 10 ^ places) rest (mod-lt n (power_pos places))
      ∙ ap (λ m. some (m, rest)) (div-add-mod' n (10 ^ places)))
