-- ===== src/Decimal/General.antt =====
-- What an output stream prints for a double that is not negative, by default: six significant digits,
-- without the zeros at the end, and with an exponent where the number is below 0.0001 or has more
-- than six digits before the point.
use memory_demo.Base.{
  ℕ, zero, suc, ◌+◌, ◌-◌, ◌*◌, ◌/◌, ◌%◌, ◌^◌, ◌≡◌, refl, ◌||◌, [], ◌∷◌, ◌++◌, ltb, leb, ◌==◌,
  if◌then◌else◌,
}
use memory_demo.Double.{near}
use memory_demo.Decimal.{Chars, codes, digits, padded}

-- The number n / d to six significant digits, as those digits and the place i - 10 of the first one. The
-- numbers of the programs that are not 0 are at least 10 ^ -10, at which the search begins.
significant : (fuel n d i : ℕ) → ℕ × ℕ
significant zero n d i = (i, 0)
significant (suc fuel) n d i =
    let rest = significant fuel n d (i + 1) in
    let m = near (n * 10 ^ 15) (d * 10 ^ i) in if ltb m 1000000 then (i, m) else rest

trimmed : Chars → Chars
trimmed [] = []
trimmed (c ∷ s) = kept c (trimmed s)
  where
    kept : ℕ → Chars → Chars
    kept c [] = if c == b'0' then [] else c ∷ []
    kept c (e ∷ s) = c ∷ e ∷ s

fraction : Chars → Chars
fraction [] = []
fraction (c ∷ s) = b'.' ∷ c ∷ s

-- m / 10 ^ places, without zeros at the end.
shortened : (places m : ℕ) → Chars
unfolding trimmed fraction
shortened places m =
    digits 30 (m / 10 ^ places) ++ fraction (trimmed (padded places (m % 10 ^ places)))

exponent : ℕ → Chars
exponent i = if ltb i 10 then b'-' ∷ padded 2 (10 - i) else b'+' ∷ padded 2 (i - 10)

-- n / d, at most 10 ^ 20.
pub general : (n d : ℕ) → Chars
unfolding significant shortened exponent
general n d =
    let (i, m) = significant 32 n d 0 in
    if n == 0
    then codes "0"
    else if ltb i 6 || leb 16 i
    then shortened 5 m ++ b'e' ∷ exponent i
    else shortened (15 - i) m

of_a_few_pages : general 4096000000 (2 ^ 30) ≡ codes "3.8147"
unfolding general digits padded near
of_a_few_pages = refl

of_one_page : general 4096 (2 ^ 30) ≡ codes "3.8147e-06"
unfolding general digits padded near
of_one_page = refl

of_a_petabyte : general (2 ^ 50) (2 ^ 30) ≡ codes "1.04858e+06"
unfolding general digits padded near
of_a_petabyte = refl

of_ten_gigabytes : general (10 * 2 ^ 30) (2 ^ 30) ≡ codes "10"
unfolding general digits padded near
of_ten_gigabytes = refl
