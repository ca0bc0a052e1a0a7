-- ===== src/Decimal.antt =====
-- Decimal text: what printf and std::to_string make of a number, as a list of character codes.
pub mod Reader
pub mod Size
pub mod General
use Prim.Native.Char.{code}
use Prim.Native.String.{String}
use memory_demo.Base.{
  ℕ, zero, suc, ◌+◌, ◌-◌, ◌*◌, ◌/◌, ◌%◌, ◌^◌, List, [], ◌∷◌, ◌++◌, ltb, if◌then◌else◌,
}

abbrev pub Chars : Type 0
Chars = List ℕ

abbrev pub codes : String → Chars
codes String.[] = []
codes (String.◌∷◌ c s) = code c ∷ codes s

-- The digits of n, with no zeros before them: one round for each digit.
pub digits : ℕ → ℕ → Chars
digits zero n = []
digits (suc rounds) n =
    let more = digits rounds (n / 10) ++ (b'0' + n % 10) ∷ [] in
    if ltb n 10 then (b'0' + n) ∷ [] else more

-- The last `places` digits of n, with zeros before them.
pub padded : ℕ → ℕ → Chars
padded zero n = []
padded (suc places) n = (b'0' + n / 10 ^ places) ∷ padded places (n % 10 ^ places)

-- What %.2f (two places) and %f (six places) print for a number of that many hundredths or millionths.
-- 30 digits are more than the numbers of the programs have.
unfoldable pub fixed : ℕ → ℕ → Chars
unfolding digits padded
fixed places n = digits 30 (n / 10 ^ places) ++ b'.' ∷ padded places (n % 10 ^ places)

-- What snprintf leaves in a buffer of n bytes, without the 0 that ends it.
pub cut : ℕ → Chars → Chars
cut zero s = []
cut (suc zero) s = []
cut (suc n) [] = []
cut (suc n) (c ∷ s) = c ∷ cut n s
