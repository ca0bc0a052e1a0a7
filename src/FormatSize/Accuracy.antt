-- ===== src/FormatSize/Accuracy.antt =====
-- What formatMemorySize prints, and how exact it is.
use native.Mathlib.Decide.{dec_lt}
use native.Mathlib.Nat.{pow-suc}
use memory_demo.Base.{
  ℕ, zero, suc, ◌+◌, ◌*◌, ◌/◌, ◌^◌, ◌≤◌, ◌<◌, ◌≡◌, ◌⊎◌, inl, inr, refl, ap, subst, ◌∙◌, some, ◌∷◌,
  ◌++◌, arith, ltb, lt→ltb, false, length, length-append,
}
use memory_demo.Double.{near, to_double}
use memory_demo.Double.Rounding.{near_bounds, to_double-exact, to_double_bounds}
use memory_demo.Decimal.{codes, fixed}
use memory_demo.Decimal.Size.{cut_lem, length-fixed}
use memory_demo.Decimal.Reader.{read_fixed, read-fixed}
use memory_demo.FormatSize.{unit_name, scaled, size_text, format_memory_size}

-- The unit that the loop stops at: the largest of which the size has one, or bytes.
pub record IsUnitOf (r u : ℕ) : Type 0 where
  pub known : u ≤ 3
  pub reached : (u ≡ 0) ⊎ (1024 ^ u ≤ r)
  pub not_passed : (u ≡ 3) ⊎ (r < 1024 ^ (u + 1))

scaled_lem : (r : ℕ) → (u : ℕ) × (scaled 3 r 1 0 ≡ (1024 ^ u, u)) × IsUnitOf r u
unfolding scaled
scaled_lem r = elim (dec_lt r 1024) [
  | yes bytes ↦
      (0, ground arith, record { known = omega arith; reached = inl refl; not_passed = inr bytes })
  | no more ↦ elim (dec_lt r (1024 ^ 2)) [
    | yes kb ↦ (
      1,
      ground arith,
      record { known = omega arith; reached = inr (omega arith); not_passed = inr kb },
    )
    | no much ↦ elim (dec_lt r (1024 ^ 3)) [
      | yes mb ↦ (
        2,
        ground arith,
        record { known = omega arith; reached = inr (omega arith); not_passed = inr mb },
      )
      | no gb ↦ (
        3,
        ground arith,
        record { known = omega arith; reached = inr (omega arith); not_passed = inl refl },
      )
    ]
  ]
]

power_pos : (u : ℕ) → 0 < 1024 ^ u
power_pos zero = omega arith
power_pos (suc u) = omega (arith, power_pos u, pow-suc 1024 u)

-- Half a unit in the last place that is printed.
abbrev pub IsNearest : (hundredths u size : ℕ) → Type 0
IsNearest h u size =
    (2 * (h * 1024 ^ u) ≤ 2 * (size * 100) + 1024 ^ u)
    × (2 * (size * 100) ≤ 2 * (h * 1024 ^ u) + 1024 ^ u)

-- The text without the buffer: its number and its unit.
size_text_lem :
    (bytes : ℕ)
    → (u : ℕ) × (h : ℕ) × (size_text bytes ≡ fixed 2 h ++ b' ' ∷ unit_name u)
      × IsUnitOf (to_double bytes) u
      × IsNearest h u (to_double bytes)
unfolding size_text
size_text_lem bytes =
    let size = to_double bytes in
    let (u, e, best) = scaled_lem size in
    (
      u,
      near (size * 100) (1024 ^ u),
      rw e refl,
      best,
      near_bounds (size * 100) (1024 ^ u) (power_pos u),
    )

few_digits :
    (u h size : ℕ) → IsUnitOf size u → IsNearest h u size → size < 2 ^ 65 → h / 10 ^ 2 < 10 ^ 11
few_digits zero h size best near fit = ground arith
few_digits (suc zero) h size best near fit = ground arith
few_digits (suc (suc zero)) h size best near fit = ground arith
few_digits (suc (suc (suc zero))) h size best near fit = omega arith
few_digits (suc (suc (suc (suc u)))) h size best near fit = absurd (omega (arith, best.known))

length-unit_name : (u : ℕ) → length (unit_name u) ≤ 2
unfolding unit_name
length-unit_name u = ground arith

double_below : (bytes : ℕ) → bytes < 2 ^ 64 → to_double bytes < 2 ^ 65
double_below bytes h = omega (arith, to_double_bounds bytes h)

-- For every 64-bit size the text fits the buffer of 32 bytes: nothing of it is cut off, and it has
-- at most 17 characters.
pub format_memory_size-IsWhole :
    (bytes : ℕ)
    → bytes < 2 ^ 64
    → (format_memory_size bytes ≡ size_text bytes) × (length (format_memory_size bytes) ≤ 17)
unfolding format_memory_size
format_memory_size-IsWhole bytes fit =
    let (u, h, text, best, nearest) = size_text_lem bytes in
    let bound : length (size_text bytes) ≤ 17 = rw text (
      omega (
        arith,
        length-append {0} (fixed 2 h) (b' ' ∷ unit_name u),
        length-fixed 2 11 h (omega arith)
            (few_digits u h (to_double bytes) best nearest (double_below bytes fit)),
        length-unit_name u,
      )) in
    let same = cut_lem 32 (size_text bytes) (omega arith) in (same, rw same bound)

-- For a size below 2 ^ 53 bytes: the text is read back as a number of hundredths and a unit; the
-- unit is the largest of B, KB, MB and GB of which the size has one, or B; and the number is the
-- size in that unit to within half a hundredth.
pub format_memory_size_accuracy :
    (bytes : ℕ)
    → bytes < 2 ^ 53
    → (u : ℕ) × (h : ℕ) × (read_fixed 2 (format_memory_size bytes) ≡ some (h, b' ' ∷ unit_name u))
      × IsUnitOf bytes u
      × IsNearest h u bytes
format_memory_size_accuracy bytes fit =
    let (u, h, text, best, nearest) = size_text_lem bytes in
    let whole = (format_memory_size-IsWhole bytes (omega arith)).0 in
    let short = few_digits u h (to_double bytes) best nearest (double_below bytes (omega arith)) in
    let exact = to_double-exact bytes fit in
    (
      u,
      h,
      ap (read_fixed 2) (whole ∙ text) ∙ read-fixed 2 h (b' ' ∷ unit_name u) (omega arith),
      subst (λ size. IsUnitOf size u) exact best,
      subst (λ size. IsNearest h u size) exact nearest,
    )

kilobytes :
    (bytes : ℕ)
    → 1024 ≤ bytes
    → bytes < 1048576
    → size_text bytes ≡ fixed 2 (near (bytes * 100) 1024) ++ codes " KB"
unfolding size_text scaled unit_name
kilobytes bytes low high =
    let past : ltb bytes 1024 ≡ false = ground arith in
    rw (to_double-exact bytes (omega arith), past, lt→ltb bytes 1048576 high) refl

carried : fixed 2 102400 ++ codes " KB" ≡ codes "1024.00 KB"
unfolding fixed
carried = refl

-- Sizes from 1048571 bytes up to one byte below a megabyte are printed as 1024.00 KB.
pub format_memory_size_carry :
    (bytes : ℕ) → 1048571 ≤ bytes → bytes < 1048576 → format_memory_size bytes ≡ codes "1024.00 KB"
format_memory_size_carry bytes low high =
    let rounded : near (bytes * 100) 1024 ≡ 102400 =
      omega (arith, near_bounds (bytes * 100) 1024 (omega arith)) in
    (format_memory_size-IsWhole bytes (omega arith)).0
    ∙ kilobytes bytes (omega arith) high
    ∙ ap (λ h. fixed 2 h ++ codes " KB") rounded
    ∙ carried
