-- ===== src/SystemPressure/Accuracy.antt =====
-- How close the percentage of GetSystemMemoryPressure is to the quotient of the pages.
use native.Mathlib.Nat.{mul-lt-mul_of_pos_right}
use native.Mathlib.Decide.{dec_lt}
use memory_demo.Base.{◌∙◌, zero, suc, ℕ, ◌+◌, ◌*◌, ◌%◌, ◌^◌, ◌≤◌, ◌<◌, ◌≡◌, some, ap, arith}
use memory_demo.Base.Word.{u32, u64}
use memory_demo.Double.{div_double, times, whole}
use memory_demo.Double.Percent.{percent_bounds, twenty_nine_percent}
use memory_demo.SystemPressure.{
  pressure_percent, Host, returned, ending, get_system_memory_pressure, VmStat, used, free,
  pressure,
}
use memory_demo.SystemPressure.Totals.{all_pages, pressure_part, pressure_percent_eq}

-- A page has a positive number of bytes, so that bytes compare as pages do.
pages-le : (a b page_size : ℕ) → 0 < page_size → a * page_size ≤ b * page_size → a ≤ b
pages-le a b page_size pos h = elim (dec_lt b a) [
  | yes less ↦ absurd (omega (arith, mul-lt-mul_of_pos_right less pos))
  | no most ↦ omega arith
]

positive_factor : (a k : ℕ) → 0 < a * k → 0 < k
positive_factor a zero h = absurd (omega arith)
positive_factor a (suc k) h = omega arith

-- Bounds on bytes as bounds on pages.
in_pages :
    (n w a k p t : ℕ)
    → t ≡ a * k
    → p ≡ w * k
    → 0 < a * k
    → (n * t ≤ 100 * p) × (100 * p ≤ (n + 1) * t)
    → (n * a ≤ 100 * w) × (100 * w ≤ (n + 1) * a)
in_pages n w a k p t total part pos (least, most) =
    let some_bytes = positive_factor a k pos in
    let nt : n * t ≡ n * (a * k) = ap (λ x. n * x) total in
    (
      pages-le (n * a) (100 * w) k some_bytes (omega arith),
      pages-le (100 * w) ((n + 1) * a) k some_bytes (omega arith),
    )

-- Where the host answers all three calls, all pages together fit 32 bits, and their bytes are not 0
-- and below 2 ^ 45: GetSystemMemoryPressure returns the whole part of 100 times the wired and
-- compressed pages by all pages or, where that quotient is a whole number, perhaps one less.
pub get_system_memory_pressure_accuracy :
    (page_size swap : ℕ) (v : VmStat)
    → all_pages v < u32
    → all_pages v * page_size < 2 ^ 45
    → 0 < all_pages v * page_size
    → let host : Host = record {
      page_size = some page_size;
      statistics = some v;
      swap_used = some swap;
    } in
      (n : ℕ) × ((get_system_memory_pressure host).1 ≡ returned n)
      × (n * all_pages v ≤ 100 * (v.wire_count + v.compressor_page_count))
      × (100 * (v.wire_count + v.compressor_page_count) ≤ (n + 1) * all_pages v)
unfolding get_system_memory_pressure
get_system_memory_pressure_accuracy page_size swap v small fit pos =
    let (total, part, below, rest) = pressure_part page_size v small (omega arith) in
    let p = pressure page_size v in
    let t = (free page_size v + used page_size v) % u64 in
    let (least, most) =
      in_pages (whole (times (div_double p t) 100)) (v.wire_count + v.compressor_page_count)
        (all_pages v) page_size p t total part pos
        (percent_bounds p t (omega (arith, total)) below (omega (arith, total))) in
    (
      _,
      ap ending (pressure_percent_eq p t (omega (arith, total)) (omega (arith, total)) below),
      least,
      most,
    )

-- 29 of 100 pages: the quotient in percent is a whole number, and what is returned is one less.
rounded_down : pressure_percent 29 100 ≡ some 28
rounded_down =
    pressure_percent_eq 29 100 (omega arith) (omega arith) (omega arith)
    ∙ ap some twenty_nine_percent
