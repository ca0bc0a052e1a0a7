-- ===== src/SystemPressure/Totals.antt =====
-- How the figures of GetSystemMemoryPressure hang together.
use memory_demo.Base.{
  ◌^◌, lt→ltb, false, some, ℕ, ◌+◌, ◌-◌, ◌*◌, ◌%◌, ◌≤◌, ◌<◌, ◌≡◌, ◌∙◌, ap, arith,
}
use native.Mathlib.Nat.{mul-le-mul_right}
use memory_demo.Base.Word.{u32, u64}
use memory_demo.Double.{div_double, times, whole}
use memory_demo.Double.Rounding.{to_double-exact}
use memory_demo.Double.Percent.{percent-le}
use memory_demo.SystemPressure.{
  is_negative, pressure_percent, Host, returned, ending, get_system_memory_pressure, VmStat,
  pages_bytes, minus, use_and_cache, cache, used, free, pressure, app_memory, total_memory,
}

-- All pages of the host.
abbrev pub all_pages : VmStat → ℕ
all_pages v =
    v.active_count + v.inactive_count + v.speculative_count + v.wire_count + v.compressor_page_count
    + v.free_count

-- The cache cancels out of free + used.
free-used :
    (page_size : ℕ) (v : VmStat)
    → (free page_size v + used page_size v) % u64
      ≡ (use_and_cache page_size v + pages_bytes page_size v.free_count) % u64
unfolding free used use_and_cache cache
free-used page_size v = omega arith

-- Numbers of pages that fit their 32 bits, and whose bytes fit 64.
pages_bytes_exact :
    (page_size pages all : ℕ)
    → pages ≤ all
    → all < u32
    → all * page_size < u64
    → pages_bytes page_size pages ≡ pages * page_size
pages_bytes_exact page_size pages all h small fit =
    let whole : pages % u32 ≡ pages = omega arith in
    rw whole (omega (arith, mul-le-mul_right page_size h))

-- Where all pages of the host together fit 32 bits and their bytes 64: the divisor free + used is
-- the bytes of all pages, the pressure is the bytes of the wired and compressed pages and at most
-- the divisor, and the divisor is the first total printed and the speculative pages.
pub pressure_part :
    (page_size : ℕ) (v : VmStat)
    → all_pages v < u32
    → all_pages v * page_size < u64
    → ((free page_size v + used page_size v) % u64 ≡ all_pages v * page_size)
      × (pressure page_size v ≡ (v.wire_count + v.compressor_page_count) * page_size)
      × (pressure page_size v ≤ (free page_size v + used page_size v) % u64)
      × ((free page_size v + used page_size v) % u64
          ≡ total_memory page_size v + v.speculative_count * page_size)
unfolding pressure total_memory use_and_cache
pressure_part page_size v small fit =
    let exact = λ (pages : ℕ) (h : pages ≤ all_pages v).
      pages_bytes_exact page_size pages (all_pages v) h small fit in
    let whole = free-used page_size v in
    let cached =
      exact
        (v.active_count + v.inactive_count + v.speculative_count + v.wire_count
          + v.compressor_page_count)
        (omega arith) in
    let unused = exact v.free_count (omega arith) in
    let pressing = exact (v.wire_count + v.compressor_page_count) (omega arith) in
    let total =
      exact
        (v.inactive_count + v.active_count + v.free_count + v.compressor_page_count + v.wire_count)
        (omega arith) in
    (
      omega arith,
      omega arith,
      omega (
        arith,
        mul-le-mul_right {m = v.wire_count + v.compressor_page_count} {n = all_pages v} page_size
            (omega arith),
      ),
      omega arith,
    )

together : (a b k : ℕ) → a + b ≡ u32 → a * k + b * k ≡ u32 * k
together a b k h = omega arith ∙ ap (λ n. n * k) h

minus_exact :
    (v : VmStat)
    → v.internal_page_count < v.purgeable_count
    → v.purgeable_count < u32
    → minus v.internal_page_count v.purgeable_count
      ≡ v.internal_page_count + u32 - v.purgeable_count
minus_exact v more small = omega arith

-- Where there are more purgeable than internal pages, with counts and page size that fit 32 bits,
-- the app memory printed has wrapped round at 2 ^ 32 pages: it falls short of them by the excess.
pub app_memory_wraps :
    (page_size : ℕ) (v : VmStat)
    → v.internal_page_count < v.purgeable_count
    → v.purgeable_count < u32
    → page_size < u32
    → app_memory page_size v + (v.purgeable_count - v.internal_page_count) * page_size
      ≡ u32 * page_size
unfolding app_memory
app_memory_wraps page_size v more small size =
    let w = v.internal_page_count + u32 - v.purgeable_count in
    let d = v.purgeable_count - v.internal_page_count in
    let split : w + d ≡ u32 = omega arith in
    let exact = pages_bytes_exact page_size w (u32 - 1) (omega arith) (omega arith) (omega arith) in
    rw (minus_exact v more small) (ap (λ n. n + d * page_size) exact ∙ together w d page_size split)

not_negative : (w : ℕ) → w < 2 ^ 53 → is_negative w ≡ false
not_negative w h = ground arith

-- A share of a total below 2 ^ 53 bytes, in whole percent.
pub pressure_percent_eq :
    (p t : ℕ)
    → 0 < t
    → t < 2 ^ 53
    → p ≤ t
    → pressure_percent p t ≡ some (whole (times (div_double p t) 100))
unfolding pressure_percent
pressure_percent_eq p t pos small part =
    let bound : whole (times (div_double p t) 100) ≤ 100 = percent-le p t pos part in
    rw
      (
        not_negative p (omega arith),
        not_negative t (omega arith),
        to_double-exact p (omega arith),
        to_double-exact t (omega arith),
        lt→ltb (whole (times (div_double p t) 100)) u32 (omega arith),
      )
      (ground arith)

-- Where the host answers all three calls, all pages together fit 32 bits, and their bytes are not 0
-- and below 2 ^ 53: GetSystemMemoryPressure returns a number, and it is at most 100, through all
-- roundings of the double arithmetic.
pub get_system_memory_pressure_bounds :
    (page_size swap : ℕ) (v : VmStat)
    → all_pages v < u32
    → all_pages v * page_size < 2 ^ 53
    → 0 < all_pages v * page_size
    → let host : Host = record {
      page_size = some page_size;
      statistics = some v;
      swap_used = some swap;
    } in
      (n : ℕ) × ((get_system_memory_pressure host).1 ≡ returned n) × (n ≤ 100)
unfolding get_system_memory_pressure
get_system_memory_pressure_bounds page_size swap v small fit pos =
    let (total, part, below, rest) = pressure_part page_size v small (omega arith) in
    let t = (free page_size v + used page_size v) % u64 in
    let at_least : 0 < t = omega (arith, total) in
    (
      _,
      ap ending
          (pressure_percent_eq (pressure page_size v) t at_least (omega (arith, total)) below),
      percent-le (pressure page_size v) t at_least below,
    )
