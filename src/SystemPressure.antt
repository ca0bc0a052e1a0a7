-- ===== src/SystemPressure.antt =====
-- macos/system/test.cc: GetSystemMemoryPressure.
pub mod Totals
pub mod Accuracy
use memory_demo.Base.{
  ℕ, ◌+◌, ◌-◌, ◌*◌, ◌%◌, ◌^◌, Bool, true, false, not, ◌&&◌, ltb, leb, ◌==◌, if◌then◌else◌, Option,
  none, some, List, [], ◌∷◌, ◌++◌,
}
use memory_demo.Base.Word.{u32, u64}
use memory_demo.Double.{near, to_double, div_double, times, whole}
use memory_demo.Decimal.General.{general}
use memory_demo.Decimal.{Chars, codes, fixed}
use memory_demo.Os.{Message, value, text, error}

-- vm_statistics64_data_t, the fields that are read. All but the last two are natural_t, 32 bits wide.
pub record VmStat : Type 0 where
  pub active_count : ℕ
  pub inactive_count : ℕ
  pub speculative_count : ℕ
  pub wire_count : ℕ
  pub compressor_page_count : ℕ
  pub internal_page_count : ℕ
  pub external_page_count : ℕ
  pub purgeable_count : ℕ
  pub free_count : ℕ
  pub swapouts : ℕ
  pub total_uncompressed_pages_in_compressor : ℕ

-- What the host answers: `none` is a code that is not KERN_SUCCESS, or a negative one from sysctl.
pub record Host : Type 0 where
  pub page_size : Option ℕ
  pub statistics : Option VmStat
  pub swap_used : Option ℕ

-- So many pages in bytes: a 32-bit number times the 64-bit page size.
abbrev pub pages_bytes : ℕ → ℕ → ℕ
pages_bytes page_size pages = pages % u32 * page_size % u64

-- The differences of natural_t that the program takes.
abbrev pub minus : ℕ → ℕ → ℕ
minus a b = (a + u32 - b) % u32

-- useAndCache, cache, used, free and pressure. They are long long, here as their 64 bits.
pub use_and_cache : ℕ → VmStat → ℕ
use_and_cache page_size v = pages_bytes page_size (
    v.active_count + v.inactive_count + v.speculative_count + v.wire_count
    + v.compressor_page_count)

pub cache : ℕ → VmStat → ℕ
cache page_size v = pages_bytes page_size (v.purgeable_count + v.external_page_count)

pub used : ℕ → VmStat → ℕ
unfolding use_and_cache cache
used page_size v = (use_and_cache page_size v + u64 - cache page_size v) % u64

pub free : ℕ → VmStat → ℕ
unfolding use_and_cache used
free page_size v =
    ((use_and_cache page_size v + pages_bytes page_size v.free_count) % u64
      + u64
      - used page_size v)
    % u64

pub pressure : ℕ → VmStat → ℕ
pressure page_size v = pages_bytes page_size (v.wire_count + v.compressor_page_count)

pub app_memory : ℕ → VmStat → ℕ
app_memory page_size v = pages_bytes page_size (minus v.internal_page_count v.purgeable_count)

-- The two lines "总内存".
pub total_memory : ℕ → VmStat → ℕ
total_memory page_size v =
    pages_bytes page_size
      (v.inactive_count + v.active_count + v.free_count + v.compressor_page_count + v.wire_count)

pub total_memory_by_backing : ℕ → VmStat → ℕ
total_memory_by_backing page_size v = pages_bytes page_size (
    v.internal_page_count + v.external_page_count + v.free_count + v.compressor_page_count
    + v.wire_count)

-- A long long by its 64 bits.
abbrev pub is_negative : ℕ → Bool
is_negative w = leb (2 ^ 63) w

abbrev pub magnitude : ℕ → ℕ
magnitude w = if is_negative w then u64 - w else w

-- std::to_string prints six places. Dividing a double by 1024 is exact.
pub gigabytes : ℕ → Chars
gigabytes bytes = fixed 6 (near (to_double bytes * 1000000) (1024 * 1024 * 1024)) ++ codes " GB"

-- ParseMB, which nothing calls.
pub parse_mb : ℕ → Chars
parse_mb bytes = fixed 6 (near (to_double bytes * 1000000) (1024 * 1024)) ++ codes " MB"

-- ParseGB of an unsigned long, and of a long long.
pub parse_gb : ℕ → Chars
unfolding gigabytes
parse_gb bytes = gigabytes bytes

pub parse_gb_signed : ℕ → Chars
unfolding gigabytes
parse_gb_signed w = if is_negative w then b'-' ∷ gigabytes (magnitude w) else gigabytes w

abbrev differ : Bool → Bool → Bool
differ true b = not b
differ false b = b

-- `pressure * 1.0 / (free + used) * 100` as uint32_t. `none`: a division by zero gives no number
-- that fits, and converting what does not fit is undefined.
pub pressure_percent : (pressure total : ℕ) → Option ℕ
pressure_percent pressure total =
    let quotient = div_double (to_double (magnitude pressure)) (to_double (magnitude total)) in
    let percent = whole (times quotient 100) in
    let negative = differ (is_negative pressure) (is_negative total) in
    if magnitude total == 0
    then none
    else if not (ltb percent u32)
    then none
    else if negative && ltb 0 percent
    then none
    else some percent

-- The lines up to the call of sysctl, with what ParseGB makes of them.
pub usage_lines : ℕ → VmStat → List Message
unfolding use_and_cache used free pressure app_memory
usage_lines page_size v =
    let bytes = λ (pages : ℕ). parse_gb (pages_bytes page_size pages) in
    value "page_size:" page_size
    ∷ text "internal_page_count:" (bytes v.internal_page_count)
    ∷ text "active_count:" (bytes v.active_count)
    ∷ text "inactive_count:" (bytes v.inactive_count)
    ∷ text "active_count + inactive_count:" (bytes (v.inactive_count + v.active_count))
    ∷ text "purgeable_count:" (bytes v.purgeable_count)
    ∷ text "App 内存:" (parse_gb (app_memory page_size v))
    ∷ text "联动内存:" (bytes v.wire_count)
    ∷ text "App + 已缓存内存:"
        (bytes (minus ((v.internal_page_count + v.external_page_count) % u32) v.speculative_count))
    ∷ text "App 内存 + 联动内存+ purgeable_count:"
        (bytes (minus v.internal_page_count v.purgeable_count + v.wire_count + v.purgeable_count))
    ∷ text "已使用=App +联动内存+被压缩" (
        bytes
          (minus v.internal_page_count v.purgeable_count + v.wire_count + v.compressor_page_count))
    ∷ text "Pages stored in compressor:" (
        general (to_double (v.total_uncompressed_pages_in_compressor * page_size % u64))
          (1024 * 1024 * 1024)
        ++ codes "GB")
    ∷ text "被压缩:" (bytes v.compressor_page_count)
    ∷ text "external_page_count:" (bytes v.external_page_count)
    ∷ text "已缓存文件" (bytes (v.external_page_count + v.purgeable_count))
    ∷ text "pressure:" (parse_gb_signed (pressure page_size v))
    ∷ text "free + used:" (parse_gb_signed ((free page_size v + used page_size v) % u64))
    ∷ text "useAndCache:" (parse_gb_signed (use_and_cache page_size v))
    ∷ text "free:" (bytes v.free_count)
    ∷ text "speculative_count:" (bytes v.speculative_count)
    ∷ text "swapouts:" (parse_gb (v.swapouts * page_size % u64))
    ∷ []

pub total_lines : ℕ → VmStat → ℕ → List Message
unfolding total_memory total_memory_by_backing
total_lines page_size v swap_used =
    text "已使用的交换:" (parse_gb swap_used)
    ∷ text "总内存:" (parse_gb (total_memory page_size v))
    ∷ text "总内存:" (parse_gb (total_memory_by_backing page_size v))
    ∷ []

-- The ways in which GetSystemMemoryPressure ends.
pub data Ending : Type 0 where
  returned : ℕ → Ending
  exited undefined : Ending

abbrev pub ending : Option ℕ → Ending
ending none = undefined
ending (some percent) = returned percent

pub get_system_memory_pressure : Host → List Message × Ending
unfolding usage_lines total_lines free used pressure pressure_percent
get_system_memory_pressure host = elim host.page_size [
  | none ↦ ([], returned 0)
  | some page_size ↦ elim host.statistics [
    | none ↦ ([], returned 0)
    | some v ↦ elim host.swap_used [
      | none ↦ (usage_lines page_size v ++ error "sysctl" ∷ [], exited)
      | some swap ↦ (
        usage_lines page_size v ++ total_lines page_size v swap,
        ending
            (pressure_percent (pressure page_size v) ((free page_size v + used page_size v) % u64)),
      )
    ]
  ]
]

-- main: a report every two seconds, until sysctl fails. The list has what the host answers, round by
-- round.
pub watch : List Host → List Message
unfolding get_system_memory_pressure
watch [] = []
watch (host ∷ later) =
    let (lines, e) = get_system_memory_pressure host in
    let rest = watch later in
    lines ++ elim e [ returned n ↦ value "" n ∷ rest | exited ↦ [] | undefined ↦ [] ]
