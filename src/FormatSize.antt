-- ===== src/FormatSize.antt =====
-- formatMemorySize, which macos/process/memory_info.cc and
-- windows/process/process_memory_monitor.cpp write out alike.
pub mod Accuracy
use memory_demo.Base.{ℕ, zero, suc, ◌+◌, ◌*◌, ltb, ◌==◌, if◌then◌else◌, ◌∷◌, ◌++◌}
use memory_demo.Double.{near, to_double}
use memory_demo.Decimal.{Chars, codes, fixed, cut}

-- `units`, by its index.
pub unit_name : ℕ → Chars
unit_name u =
    if u == 0
    then codes "B"
    else if u == 1
    then codes "KB"
    else if u == 2
    then codes "MB"
    else codes "GB"

-- The loop on a size of r / scale: `left` is 3 - unitIndex. Dividing a double by 1024 is exact.
pub scaled : (left r scale unit_index : ℕ) → ℕ × ℕ
scaled zero r scale unit_index = (scale, unit_index)
scaled (suc left) r scale unit_index =
    if ltb r (1024 * scale)
    then (scale, unit_index)
    else scaled left r (scale * 1024) (unit_index + 1)

-- "%.2f %s", before it is cut to the buffer.
pub size_text : ℕ → Chars
unfolding unit_name scaled
size_text bytes =
    let size = to_double bytes in
    let (scale, unit_index) = scaled 3 size 1 0 in
    fixed 2 (near (size * 100) scale) ++ b' ' ∷ unit_name unit_index

-- The buffer has 32 bytes.
pub format_memory_size : ℕ → Chars
format_memory_size bytes = cut 32 (size_text bytes)
