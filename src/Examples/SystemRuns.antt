-- ===== src/Examples/SystemRuns.antt =====
-- The theorems on macos/system/test.cc at concrete inputs.
use memory_demo.Base.{some, ℕ, ◌+◌, ◌-◌, ◌*◌, ◌%◌, ◌≤◌, ◌≡◌, arith}
use memory_demo.Base.Word.{u32, u64}
use memory_demo.SystemPressure.{
  Host, returned, get_system_memory_pressure, VmStat, free, used, pressure, app_memory,
  total_memory,
}
use memory_demo.SystemPressure.Accuracy.{get_system_memory_pressure_accuracy}
use memory_demo.SystemPressure.Totals.{
  get_system_memory_pressure_bounds, all_pages, pressure_part, app_memory_wraps,
}

-- The counts of a small host.
abbrev stat : ℕ → VmStat
stat purgeable = record {
  active_count = 300000;
  inactive_count = 280000;
  speculative_count = 5000;
  wire_count = 150000;
  compressor_page_count = 90000;
  internal_page_count = 400000;
  external_page_count = 180000;
  purgeable_count = purgeable;
  free_count = 20000;
  swapouts = 0;
  total_uncompressed_pages_in_compressor = 250000;
}

pressure_part_example :
    ((free 16384 (stat 8000) + used 16384 (stat 8000)) % u64 ≡ all_pages (stat 8000) * 16384)
    × (pressure 16384 (stat 8000) ≡ (150000 + 90000) * 16384)
    × (pressure 16384 (stat 8000) ≤ (free 16384 (stat 8000) + used 16384 (stat 8000)) % u64)
    × ((free 16384 (stat 8000) + used 16384 (stat 8000)) % u64
        ≡ total_memory 16384 (stat 8000) + 5000 * 16384)
pressure_part_example = pressure_part 16384 (stat 8000) (omega arith) (omega arith)

app_memory_wraps_example : app_memory 16384 (stat 400001) + (400001 - 400000) * 16384 ≡ u32 * 16384
app_memory_wraps_example =
    app_memory_wraps 16384 (stat 400001) (omega arith) (omega arith) (omega arith)

get_system_memory_pressure_example :
    let host : Host = record {
      page_size = some 16384;
      statistics = some (stat 8000);
      swap_used = some 0;
    } in
    (n : ℕ) × ((get_system_memory_pressure host).1 ≡ returned n) × (n ≤ 100)
get_system_memory_pressure_example =
    get_system_memory_pressure_bounds 16384 0 (stat 8000) (omega arith) (omega arith) (omega arith)

get_system_memory_pressure_accuracy_example :
    let v = stat 8000 in
    let host : Host = record { page_size = some 16384; statistics = some v; swap_used = some 0 } in
    (n : ℕ) × ((get_system_memory_pressure host).1 ≡ returned n)
    × (n * all_pages v ≤ 100 * (150000 + 90000))
    × (100 * (150000 + 90000) ≤ (n + 1) * all_pages v)
get_system_memory_pressure_accuracy_example =
    get_system_memory_pressure_accuracy 16384 0 (stat 8000) (omega arith) (omega arith)
      (omega arith)
