-- ===== src/Examples/OsRuns.antt =====
-- The theorems on the shared loops and on temporary files, and on large_code_segment.cpp, at concrete inputs.
use memory_demo.Base.{
  ◌+◌, ◌-◌, ◌*◌, ◌/◌, ◌≡◌, ◌≤◌, ℕ, [], some, none, arith, ◌⊎◌, ◌&&◌, ltb, leb, if◌then◌else◌,
}
use memory_demo.Os.{
  create_file, touch_from, fill_from, touch, stamped, fill, memory_demo_tmp, create_temp_file,
  bytes_submitted, chunk_size, touch_memory, fill_memory, create_temp_file_bytes,
}
use memory_demo.CodeSegment.{force_from, force_load_all_pages, force_load_all_pages_lem, up_to}
use memory_demo.Examples.Simulator.{simulator, start}

touch_memory_example :
    ((touch 4096 9000 b'A' start).1.memory 12288 ≡ stamped 4096 9000 b'A' start.memory 12288)
    × ((more : ℕ)
        → 9000 / 4096 + 2 ≤ more
        → touch_from more 4096 9000 b'A' 0 start ≡ touch 4096 9000 b'A' start)
touch_memory_example = touch_memory 4096 9000 b'A' start 12288 (omega arith)

fill_memory_example :
    ((fill 4096 3 b'Z' start).1.memory 4098
      ≡ (if leb 4096 4098 && ltb 4098 (4096 + 3) then b'Z' else start.memory 4098))
    × ((more : ℕ) → 3 + 1 ≤ more → fill_from more 4096 3 b'Z' 0 start ≡ fill 4096 3 b'Z' start)
fill_memory_example = fill_memory 4096 3 b'Z' start 4098 (omega arith)

create_temp_file_bytes_example :
    let (made, s') = create_temp_file simulator (memory_demo_tmp 7) 2 start in
    ((v : ℕ) × (simulator.reply start.trace (create_file (memory_demo_tmp 7)) ≡ some v)
      × (made ≡ some (memory_demo_tmp 7))
      × (bytes_submitted s'.trace ≡ 2 * chunk_size + bytes_submitted start.trace))
    ⊎ ((simulator.reply start.trace (create_file (memory_demo_tmp 7)) ≡ none)
        × (made ≡ none)
        × (bytes_submitted s'.trace ≡ bytes_submitted start.trace))
create_temp_file_bytes_example = create_temp_file_bytes simulator (memory_demo_tmp 7) 2 start

force_load_all_pages_example :
    (force_load_all_pages 104857600 ≡ (1, up_to ((104857600 - 1) / (1024 * 1024))))
    × ((more : ℕ)
        → 104857600 + 1 ≤ more
        → force_from more 104857600 0 0 [] ≡ force_load_all_pages 104857600)
force_load_all_pages_example = force_load_all_pages_lem 104857600 (omega arith) (omega arith)
