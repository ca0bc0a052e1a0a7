-- ===== src/Examples/MemoryInfoRuns.antt =====
-- The theorems on macos/process/memory_info.cc at concrete inputs.
use memory_demo.Base.{
  ℕ, ◌+◌, ◌≡◌, ◌≢◌, ◌%◌, refl, ltb, if◌then◌else◌, Option, [], ◌∷◌, some, none, arith,
}
use memory_demo.Base.Word.{u64}
use memory_demo.Os.{Leaves, task_for_pid}
use memory_demo.MemoryInfo.{
  sm_private, sm_shared, Region, VmInfo, Kernel, add_shared, walk, printed, print_memory_info,
  get_process_shared_memory, next_region, next_within,
}
use memory_demo.MemoryInfo.Walk.{Lists, IsRegionMap, walk_ends}
use memory_demo.MemoryInfo.Totals.{
  private_sum, shared_sum, not_private_sum, print_memory_info_totals,
  get_process_shared_memory_total, get_process_shared_memory-Owns,
}
use memory_demo.Examples.Simulator.{simulator, simulator-IsLawful, start}

-- A task with a private region and, behind it, one that two tasks share.
abbrev code : Region
code = record {
  start = 4096;
  bytes = 4096;
  share_mode = sm_private;
  ref_count = 1;
  private_pages_resident = 1;
  shared_pages_resident = 0;
}

abbrev common : Region
common = record {
  start = 8192;
  bytes = 8192;
  share_mode = sm_shared;
  ref_count = 2;
  private_pages_resident = 0;
  shared_pages_resident = 2;
}

abbrev info : VmInfo
info = record {
  phys_footprint = 4000000;
  internal = 3000000;
  compressed = 2000000;
  ledger_purgeable_nonvolatile = 0;
  purgeable_volatile_resident = 0;
  purgeable_volatile_virtual = 0;
}

abbrev found : ℕ → Option Region
found a = if ltb a 8192 then some code else if ltb a 16384 then some common else none

-- The second region is met one level down.
abbrev found_within : ℕ → ℕ → Option (Region × ℕ)
found_within a depth =
    if ltb a 8192
    then some (code, depth)
    else if ltb a 16384
    then some (common, depth + 1)
    else none

abbrev kernel : Kernel
kernel = record {
  region_at = found;
  region_within = found_within;
  vm_page_size = 4096;
  vm_info = some info;
}

kernel-IsRegionMap : IsRegionMap kernel
kernel-IsRegionMap = (λ a r e. ground arith, λ a depth r d e. ground arith)

regions_listed : Lists (next_region kernel) 0 (code ∷ common ∷ []) 16384
unfolding next_region
regions_listed = (8192, refl, (16384, refl, (refl, refl)))

levels_listed : Lists (next_within kernel) (0, 1) (code ∷ common ∷ []) (16384, 2)
unfolding next_within
levels_listed = ((8192, 1), refl, ((16384, 2), refl, (refl, refl)))

walk_ends_example :
    (walk (next_region kernel) add_shared (u64 + 1) 0 0 ≢ none)
    × (walk (next_within kernel) add_shared (u64 + 1) (0, 1) 0 ≢ none)
walk_ends_example = walk_ends kernel add_shared (u64 + 1) 1 0 kernel-IsRegionMap (omega arith)

print_memory_info_totals_example :
    print_memory_info kernel 3
    ≡ some (
        some (
          printed kernel info
            (
              private_sum kernel (code ∷ common ∷ []) % u64,
              shared_sum kernel (code ∷ common ∷ []) % u64,
            )
            0))
print_memory_info_totals_example =
    print_memory_info_totals kernel info (code ∷ common ∷ []) 16384 3 refl regions_listed
      (omega arith)

get_process_shared_memory_total_example :
    (get_process_shared_memory simulator kernel 3 42 start).0
    ≡ elim (simulator.reply start.trace (task_for_pid 42)) [
      | none ↦ some 0
      | some task ↦ some (not_private_sum (code ∷ common ∷ []) % u64)
    ]
get_process_shared_memory_total_example =
    get_process_shared_memory_total simulator kernel (code ∷ common ∷ []) (16384, 2) 3 42 start
      levels_listed (omega arith)

get_process_shared_memory_example :
    Leaves [] [] (get_process_shared_memory simulator kernel 3 42 start)
get_process_shared_memory_example =
    get_process_shared_memory-Owns simulator-IsLawful kernel 3 42 start tt
