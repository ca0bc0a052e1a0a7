-- ===== src/Examples/XnuRuns.antt =====
-- The theorems on the programs of macos/process at concrete inputs.
use memory_demo.Base.{◌+◌, ℕ, ◌≡◌, refl, [], arith, All}
use memory_demo.Os.{free, munmap, Leaves, Owns-refl, IsLegal}
use memory_demo.MemoryInfo.{VmInfo}
use memory_demo.Xnu
use memory_demo.Xnu.Memory.Commit.{EndsWith, private_demonstrations_commit}
use memory_demo.Xnu.IoKit
use memory_demo.Xnu.IoKit.Files.{demo_iokit_mapping-Owns}
use memory_demo.SharedLibrary.{create_large_shared_library, demo_shared_library_code_segment}
use memory_demo.SharedLibrary.Ownership.{Outcome, demo_shared_library_code_segment-Owns}
use memory_demo.Xnu.Mach.{mach_main, mach_main-Owns}
use memory_demo.Xnu.DirtyFile.{dirty_main, dirty_main-Owns}
use memory_demo.Xnu.SysV.Search.{
  Found, first_granted, attempts, size_options_bounds, try_sizes-Found, try_sizes-eq-first_granted,
}
use memory_demo.Xnu.SysV.Children.{shared_memory-children}
use memory_demo.Xnu.SysV.Segment.{demo_sysv_shared_memory-Owns}
use memory_demo.Examples.Simulator.{simulator, simulator-IsLawful, start}

private_demonstrations_example :
    Leaves [] [] (Xnu.demo_internal_memory simulator 3 start)
    × Leaves [] [] (Xnu.demo_anonymous_mapping simulator 3 start)
    × Leaves [] [] (Xnu.demo_purgeable_memory simulator 3 start)
private_demonstrations_example = Xnu.private_demonstrations-Owns simulator-IsLawful 3 start tt

private_demonstrations_commit_example :
    EndsWith start (free 1) (1 + 8192) b'A' (Xnu.demo_internal_memory simulator 3 start).1
    × EndsWith start
        (munmap 1 3145728)
        (1 + 8192)
        b'C'
        (Xnu.demo_anonymous_mapping simulator 3 start).1
    × EndsWith start (free 1) (1 + 8192) b'P' (Xnu.demo_purgeable_memory simulator 3 start).1
private_demonstrations_commit_example =
    private_demonstrations_commit simulator 3 1 1 8192 start refl refl (omega arith) refl

demo_iokit_mapping_example : Leaves [] [] (IoKit.demo_iokit_mapping simulator start)
demo_iokit_mapping_example = demo_iokit_mapping-Owns simulator-IsLawful start refl refl tt

demo_memory_compression_example : Leaves [] [] (Xnu.demo_memory_compression simulator 1 start)
demo_memory_compression_example = Xnu.demo_memory_compression-Owns simulator-IsLawful start tt 1

demo_page_table_example : Leaves [] [] (Xnu.demo_page_table simulator 1 16 start)
demo_page_table_example = Xnu.demo_page_table-Owns simulator-IsLawful start tt 1 16 (omega arith)

demo_file_mapped_memory_example : Leaves [] [] (Xnu.demo_file_mapped_memory simulator 2 start)
demo_file_mapped_memory_example = Xnu.demo_file_mapped_memory-Owns simulator-IsLawful 2 start tt

demo_anonymous_shared_memory_example :
    Leaves [] [] (Xnu.demo_anonymous_shared_memory simulator 2 start)
demo_anonymous_shared_memory_example =
    Xnu.demo_anonymous_shared_memory-Owns simulator-IsLawful 2 start (Owns-refl [] tt)

mach_main_example : Leaves [] [] (mach_main simulator (λ before after. after) start)
mach_main_example = mach_main-Owns simulator-IsLawful (λ before after. after) start tt

demo_shared_memory_example : Leaves [] [] (Xnu.demo_shared_memory simulator 2 start)
demo_shared_memory_example =
    Xnu.demo_shared_memory-Owns simulator-IsLawful 2 start (Owns-refl [] tt)

demo_sysv_shared_memory_example : Leaves [] [] (Xnu.demo_sysv_shared_memory simulator 5 start)
demo_sysv_shared_memory_example = demo_sysv_shared_memory-Owns simulator-IsLawful 5 start tt

try_sizes_example :
    Xnu.try_sizes simulator Xnu.size_options start
    ≡ first_granted simulator (attempts Xnu.size_options) start
try_sizes_example = try_sizes-eq-first_granted simulator Xnu.size_options start

try_sizes-Found_example : Found [] [] (Xnu.try_sizes simulator Xnu.size_options start)
try_sizes-Found_example =
    try_sizes-Found simulator-IsLawful Xnu.size_options start size_options_bounds (Owns-refl [] tt)

shared_memory-children_example :
    All IsLegal (Xnu.demo_anonymous_shared_memory simulator 1 start).1.children
    × All IsLegal (Xnu.demo_shared_memory simulator 1 start).1.children
    × All IsLegal (Xnu.demo_sysv_shared_memory simulator 1 start).1.children
shared_memory-children_example = shared_memory-children simulator-IsLawful 1 start tt tt

abbrev figures_of : ℕ → VmInfo
figures_of v = record {
  phys_footprint = 4000000;
  internal = 3000000;
  compressed = 0;
  ledger_purgeable_nonvolatile = 0;
  purgeable_volatile_resident = 0;
  purgeable_volatile_virtual = 0;
}

dirty_main_example : Leaves [] [] (dirty_main simulator figures_of start)
dirty_main_example = dirty_main-Owns simulator-IsLawful figures_of start tt

demo_shared_library_code_segment_example :
    Outcome [] [] 42
      (create_large_shared_library simulator 42 2 start).0
      (demo_shared_library_code_segment simulator 2 start).1
demo_shared_library_code_segment_example =
    demo_shared_library_code_segment-Owns simulator-IsLawful 2 start refl (Owns-refl [] tt)
