-- ===== src/Examples/WindowsRuns.antt =====
-- The theorems on the programs of windows/process at concrete inputs.
use memory_demo.Base.{ℕ, ◌+◌, ◌*◌, ◌/◌, ◌≡◌, ◌≤◌, Bool, true, false, List, [], ◌∷◌, arith}
use memory_demo.Base.Word.{u32}
use memory_demo.Os.{Leaves, Owns-refl}
use memory_demo.Windows.Monitor.{
  Counters, Probe, count_pages, figures, working_set_info_size, information_bytes, block_bytes,
  print_process_memory_info,
}
use memory_demo.Windows.Monitor.Accounting.{count, figures_add_up, working_set_info_size_cut}
use memory_demo.Windows.Monitor.Buffer.{print_process_memory_info-Owns}
use memory_demo.Examples.Simulator.{simulator, simulator-IsLawful, start}

abbrev counters : ℕ → Counters
counters n = record { private_usage = 5000; working_set_size = n; pagefile_usage = 6000 }

-- A working set of three pages, one of them shared.
abbrev three_pages : List Bool
three_pages = false ∷ true ∷ false ∷ []

abbrev probe : Probe
probe = record { counters = counters 12288; last_error = 24; entries = λ n. three_pages }

print_process_memory_info_example : Leaves [] [] (print_process_memory_info simulator probe start)
print_process_memory_info_example =
    print_process_memory_info-Owns simulator-IsLawful probe start (Owns-refl [] tt)

figures_add_up_example :
    let f = figures (counters 12288) (count_pages three_pages (0, 0)) in
    (f.private_working_set ≡ count false three_pages * 4096)
    × (f.shared ≡ count true three_pages * 4096)
    × (f.shareable + count false three_pages * 4096 ≡ 12288)
    × (f.shared ≤ f.shareable)
figures_add_up_example = figures_add_up (counters 12288) three_pages (omega arith) (omega arith)

working_set_info_size_cut_example :
    working_set_info_size 2199023255552 + u32
    ≡ information_bytes + (2199023255552 / 4096 + 100) * block_bytes
working_set_info_size_cut_example =
    working_set_info_size_cut 2199023255552 (omega arith) (omega arith)
