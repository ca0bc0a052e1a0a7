-- ===== src/Examples/FormatRuns.antt =====
-- The theorems on formatMemorySize at concrete inputs.
use memory_demo.Base.{ℕ, ◌≤◌, ◌≡◌, some, ◌∷◌, arith, length}
use memory_demo.Decimal.{codes}
use memory_demo.Decimal.Reader.{read_fixed}
use memory_demo.FormatSize.{unit_name, size_text, format_memory_size}
use memory_demo.FormatSize.Accuracy.{
  IsUnitOf, IsNearest, format_memory_size_accuracy, format_memory_size-IsWhole,
  format_memory_size_carry,
}

format_memory_size_accuracy_example :
    (u : ℕ) × (h : ℕ) × (read_fixed 2 (format_memory_size 10737418) ≡ some (h, b' ' ∷ unit_name u))
    × IsUnitOf 10737418 u
    × IsNearest h u 10737418
format_memory_size_accuracy_example = format_memory_size_accuracy 10737418 (omega arith)

format_memory_size_whole_example :
    (format_memory_size 18446744073709551615 ≡ size_text 18446744073709551615)
    × (length (format_memory_size 18446744073709551615) ≤ 17)
format_memory_size_whole_example = format_memory_size-IsWhole 18446744073709551615 (omega arith)

format_memory_size_carry_example : format_memory_size 1048575 ≡ codes "1024.00 KB"
format_memory_size_carry_example = format_memory_size_carry 1048575 (omega arith) (omega arith)
