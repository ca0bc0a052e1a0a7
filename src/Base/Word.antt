-- ===== src/Base/Word.antt =====
-- Machine words as native numbers: 64-bit size_t, uint64_t and vm_size_t, and 32-bit unsigned.
use Prim.Native.Nat.{ℕ, ◌*◌, ◌%◌, ◌^◌}

abbrev pub u64 : ℕ
u64 = 2 ^ 64

abbrev pub u32 : ℕ
u32 = 2 ^ 32

-- `size_mb * 1024 * 1024` on size_t.
abbrev pub mb_bytes : ℕ → ℕ
mb_bytes size_mb = size_mb * 1024 % u64 * 1024 % u64

-- The stride of every loop that writes one byte to each page.
abbrev pub page : ℕ
page = 4096
