-- ===== src/MemoryInfo.antt =====
-- macos/process/memory_info.cc: the walks over the memory regions of a task.
pub mod Walk
pub mod Totals
use memory_demo.Base.{
  ℕ, zero, suc, ◌+◌, ◌*◌, ◌/◌, ◌%◌, Bool, true, false, ◌&&◌, ◌||◌, Option, none, some, ltb, ◌==◌,
  if◌then◌else◌,
}
use memory_demo.Base.Word.{u64}
use memory_demo.Os.{
  task_for_pid, port_deallocate, error, Os, Action, ◌>>=◌, ◌>>◌, pure, ask, say, on_reply,
}

-- The sharing modes of mach/vm_region.h.
pub data ShareMode : Type 0 where
  sm_cow sm_private sm_empty sm_shared sm_trueshared sm_private_aliased sm_shared_aliased :
      ShareMode
  sm_large_page : ShareMode

-- What vm_region_64 and mach_vm_region_recurse fill in for a region, with its address and size.
pub record Region : Type 0 where
  pub start : ℕ
  pub bytes : ℕ
  pub share_mode : ShareMode
  pub ref_count : ℕ
  pub private_pages_resident : ℕ
  pub shared_pages_resident : ℕ

-- The fields of task_vm_info_data_t that are read.
pub record VmInfo : Type 0 where
  pub phys_footprint : ℕ
  pub internal : ℕ
  pub compressed : ℕ
  pub ledger_purgeable_nonvolatile : ℕ
  pub purgeable_volatile_resident : ℕ
  pub purgeable_volatile_virtual : ℕ

-- The kernel's side: vm_region_64, the region found from an address on (`none` is a code that is not
-- KERN_SUCCESS); mach_vm_region_recurse, which is given a depth and hands one back; the page size;
-- and the task's own figures.
pub record Kernel : Type 0 where
  pub region_at : ℕ → Option Region
  pub region_within : (address depth : ℕ) → Option (Region × ℕ)
  pub vm_page_size : ℕ
  pub vm_info : Option VmInfo

abbrev is_private : ShareMode → Bool
is_private sm_private = true
is_private _ = false

abbrev is_cow : ShareMode → Bool
is_cow sm_cow = true
is_cow _ = false

abbrev is_shared : ShareMode → Bool
is_shared sm_shared = true
is_shared _ = false

-- A copy-on-write region with one reference is taken for a private one.
pub effective_mode : Region → ShareMode
effective_mode r = if is_cow r.share_mode && (r.ref_count == 1) then sm_private else r.share_mode

-- One round of the first walk: real_private_memory and real_shared_memory.
pub add_region : Kernel → Region → ℕ × ℕ → ℕ × ℕ
unfolding effective_mode
add_region k r (real_private, real_shared) =
    let mode = effective_mode r in
    if is_private mode
    then ((real_private + r.private_pages_resident * k.vm_page_size % u64) % u64, real_shared)
    else if (is_cow mode || is_shared mode) && ltb 1 r.ref_count
    then (
      real_private,
      (real_shared + r.shared_pages_resident * k.vm_page_size % u64 / r.ref_count) % u64,
    )
    else (real_private, real_shared)

-- A region and the place behind it, from an address on.
unfoldable pub next_region : Kernel → ℕ → Option (Region × ℕ)
next_region k address = elim (k.region_at address) [
  | none ↦ none
  | some r ↦ some (r, (r.start + r.bytes) % u64)
]

-- The same from an address and a depth on.
unfoldable pub next_within : Kernel → ℕ × ℕ → Option (Region × (ℕ × ℕ))
next_within k (address, depth) = elim (k.region_within address depth) [
  | none ↦ none
  | some (r, deeper) ↦ some (r, ((r.start + r.bytes) % u64, deeper))
]

-- A walk: `round` on each region found, from `place` on, until no region is found. The result is
-- what was accumulated and the place at which the walk ended; `none` is the end of the fuel.
pub walk :
    {C S : Type 0} → (C → Option (Region × C)) → (Region → S → S) → ℕ → C → S → Option (S × C)
walk next round zero place s = none
walk next round (suc fuel) place s = elim (next place) [
  | none ↦ some (s, place)
  | some (r, behind) ↦ walk next round fuel behind (round r s)
]

pub record Printed : Type 0 where
  pub footprint_mb : ℕ
  pub internal_mb : ℕ
  pub total_compressed_mb : ℕ
  pub compressed_mb : ℕ
  pub purgeable_mb : ℕ
  pub purgeable_volatile_mb : ℕ
  pub real_private_mb : ℕ
  pub real_shared_kb : ℕ

abbrev megabytes : ℕ → ℕ
megabytes n = n / 1024 / 1024

-- The lines that are printed. The body of the second walk counts nothing, since the line that would
-- is commented out.
pub printed : Kernel → VmInfo → ℕ × ℕ → (compressed_count : ℕ) → Printed
printed k info (real_private, real_shared) compressed_count = record {
  footprint_mb = megabytes info.phys_footprint;
  internal_mb = megabytes info.internal;
  total_compressed_mb =
      megabytes ((info.compressed + compressed_count * k.vm_page_size % u64) % u64);
  compressed_mb = megabytes info.compressed;
  purgeable_mb = megabytes info.ledger_purgeable_nonvolatile;
  purgeable_volatile_mb =
      megabytes ((info.purgeable_volatile_resident + info.purgeable_volatile_virtual) % u64);
  real_private_mb = megabytes real_private;
  real_shared_kb = real_shared / 1024;
}

abbrev pub then_walk : {A B : Type 0} → Option A → (A → Option B) → Option B
then_walk none f = none
then_walk (some a) f = f a

-- The two walks, and the report. The second walk goes on from where the first one ended.
pub report : Kernel → ℕ → VmInfo → Option (Option Printed)
unfolding add_region walk printed
report k fuel info =
    then_walk (walk (next_region k) (add_region k) fuel 0 (0, 0)) λ (totals, end_address).
      then_walk (walk (next_region k) (λ r (count : ℕ). count) fuel end_address 0)
        λ (compressed_count, last). some (some (printed k info totals compressed_count))

-- `some none` is the error that task_info has failed.
pub print_memory_info : Kernel → ℕ → Option (Option Printed)
unfolding report
print_memory_info k fuel = elim k.vm_info [ none ↦ some none | some info ↦ report k fuel info ]

-- One round of getProcessSharedMemory.
pub add_shared : Region → ℕ → ℕ
add_shared r shared_memory =
    if is_private r.share_mode then shared_memory else (shared_memory + r.bytes) % u64

-- getProcessSharedMemory: the port of the task is asked for, and given back after the walk.
pub get_process_shared_memory : Os → Kernel → ℕ → (pid : ℕ) → Action (Option ℕ)
unfolding add_shared walk
get_process_shared_memory os k fuel pid = do
  task ← ask os (task_for_pid pid)
  on_reply task (say (error "无法获取进程任务端口: ") >> pure (some 0)) λ task. do
    let total = walk (next_within k) add_shared fuel (0, 1) 0
    ask os (port_deallocate task)
    pure (then_walk total λ (shared_memory, last). some shared_memory)
