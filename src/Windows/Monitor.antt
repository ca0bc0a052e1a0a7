-- ===== src/Windows/Monitor.antt =====
-- windows/process/process_memory_monitor.cpp: printProcessMemoryInfo and runMemoryMonitorDemo.
pub mod Accounting
pub mod Buffer
use memory_demo.Base.{
  ℕ, ◌+◌, ◌-◌, ◌*◌, ◌/◌, ◌%◌, ◌^◌, ◌≤◌, ◌<◌, ◌≡◌, refl, ap, Bool, true, false, Option, none, some,
  List, [], ◌∷◌, arith, ◌==◌, if◌then◌else◌, length, Option-cases, inl, inr,
}
use memory_demo.Base.Word.{u64, u32, mb_bytes}
use Prim.Native.String.{String}
use memory_demo.FormatSize.{format_memory_size}
use memory_demo.Os.{
  Message, text, malloc, free, new_array, delete_array, cin_get, process_memory_info,
  query_working_set, error, value, heap, array, Resource, Trace, IsLegal, Os, Machine, Action,
  ◌>>=◌, ◌>>◌, pure, done, ask, say, on_reply, fill, IsLawful, Owns, Owns-refl, Owns-said, Leaves,
  acquire, consult, ignored, returned, fill-Owns,
}

-- PROCESS_MEMORY_COUNTERS_EX, the fields that are read.
pub record Counters : Type 0 where
  pub private_usage : ℕ
  pub working_set_size : ℕ
  pub pagefile_usage : ℕ

-- What the calls on the process fill in: the counters, GetLastError after the first QueryWorkingSet,
-- and, for a buffer of so many bytes, the Shared bits of the entries of the working set.
pub record Probe : Type 0 where
  pub counters : Counters
  pub last_error : ℕ
  pub entries : ℕ → List Bool

abbrev pub error_bad_length : ℕ
error_bad_length = 24

-- The sizes of PSAPI_WORKING_SET_INFORMATION and PSAPI_WORKING_SET_BLOCK on 64-bit Windows.
abbrev pub information_bytes : ℕ
information_bytes = 16

abbrev pub block_bytes : ℕ
block_bytes = 8

-- dwWorkingSetInfoSize, a DWORD.
pub working_set_info_size : ℕ → ℕ
working_set_info_size working_set_size =
    (information_bytes + (working_set_size / 4096 + 100) * block_bytes) % u32

-- The loop over the entries: sharedPages and privatePages.
pub count_pages : List Bool → ℕ × ℕ → ℕ × ℕ
count_pages [] (shared_pages, private_pages) = (shared_pages, private_pages)
count_pages (shared ∷ rest) (shared_pages, private_pages) =
    count_pages rest
      (if shared then (shared_pages + 1, private_pages) else (shared_pages, private_pages + 1))

-- The figures handed to formatMemorySize, in the order in which they are printed.
pub record Figures : Type 0 where
  pub virtual_used : ℕ
  pub committed : ℕ
  pub private_bytes : ℕ
  pub working_set : ℕ
  pub private_working_set : ℕ
  pub shareable : ℕ
  pub shared : ℕ

-- SIZE_T arithmetic wraps.
pub figures : Counters → ℕ × ℕ → Figures
figures c (shared_pages, private_pages) =
    let private_size = private_pages * 4096 % u64 in
    record {
      virtual_used = (c.private_usage + c.working_set_size) % u64;
      committed = c.pagefile_usage;
      private_bytes = c.private_usage;
      working_set = c.working_set_size;
      private_working_set = private_size;
      shareable = (c.working_set_size + u64 - private_size) % u64;
      shared = shared_pages * 4096 % u64;
    }

-- The branch in which the first query already succeeds.
pub estimated : Counters → Figures
estimated c = record {
  virtual_used = (c.private_usage + c.working_set_size) % u64;
  committed = c.pagefile_usage;
  private_bytes = c.private_usage;
  working_set = c.working_set_size;
  private_working_set = c.working_set_size;
  shareable = 0;
  shared = 0;
}

abbrev sized : String → ℕ → Message
sized label bytes = text label (format_memory_size bytes)

pub print_figures : Figures → Action (Unit {0})
print_figures f = do
  say (sized "虚拟地址已使用大小: " f.virtual_used)
  say (sized "已提交内存 (Committed): " f.committed)
  say (sized "私有提交 (Private Bytes): " f.private_bytes)
  say (sized "总工作集 (Total Working Set): " f.working_set)
  say (sized "私有工作集 (Private Working Set): " f.private_working_set)
  say (sized "可共享工作集: " f.shareable)
  say (sized "已共享工作集: " f.shared)

-- The last three lines say that they are estimated.
pub print_estimated : Figures → Action (Unit {0})
print_estimated f = do
  say (sized "虚拟地址已使用大小: " f.virtual_used)
  say (sized "已提交内存 (Committed): " f.committed)
  say (sized "私有提交 (Private Bytes): " f.private_bytes)
  say (sized "总工作集 (Total Working Set): " f.working_set)
  say (sized "私有工作集 (估计值): " f.private_working_set)
  say (sized "可共享工作集 (无法获取详细信息): " f.shareable)
  say (sized "已共享工作集 (无法获取详细信息): " f.shared)

pub query_details : Os → Probe → Action (Unit {0})
query_details os probe = do
  let info_size = working_set_info_size probe.counters.working_set_size
  info ← ask os (malloc info_size)
  on_reply info (say (error "内存分配失败")) λ info. do
    fill info info_size 0
    queried ← ask os query_working_set
    on_reply queried (do say (error "查询工作集详细信息失败"); ask os (free info); done)
        λ _. do
          print_figures (figures probe.counters (count_pages (probe.entries info_size) (0, 0)))
          ask os (free info)
          done

pub print_process_memory_info : Os → Probe → Action (Unit {0})
print_process_memory_info os probe = do
  got ← ask os process_memory_info
  on_reply got (say (error "获取进程内存信息失败")) λ _. do
    queried ← ask os query_working_set
    on_reply queried
        (if probe.last_error == error_bad_length
          then query_details os probe
          else say (error "查询工作集信息失败"))
        λ _. print_estimated (estimated probe.counters)

-- `new` throws on failure; the program does not catch that.
pub run_memory_monitor_demo : Os → Probe → Action (Unit {0})
run_memory_monitor_demo os probe = do
  buffer ← ask os (new_array (50 * 1048576))
  on_reply buffer done λ buffer. do
    fill buffer (50 * 1048576) 1
    print_process_memory_info os probe
    ask os cin_get
    ask os (delete_array buffer)
    done
