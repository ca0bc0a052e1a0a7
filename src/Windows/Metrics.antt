-- ===== src/Windows/Metrics.antt =====
-- windows/process/memory_metrics_demo.cpp.
use memory_demo.Base.{ℕ, ◌%◌, refl, Option, none, some, List}
use memory_demo.Base.Word.{u32, mb_bytes}
use memory_demo.Os.{
  virtual_alloc, virtual_free, new_array, delete_array, create_mapping, map_view, unmap_view,
  close_handle, cin_get, reserve_only, reserve_commit, page_readwrite, map_all_access, paging_file,
  error, value, Resource, Trace, Os, Machine, Action, ◌>>=◌, ◌>>◌, pure, done, ask, say, on_reply,
  touch, IsLawful, Owns, Owns-said, Leaves, ignored, Message,
}
use memory_demo.Windows.Monitor.{Probe, print_process_memory_info}
use memory_demo.Windows.Monitor.Buffer.{print_process_memory_info-Owns}

pub demo_virtual_address_reserve : Os → Probe → ℕ → Action (Unit {0})
demo_virtual_address_reserve os probe size_mb = do
  print_process_memory_info os probe
  let size_bytes = mb_bytes size_mb
  reserved ← ask os (virtual_alloc reserve_only size_bytes)
  on_reply reserved (say (error "虚拟地址保留失败")) λ p. do
    print_process_memory_info os probe
    say (value "已保留虚拟地址空间" size_mb)
    ask os cin_get
    ask os (virtual_free p)
    done

pub demo_committed_memory : Os → Probe → ℕ → Action (Unit {0})
demo_committed_memory os probe size_mb = do
  print_process_memory_info os probe
  let size_bytes = mb_bytes size_mb
  committed ← ask os (virtual_alloc reserve_commit size_bytes)
  on_reply committed (say (error "内存提交失败")) λ p. do
    print_process_memory_info os probe
    say (value "已提交内存" size_mb)
    ask os cin_get
    ask os (virtual_free p)
    done

-- `none`: `new` has thrown, and nothing catches that.
pub demo_private_working_set : Os → Probe → ℕ → Action (Option (Unit {0}))
demo_private_working_set os probe size_mb = do
  print_process_memory_info os probe
  let size_bytes = mb_bytes size_mb
  buffer ← ask os (new_array size_bytes)
  on_reply buffer (pure none) λ buffer. do
    touch buffer size_bytes b'A'
    print_process_memory_info os probe
    say (value "已分配并访问" size_mb)
    ask os cin_get
    ask os (delete_array buffer)
    pure (some tt)

-- The size of the mapping is a DWORD, that of the view is not.
pub demo_shared_memory : Os → Probe → ℕ → Action (Unit {0})
demo_shared_memory os probe size_mb = do
  print_process_memory_info os probe
  let size_bytes = mb_bytes size_mb
  map_file ← ask os (create_mapping paging_file page_readwrite (size_bytes % u32))
  on_reply map_file (say (error "创建内存映射文件失败")) λ map_file. do
    mapped ← ask os (map_view map_file map_all_access size_bytes)
    on_reply mapped (do say (error "映射视图失败"); ask os (close_handle map_file); done)
        λ buffer. do
          touch buffer size_bytes b'S'
          print_process_memory_info os probe
          say (value "已创建内存映射文件" size_mb)
          ask os cin_get
          ask os (unmap_view buffer)
          ask os (close_handle map_file)
          done

-- main: the four demonstrations at 100 MB each, between two reports.
pub metrics_main : Os → Probe → Action (Unit {0})
metrics_main os probe = do
  print_process_memory_info os probe
  ask os cin_get
  demo_virtual_address_reserve os probe 100
  demo_committed_memory os probe 100
  allocated ← demo_private_working_set os probe 100
  on_reply allocated done λ _. do
    demo_shared_memory os probe 100
    print_process_memory_info os probe
    ask os cin_get
    done

module _ {os : Os} (law : IsLawful os) (probe : Probe) {base : Trace} {xs : List Resource} where
  -- A report, a line and a key.
  pub reported :
      (m : Message) (s : Machine)
      → Owns base xs s.trace
      → Leaves base xs ((do print_process_memory_info os probe; say m; ask os cin_get) s)
  reported m s h =
      ignored law cin_get refl (λ v. refl)
        (Owns-said m (print_process_memory_info-Owns law probe s h))

module _ {os : Os} (law : IsLawful os) (probe : Probe) {base : Trace} {xs : List Resource}
    (size_mb : ℕ) (s : Machine) (h : Owns base xs s.trace) where
  n : ℕ
  n = mb_bytes size_mb
