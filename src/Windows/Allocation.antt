-- ===== src/Windows/Allocation.antt =====
-- windows/process/memory_allocation_demo.cpp.
pub mod TempFile
pub mod Handles
use memory_demo.Base.{
  ℕ, zero, suc, ◌+◌, ◌-◌, ◌*◌, ◌/◌, ◌%◌, ◌≤◌, ◌<◌, ◌≡◌, refl, ap, Option, none, some, List, [], ◌∷◌,
  arith, ltb, if◌then◌else◌, Option-cases, inl, inr, ◌⊎◌, Bool-cases,
}
use memory_demo.Base.Word.{u32, u64, mb_bytes}
use memory_demo.Os.{
  FileName, windows_temp, Access, virtual_alloc, virtual_free, create_mapping, map_view, unmap_view,
  close_handle, get_temp_file, create_file, close_file, write_file, create_file_a, delete_file,
  cin_get, reserve_commit, page_readwrite, page_readonly, map_all_access, map_copy, paging_file,
  file_handle, error, value, virtual, view, handle, file, Resource, Trace, IsLegal, Os, Machine,
  Action, ◌>>=◌, ◌>>◌, pure, done, undefined, ask, say, on_reply, touch, IsLawful, Owns, Owns-refl,
  Owns-said, Leaves, acquire, consult, ignored, returned, touch-Owns,
}
use memory_demo.Windows.Monitor.{Probe, print_process_memory_info}
use memory_demo.Windows.Monitor.Buffer.{print_process_memory_info-Owns}
use memory_demo.Windows.Metrics.{reported}

-- The loop that fills the file: buffer.size() is 4096, and the last write takes what is left. One
-- unit of fuel is one round.
pub write_blocks_from : Os → FileName → ℕ → ℕ → ℕ → Action (Unit {0})
write_blocks_from os f zero size_bytes i = done
write_blocks_from os f (suc fuel) size_bytes i =
    let rest = write_blocks_from os f fuel size_bytes ((i + 4096) % u64) in
    let write_size = if ltb size_bytes ((i + 4096) % u64) then size_bytes - i else 4096 in
    if ltb i size_bytes then ask os (write_file f write_size) >> rest else done

pub write_blocks : Os → FileName → ℕ → Action (Unit {0})
unfolding write_blocks_from
write_blocks os f size_bytes = write_blocks_from os f (size_bytes / 4096 + 2) size_bytes 0

-- GetTempFileNameA makes the file and chooses its number; `none` is the empty name. A failure of
-- GetTempFileNameA is not looked at by the source: the stream is then opened with the characters of
-- a buffer that nothing was written to, which is undefined.
pub create_temp_file : Os → ℕ → Action (Option FileName)
create_temp_file os size_bytes = do
  named ← ask os get_temp_file
  on_reply named (undefined >> pure none) λ k. do
    opened ← ask os (create_file (windows_temp k))
    on_reply opened (say (error "创建临时文件失败") >> pure none) λ _. do
      write_blocks os (windows_temp k) size_bytes
      ask os (close_file (windows_temp k))
      pure (some (windows_temp k))

pub demo_anonymous_private : Os → Probe → ℕ → Action (Unit {0})
demo_anonymous_private os probe size_mb = do
  print_process_memory_info os probe
  let size_bytes = mb_bytes size_mb
  private_mem ← ask os (virtual_alloc reserve_commit size_bytes)
  on_reply private_mem (say (error "匿名私有内存分配失败")) λ buffer. do
    touch buffer size_bytes b'P'
    print_process_memory_info os probe
    say (value "已分配并访问匿名私有内存" size_mb)
    ask os cin_get
    ask os (virtual_free buffer)
    done

pub demo_anonymous_shared : Os → Probe → ℕ → Action (Unit {0})
demo_anonymous_shared os probe size_mb = do
  print_process_memory_info os probe
  let size_bytes = mb_bytes size_mb
  map_file ← ask os (create_mapping paging_file page_readwrite (size_bytes % u32))
  on_reply map_file (say (error "创建匿名共享内存映射失败")) λ map_file. do
    mapped ← ask os (map_view map_file map_all_access size_bytes)
    on_reply mapped (do say (error "映射视图失败"); ask os (close_handle map_file); done)
        λ buffer. do
          touch buffer size_bytes b'S'
          print_process_memory_info os probe
          say (value "已分配并访问匿名共享内存" size_mb)
          ask os cin_get
          ask os (unmap_view buffer)
          ask os (close_handle map_file)
          done

-- What the two demonstrations of file mappings do alike once the file has been made: `protection` is
-- that of the mapping, `access` that of the view, `v` the byte that is written.
pub map_file_view : Os → Probe → Access → Access → (v : ℕ) → FileName → ℕ → Action (Unit {0})
map_file_view os probe protection access v f size_mb = do
  let size_bytes = mb_bytes size_mb
  opened ← ask os (create_file_a f)
  on_reply opened (do say (error "打开文件失败"); ask os (delete_file f); done)
      λ h_file. do
        map_file ← ask os (create_mapping (file_handle h_file) protection 0)
        on_reply map_file
            (do say (error "创建文件映射失败"); ask os (close_handle h_file); ask os (delete_file f); done)
            λ map_file. do
              mapped ← ask os (map_view map_file access size_bytes)
              on_reply mapped
                  (do
                    say (error "映射视图失败")
                    ask os (close_handle map_file)
                    ask os (close_handle h_file)
                    ask os (delete_file f)
                    done)
                  λ buffer. do
                    touch buffer size_bytes v
                    print_process_memory_info os probe
                    say (value "已分配文件映射内存" size_mb)
                    ask os cin_get
                    ask os (unmap_view buffer)
                    ask os (close_handle map_file)
                    ask os (close_handle h_file)
                    ask os (delete_file f)
                    done

pub demo_file_mapped_private : Os → Probe → ℕ → Action (Unit {0})
demo_file_mapped_private os probe size_mb = do
  print_process_memory_info os probe
  filename ← create_temp_file os (mb_bytes size_mb)
  on_reply filename done λ f. map_file_view os probe page_readonly map_copy b'P' f size_mb

pub demo_file_mapped_shared : Os → Probe → ℕ → Action (Unit {0})
demo_file_mapped_shared os probe size_mb = do
  print_process_memory_info os probe
  filename ← create_temp_file os (mb_bytes size_mb)
  on_reply filename done λ f. map_file_view os probe page_readwrite map_all_access b'S' f size_mb

-- main: the four demonstrations at 50 MB each, between two reports.
pub allocation_main : Os → Probe → Action (Unit {0})
allocation_main os probe = do
  print_process_memory_info os probe
  ask os cin_get
  demo_anonymous_private os probe 50
  demo_anonymous_shared os probe 50
  demo_file_mapped_private os probe 50
  demo_file_mapped_shared os probe 50
  print_process_memory_info os probe
  ask os cin_get
  done
