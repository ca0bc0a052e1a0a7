-- ===== src/Xnu/FileMapping.antt =====
-- macos/process/xnu_footprint_demo.cpp: demo_file_mapped_memory, a temporary file that is mapped and
-- written through the mapping.
use memory_demo.Base.{ℕ, refl, some, List, [], ◌∷◌, arith, inl, inr}
use memory_demo.Base.Word.{mb_bytes}
use memory_demo.Os.{
  FileName, memory_demo_tmp, mmap, munmap, shared_file, open_file, close, cin_get, error, value,
  mapping, fd, file, Resource, Trace, IsLegal, Os, Machine, Action, ◌>>=◌, ◌>>◌, done, ask, say,
  on_reply, touch, IsLawful, Owns, Owns-refl, Owns-said, Leaves, acquire, returned,
  create_temp_file, cleanup_temp_file, create_temp_file-Owns, cleanup_temp_file-Owns,
}
use memory_demo.Xnu.Memory.{print_memory_info, shown}

-- The part after the file has been made.
pub map_temp_file : Os → FileName → ℕ → Action (Unit {0})
map_temp_file os filename size_mb = do
  opened ← ask os (open_file filename)
  on_reply opened (say (error "无法打开文件: ") >> cleanup_temp_file os (some filename)) λ descriptor. do
    let size_bytes = mb_bytes size_mb
    mapped ← ask os (mmap (shared_file descriptor) size_bytes)
    on_reply mapped
        (do say (error "内存映射失败!"); ask os (close descriptor); cleanup_temp_file os (some filename))
        λ buffer. do
          touch buffer size_bytes b'B'
          say (value "已映射文件到内存" size_mb)
          print_memory_info os
          ask os cin_get
          ask os (munmap buffer size_bytes)
          ask os (close descriptor)
          cleanup_temp_file os (some filename)

pub demo_file_mapped_memory : Os → ℕ → Action (Unit {0})
demo_file_mapped_memory os size_mb = do
  filename ← create_temp_file os (memory_demo_tmp os.pid) size_mb
  on_reply filename done λ filename. map_temp_file os filename size_mb

module _ {os : Os} (law : IsLawful os) where
  map_temp_file-Owns :
      {base : Trace} {xs : List Resource} (f : FileName) (size_mb : ℕ) (s : Machine)
      → Owns base (file f ∷ xs) s.trace
      → Leaves base xs (map_temp_file os f size_mb s)
  unfolding map_temp_file
  map_temp_file-Owns f size_mb s h =
      acquire law (open_file f) s (λ v. fd v) _ _ refl (λ v. refl) h
        (λ k. cleanup_temp_file-Owns law f _ (Owns-said (error "无法打开文件: ") k))
        λ d q h1.
          acquire law (mmap (shared_file d) n) _ (λ p. mapping p n) _ _ refl (λ v. refl) h1
            (λ k.
              cleanup_temp_file-Owns law f _
                (returned law (close d) (fd d) refl (λ v. refl) (Owns-said (error "内存映射失败!") k)))
            λ p r h2.
              let h3 =
                shown law (mapping p n) p n b'B' (value "已映射文件到内存" size_mb) _ refl (omega arith)
                  h2 in
              let h4 = returned law (munmap p n) (mapping p n) refl (λ v. refl) h3 in
              cleanup_temp_file-Owns law f _ (returned law (close d) (fd d) refl (λ v. refl) h4)
    where
      n : ℕ
      n = mb_bytes size_mb

  -- On an operating system that keeps the law, from a legal trace, the process ends holding what it
  -- held, whatever call fails: the mapping, the descriptor and the temporary file are given back on
  -- every path, and every byte written lies in the mapping.
  pub demo_file_mapped_memory-Owns :
      (size_mb : ℕ) (s : Machine)
      → IsLegal s.trace
      → Leaves s.trace [] (demo_file_mapped_memory os size_mb s)
  unfolding demo_file_mapped_memory
  demo_file_mapped_memory-Owns size_mb s legal =
      elim (create_temp_file-Owns law (memory_demo_tmp os.pid) size_mb s refl
        (Owns-refl s.trace legal)) [
          | inl (e, h) ↦ rw e h
          | inr (e, h) ↦ rw e (map_temp_file-Owns (memory_demo_tmp os.pid) size_mb _ h)
        ]
