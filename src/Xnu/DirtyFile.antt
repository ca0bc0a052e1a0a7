-- ===== src/Xnu/DirtyFile.antt =====
-- macos/process/file_mapping_dirty_demo.cpp.
use memory_demo.Base.{Option, ℕ, ◌/◌, refl, some, List, [], ◌∷◌, arith, inl, inr}
use memory_demo.Os.{
  FileName, file_mapping_tmp, task_info, task_basic_info, task_vm_info, mmap, munmap, shared_file,
  open_file, close, fstat, cin_get, error, value, mapping, fd, file, Resource, Trace, IsLegal, Os,
  Machine, Action, ◌>>=◌, ◌>>◌, pure, ask, say, on_reply, touch, touch-Owns, IsLawful, Owns,
  Owns-refl, Owns-said, Leaves, acquire, consult, ignored, returned, create_temp_file,
  cleanup_temp_file, create_temp_file-Owns, cleanup_temp_file-Owns,
}
use memory_demo.MemoryInfo.{VmInfo}

-- `vm_info v` is what a task_info for TASK_VM_INFO with the reply v has filled in.
pub print_detailed_memory_info : Os → (ℕ → VmInfo) → Action (Unit {0})
print_detailed_memory_info os vm_info = do
  kr ← ask os (task_info task_basic_info)
  on_reply kr (say (error "获取基本任务信息失败")) λ basic. do
    kr ← ask os (task_info task_vm_info)
    on_reply kr (say (error "获取VM任务信息失败")) λ v. do
      say (value "常驻内存大小 (RSS)" (os.resident_size basic / 1024 / 1024))
      say (value "虚拟内存大小 (VSZ)" (os.virtual_size basic / 1024 / 1024))
      say (value "物理内存占用 (phys_footprint)" ((vm_info v).phys_footprint / 1024 / 1024))
      say (value "内部内存 (internal)" ((vm_info v).internal / 1024 / 1024))
      say (value "压缩内存" ((vm_info v).compressed / 1024 / 1024))

-- create_temp_file of this program is that of xnu_footprint_demo.cpp but for the name of the file.
pub create_mapping_file : Os → (size_mb : ℕ) → Action (Option FileName)
create_mapping_file os size_mb = create_temp_file os (file_mapping_tmp os.pid) size_mb

-- The part of main after the file has been made; the result is the exit status.
pub modify_temp_file : Os → (ℕ → VmInfo) → FileName → Action ℕ
modify_temp_file os vm_info f = do
  opened ← ask os (open_file f)
  on_reply opened (do say (error "无法打开文件: "); cleanup_temp_file os (some f); pure 1)
      λ descriptor. do
        sb ← ask os (fstat descriptor)
        on_reply sb
            (do
              say (error "无法获取文件信息")
              ask os (close descriptor)
              cleanup_temp_file os (some f)
              pure 1)
            λ file_size. do
              mapped ← ask os (mmap (shared_file descriptor) file_size)
              on_reply mapped
                  (do
                    say (error "内存映射失败!")
                    ask os (close descriptor)
                    cleanup_temp_file os (some f)
                    pure 1)
                  λ buffer. do
                    say (value "已映射文件到内存" (file_size / 1024 / 1024))
                    say (value "映射地址" buffer)
                    print_detailed_memory_info os vm_info
                    ask os cin_get
                    touch buffer file_size b'B'
                    print_detailed_memory_info os vm_info
                    ask os cin_get
                    ask os (munmap buffer file_size)
                    ask os (close descriptor)
                    cleanup_temp_file os (some f)
                    pure 0

pub dirty_main : Os → (ℕ → VmInfo) → Action ℕ
dirty_main os vm_info = do
  filename ← create_mapping_file os 500
  on_reply filename (pure 1) λ f. modify_temp_file os vm_info f

module _ {os : Os} (law : IsLawful os) (vm_info : ℕ → VmInfo) where
  print_detailed_memory_info-Owns :
      {base : Trace} {xs : List Resource} (s : Machine)
      → Owns base xs s.trace
      → Leaves base xs (print_detailed_memory_info os vm_info s)
  unfolding print_detailed_memory_info
  print_detailed_memory_info-Owns s h =
      consult law (task_info task_basic_info) s _ _ refl (λ v. refl) h (λ k. Owns-said _ k)
        λ b k.
          consult law (task_info task_vm_info) _ _ _ refl (λ v. refl) k (λ j. Owns-said _ j)
            λ v j. Owns-said _ (Owns-said _ (Owns-said _ (Owns-said _ (Owns-said _ j))))

  modify_temp_file-Owns :
      {base : Trace} {xs : List Resource} (f : FileName) (s : Machine)
      → Owns base (file f ∷ xs) s.trace
      → Leaves base xs (modify_temp_file os vm_info f s)
  unfolding modify_temp_file
  modify_temp_file-Owns {base} {xs} f s h =
      acquire law (open_file f) s (λ v. fd v) _ _ refl (λ v. refl) h
        (λ k. cleanup_temp_file-Owns law f _ (Owns-said (error "无法打开文件: ") k))
        λ d q h1.
          consult law (fstat d) _ _ _ refl (λ v. refl) h1
            (λ k.
              cleanup_temp_file-Owns law f _
                (returned law (close d) (fd d) refl (λ v. refl) (Owns-said (error "无法获取文件信息") k)))
            λ n h2.
              acquire law (mmap (shared_file d) n) _ (λ p. mapping p n) _ _ refl (λ v. refl) h2
                (λ k.
                  cleanup_temp_file-Owns law f _ (
                    returned law (close d) (fd d) refl (λ v. refl) (Owns-said (error "内存映射失败!") k)))
                λ p r h3.
                  let h4 =
                    ignored law cin_get refl (λ v. refl)
                      (print_detailed_memory_info-Owns _ (Owns-said _ (Owns-said _ h3))) in
                  let h5 = touch-Owns (mapping p n) p n b'B' _ refl (omega arith) h4 in
                  let h6 =
                    ignored law cin_get refl (λ v. refl) (print_detailed_memory_info-Owns _ h5) in
                  let h7 = returned law (munmap p n) (mapping p n) refl (λ v. refl) h6 in
                  cleanup_temp_file-Owns law f _ (returned law (close d) (fd d) refl (λ v. refl) h7)

  -- On an operating system that keeps the law, from a legal trace, the program ends holding what it
  -- held, whatever call fails: the mapping, the descriptor and the temporary file are given back on
  -- every path, and every byte written lies in the mapping.
  pub dirty_main-Owns :
      (s : Machine) → IsLegal s.trace → Leaves s.trace [] (dirty_main os vm_info s)
  unfolding dirty_main create_mapping_file
  dirty_main-Owns s legal =
      elim (create_temp_file-Owns law (file_mapping_tmp os.pid) 500 s refl
        (Owns-refl s.trace legal)) [
          | inl (e, h) ↦ rw e h
          | inr (e, h) ↦ rw e (modify_temp_file-Owns (file_mapping_tmp os.pid) _ h)
        ]
