-- ===== src/Xnu/Shared.antt =====
-- macos/process/xnu_footprint_demo.cpp: demo_anonymous_shared_memory and demo_shared_memory.
pub mod Children
use memory_demo.Base.{
  ℕ, zero, suc, ◌<◌, ◌≡◌, refl, inl, inr, some, List, [], ◌∷◌, arith, Option-cases,
}
use memory_demo.Base.Word.{mb_bytes}
use memory_demo.Os.{
  FileName, shm_name, mmap, munmap, shared_file, shared_anonymous, shm_open, shm_unlink, ftruncate,
  close, cin_get, MapKind, error, value, mapping, fd, shm_object, Resource, Trace, did, IsLegal, Os,
  Machine, Action, ◌>>=◌, ◌>>◌, done, ask, say, on_reply, touch, logged, IsLawful, Owns, Owns-refl,
  Owns-said, Owns-granted, Owns-failed, Leaves, acquire, consult, ignored, returned, touch-Owns,
}
use memory_demo.Xnu.Memory.{print_memory_info, print_memory_info-Owns}
use memory_demo.Xnu.Sharing.{child_rewrites, share_with_child, share_with_child-Owns}

pub demo_anonymous_shared_memory : Os → ℕ → Action (Unit {0})
demo_anonymous_shared_memory os size_mb = do
  let size_bytes = mb_bytes size_mb
  shared_memory ← ask os (mmap shared_anonymous size_bytes)
  on_reply shared_memory (say (error "匿名共享内存映射失败: ")) λ buffer. do
    say (value "已创建并映射匿名共享内存" size_mb)
    touch buffer size_bytes b'A'
    print_memory_info os
    share_with_child os (child_rewrites os buffer size_bytes b'B' done) buffer
    ask os cin_get
    ask os (munmap buffer size_bytes)
    done

-- The part after the object has been made: it is sized, mapped, shared, and taken down again.
pub map_shared_object : Os → ℕ → ℕ → Action (Unit {0})
map_shared_object os descriptor size_mb = do
  let size_bytes = mb_bytes size_mb
  let name = shm_name os.pid
  sized ← ask os (ftruncate descriptor size_bytes)
  on_reply sized
      (do say (error "无法设置共享内存大小: "); ask os (close descriptor); ask os (shm_unlink name); done)
      λ _. do
        shared_memory ← ask os (mmap (shared_file descriptor) size_bytes)
        on_reply shared_memory
            (do say (error "共享内存映射失败: "); ask os (close descriptor); ask os (shm_unlink name); done)
            λ buffer. do
              say (value "已创建并映射共享内存" size_mb)
              touch buffer size_bytes b'S'
              print_memory_info os
              share_with_child os (child_rewrites os buffer size_bytes b'C' done) buffer
              ask os cin_get
              ask os (munmap buffer size_bytes)
              ask os (close descriptor)
              ask os (shm_unlink name)
              done

pub demo_shared_memory : Os → ℕ → Action (Unit {0})
demo_shared_memory os size_mb = do
  opened ← ask os (shm_open (shm_name os.pid))
  on_reply opened (say (error "无法创建共享内存对象: ")) λ descriptor. map_shared_object os descriptor size_mb

-- main: the other demonstrations are commented out in it.
pub footprint_main : Os → Action (Unit {0})
footprint_main os = do print_memory_info os; ask os cin_get; demo_anonymous_shared_memory os 50

module _ {os : Os} (law : IsLawful os) where
  -- mmap answers no request for 0 bytes, so a mapping has a first byte.
  pub mapped_pos : (t : Trace) (k : MapKind) (n p : ℕ) → os.reply t (mmap k n) ≡ some p → 0 < n
  mapped_pos t k zero p q = cc (law.no_empty_map t k)
  mapped_pos t k (suc n) p q = omega arith

  -- On an operating system that keeps the law, a process that owns the resources xs owns the same
  -- ones after the demonstration, whatever call fails: the mapping is given back also when no child
  -- could be made, and every byte accessed lies in memory held.
  pub demo_anonymous_shared_memory-Owns :
      {base : Trace} {xs : List Resource} (size_mb : ℕ) (s : Machine)
      → Owns base xs s.trace
      → Leaves base xs (demo_anonymous_shared_memory os size_mb s)
  unfolding demo_anonymous_shared_memory
  demo_anonymous_shared_memory-Owns {base} {xs} size_mb s k =
      acquire law (mmap shared_anonymous n) s (λ p. mapping p n) _ _ refl (λ v. refl) k
        (λ h. Owns-said _ h)
        λ p q h.
          let h1 =
            touch-Owns (mapping p n) p n b'A' _ refl (omega arith)
              (Owns-said (value "已创建并映射匿名共享内存" size_mb) h) in
          let h2 = print_memory_info-Owns law _ h1 in
          let h3 =
            share_with_child-Owns law (mapping p n) (child_rewrites os p n b'B' done) p _ refl
              (mapped_pos s.trace shared_anonymous n p q) h2 in
          returned law (munmap p n) (mapping p n) refl (λ v. refl)
            (ignored law cin_get refl (λ v. refl) h3)
    where
      n : ℕ
      n = mb_bytes size_mb

  -- On an operating system that keeps the law, from a legal trace, the whole program, which shares
  -- 50 MB with a child process, ends holding what it held.
  pub footprint_main-Owns :
      (s : Machine) → IsLegal s.trace → Leaves s.trace [] (footprint_main os s)
  unfolding footprint_main
  footprint_main-Owns s legal = demo_anonymous_shared_memory-Owns 50 _ (
      ignored law cin_get refl (λ v. refl) (print_memory_info-Owns law s (Owns-refl s.trace legal)))

  unlinked :
      {base t : Trace} {xs : List Resource} (d : ℕ) (name : FileName)
      → Owns base (fd d ∷ shm_object name ∷ xs) t
      → let t' = did (close d) (os.reply t (close d)) ∷ t in
        Owns base xs (did (shm_unlink name) (os.reply t' (shm_unlink name)) ∷ t')
  unlinked d name k =
      returned law (shm_unlink name) (shm_object name) refl (λ w. refl)
        (returned law (close d) (fd d) refl (λ w. refl) k)

  map_shared_object-Owns :
      {base : Trace} {xs : List Resource} (d size_mb : ℕ) (s : Machine)
      → Owns base (fd d ∷ shm_object (shm_name os.pid) ∷ xs) s.trace
      → Leaves base xs (map_shared_object os d size_mb s)
  unfolding map_shared_object
  map_shared_object-Owns {base} {xs} d size_mb s h =
      consult law (ftruncate d n) s _ _ refl (λ v. refl) h
        (λ k. unlinked d (shm_name os.pid) (Owns-said (error "无法设置共享内存大小: ") k))
        λ v k.
          acquire law (mmap (shared_file d) n) _ (λ p. mapping p n) _ _ refl (λ w. refl) k
            (λ j. unlinked d (shm_name os.pid) (Owns-said (error "共享内存映射失败: ") j))
            λ p q j.
              let h1 =
                touch-Owns (mapping p n) p n b'S' _ refl (omega arith)
                  (Owns-said (value "已创建并映射共享内存" size_mb) j) in
              let h2 = print_memory_info-Owns law _ h1 in
              let h3 =
                share_with_child-Owns law (mapping p n) (child_rewrites os p n b'C' done) p _ refl
                  (mapped_pos _ (shared_file d) n p q) h2 in
              let h4 = ignored law cin_get refl (λ w. refl) h3 in
              unlinked d (shm_name os.pid)
                (returned law (munmap p n) (mapping p n) refl (λ w. refl) h4)
    where
      n : ℕ
      n = mb_bytes size_mb

  -- On an operating system that keeps the law, a process that owns the resources xs owns the same
  -- ones after the demonstration, whatever call fails in between: the mapping, the descriptor and
  -- the name of the shared memory object are given back, and every byte accessed lies in memory
  -- held.
  pub demo_shared_memory-Owns :
      {base : Trace} {xs : List Resource} (size_mb : ℕ) (s : Machine)
      → Owns base xs s.trace
      → Leaves base xs (demo_shared_memory os size_mb s)
  unfolding demo_shared_memory
  demo_shared_memory-Owns size_mb s h = elim (Option-cases (os.reply s.trace (shm_open name))) [
    | inl q ↦ rw q (Owns-said _ (Owns-failed (shm_open name) refl h))
    | inr (d, q) ↦ rw q (
        map_shared_object-Owns d size_mb (logged (shm_open name) (some d) s) (
          Owns-granted (shm_open name) d refl (law.fresh s.trace (shm_open name) d q)
            (λ p e. cc, (λ p e. cc, tt)) h))
  ]
    where
      name : FileName
      name = shm_name os.pid
