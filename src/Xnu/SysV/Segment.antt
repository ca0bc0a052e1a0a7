-- ===== src/Xnu/SysV/Segment.antt =====
-- What demo_sysv_shared_memory holds: nothing is left behind on any of its paths.
use memory_demo.Base.{ℕ, ◌/◌, ◌<◌, ◌≡◌, refl, ap, Option, none, some, List, [], ◌∷◌, arith}
use memory_demo.Os.{
  shmget, shmctl_rmid, shmat, shmdt, cin_get, system, ipcs_limits, ipcs_segments, sysctl_sysv,
  error, value, segment, shm_segment, Resource, Trace, IsLegal, segment_size, Os, Machine, done,
  ask, ◌>>◌, say, IsLawful, Owns, Owns-refl, Owns-said, Leaves, acquire, ignored, returned, release,
  touch-Owns, on_reply, ◌>>=◌, Call, Message, gives_back, grants,
}
use memory_demo.Xnu.Memory.{print_memory_info-Owns}
use memory_demo.Xnu.Sharing.{child_rewrites, share_with_child-Owns}
use memory_demo.Xnu.Shared.{demo_shared_memory-Owns}
use memory_demo.Xnu.SysV.{
  size_options, remove_existing, use_segment, attach_segment, fall_back, demo_sysv_shared_memory,
}
use memory_demo.Xnu.SysV.Search.{Found, size_options_bounds, try_sizes-Found}

module _ {os : Os} (law : IsLawful os) {base : Trace} {xs : List Resource} where
  -- Giving back, with a line printed if that is refused.
  complained :
      (c : Call) (x : Resource) (m : Message) (s : Machine)
      → gives_back s.trace c ≡ x ∷ []
      → ((v : ℕ) → grants s.trace c v ≡ [])
      → Owns base (x ∷ xs) s.trace
      → Leaves base xs ((do r ← ask os c; on_reply r (say m) λ _. done) s)
  complained c x m s e n h = release law c s x (say m) (λ _. done) e n h (λ v k. k)

module _ {os : Os} (law : IsLawful os) {base : Trace} {xs : List Resource} where
  pub remove_existing-Owns :
      (s : Machine) → Owns base xs s.trace → Leaves base xs (remove_existing os s)
  unfolding remove_existing
  remove_existing-Owns s h =
      acquire law (shmget 0 0o666) s (λ k. shm_segment k) _ _ refl (λ v. refl) h (λ k. k)
        λ k q h1.
          release law (shmctl_rmid k) _ (shm_segment k) _ _ refl (λ v. refl) h1
            λ v h2. Owns-said _ h2

  use_segment-Owns :
      (k n buffer : ℕ) (s : Machine)
      → 0 < n
      → Owns base (segment buffer n ∷ shm_segment k ∷ xs) s.trace
      → Leaves base xs (use_segment os k n buffer s)
  unfolding use_segment
  use_segment-Owns k n buffer s pos h =
      let h1 =
        touch-Owns (segment buffer n) buffer n b'V' _ refl (omega arith)
          (Owns-said (value "已创建System V共享内存 MB" (n / 1024 / 1024)) h) in
      let h2 = print_memory_info-Owns law _ h1 in
      let h3 =
        share_with_child-Owns law (segment buffer n)
          (child_rewrites os buffer n b'C' (ask os (shmdt buffer) >> done)) buffer _ refl pos h2 in
      let h4 = ignored law cin_get refl (λ v. refl) h3 in
      let h5 =
        complained law (shmdt buffer) (segment buffer n) (error "无法分离System V共享内存: ") _
          (ap (λ m. segment buffer m ∷ []) (h4.fits.0 buffer refl)) (λ v. refl) h4 in
      complained law (shmctl_rmid k) (shm_segment k) (error "无法删除System V共享内存: ") _ refl (λ v. refl)
        h5

  attach_segment-Owns :
      (k n : ℕ) (s : Machine)
      → 0 < n
      → segment_size s.trace k ≡ n
      → Owns base (shm_segment k ∷ xs) s.trace
      → Leaves base xs (attach_segment os k n s)
  unfolding attach_segment
  attach_segment-Owns k n s pos sized h =
      acquire law (shmat k) s (λ p. segment p n) _ _ refl (λ v. ap (λ m. segment v m ∷ []) sized) h
        (λ j. demo_shared_memory-Owns law 1 _ (
          returned law (shmctl_rmid k) (shm_segment k) refl (λ v. refl)
            (Owns-said (error "无法附加到System V共享内存: ") j)))
        λ p q j. use_segment-Owns k n p _ pos j

  after_search :
      (r : Option (ℕ × ℕ) × Machine)
      → Found base xs r
      → Leaves base xs (on_reply r.0 (fall_back os) (λ (k, n). attach_segment os k n) r.1)
  unfolding fall_back
  after_search (none, s) h = demo_shared_memory-Owns law 1 _ (
      ignored law (system sysctl_sysv) refl (λ v. refl)
        (ignored law (system ipcs_segments) refl (λ v. refl)
          (Owns-said (error "所有System V共享内存尝试都失败") h)))
  after_search (some (k, n), s) h = attach_segment-Owns k n s (omega arith) h.1 h.0

-- On an operating system that keeps the law, from a legal trace, whichever sizes and flags are
-- refused, and whether or not the segment can be attached: every byte read or written lies in
-- memory held, only what is held is given back, and the process ends holding what it held at the
-- start, so that the segment, the attachment and all of the fall-back are given back.
pub demo_sysv_shared_memory-Owns :
    {os : Os} (law : IsLawful os) (size_mb : ℕ) (s : Machine)
    → IsLegal s.trace
    → Leaves s.trace [] (demo_sysv_shared_memory os size_mb s)
unfolding demo_sysv_shared_memory
demo_sysv_shared_memory-Owns law size_mb s legal = after_search law _ (
    try_sizes-Found law size_options _ size_options_bounds (
      remove_existing-Owns law _
        (ignored law (system ipcs_limits) refl (λ v. refl) (Owns-refl s.trace legal))))
