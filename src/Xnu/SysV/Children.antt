-- ===== src/Xnu/SysV/Children.antt =====
-- The child processes of demo_sysv_shared_memory.
use memory_demo.Base.{
  ℕ, ◌/◌, ◌<◌, ◌≡◌, ◌∙◌, refl, sym, subst, ap, Option, none, some, List, [], ◌∷◌, All, Option-cases,
  inl, inr, arith,
}
use memory_demo.Os.{
  shmget, shmctl_rmid, shmat, shmdt, system, ipcs_limits, ipcs_segments, sysctl_sysv, error, value,
  segment, shm_segment, Resource, Trace, IsLegal, segment_size, Os, Machine, Call, Message, done,
  ask, ◌>>◌, ◌>>=◌, say, on_reply, logged, IsLawful, Owns, Owns-refl, Owns-said, acquire_any,
  ignored, returned,
}
use memory_demo.Xnu.Sharing.Children.{write_and_share-children}
use memory_demo.Xnu.Shared.Children.{
  demo_shared_memory-children, demo_anonymous_shared_memory-children,
}
use memory_demo.Xnu.Shared.{demo_anonymous_shared_memory, demo_shared_memory}
use memory_demo.Xnu.SysV.{
  flags_options, size_options, try_flags, try_sizes, remove_existing, use_segment, attach_segment,
  fall_back, demo_sysv_shared_memory,
}
use memory_demo.Xnu.SysV.Search.{Found, size_options_bounds, try_sizes-Found}
use memory_demo.Xnu.SysV.Segment.{remove_existing-Owns}

module _ (os : Os) where
  remove_existing-children : (s : Machine) → (remove_existing os s).1.children ≡ s.children
  unfolding remove_existing
  remove_existing-children s = elim (Option-cases (os.reply s.trace (shmget 0 0o666))) [
    | inl q ↦ rw q refl
    | inr (k, q) ↦
        let z = logged (shmget 0 0o666) (some k) s in
        rw q (elim (Option-cases (os.reply z.trace (shmctl_rmid k))) [
          | inl p ↦ rw p refl
          | inr (v, p) ↦ rw p refl
        ])
  ]

  try_flags-children :
      (n : ℕ) (flags : List ℕ) (s : Machine) → (try_flags os n flags s).1.children ≡ s.children
  unfolding try_flags
  try_flags-children n [] s = refl
  try_flags-children n (f ∷ rest) s = elim (Option-cases (os.reply s.trace (shmget n f))) [
    | inl q ↦ rw q (try_flags-children n rest (say (error "失败: ") (logged (shmget n f) none s)).1)
    | inr (k, q) ↦ rw q refl
  ]

  try_sizes-children :
      (sizes : List ℕ) (s : Machine) → (try_sizes os sizes s).1.children ≡ s.children
  unfolding try_sizes
  try_sizes-children [] s = refl
  try_sizes-children (n ∷ rest) s =
      let before = try_flags-children n flags_options s in
      elim (Option-cases (try_flags os n flags_options s).0) [
        | inl q ↦ rw q (try_sizes-children rest (try_flags os n flags_options s).1 ∙ before)
        | inr (k, q) ↦ rw q before
      ]

  -- A call with a line printed if it is refused.
  complained-children :
      (c : Call) (m : Message) (s : Machine)
      → ((do r ← ask os c; on_reply r (say m) λ _. done) s).1.children ≡ s.children
  complained-children c m s = elim (Option-cases (os.reply s.trace c)) [
    | inl q ↦ rw q refl
    | inr (v, q) ↦ rw q refl
  ]

module _ {os : Os} (law : IsLawful os) {base : Trace} {xs : List Resource} where
  use_segment-children :
      (k n buffer : ℕ) (s : Machine)
      → 0 < n
      → Owns base (segment buffer n ∷ shm_segment k ∷ xs) s.trace
      → All IsLegal s.children
      → All IsLegal (use_segment os k n buffer s).1.children
  unfolding use_segment
  use_segment-children k n buffer s pos h all =
      let shared =
        write_and_share-children law {ys = shm_segment k ∷ xs} (segment buffer n) buffer n b'V' b'C'
          (ask os (shmdt buffer) >> done) _ refl pos (omega arith)
          (λ z j.
            returned law (shmdt buffer) (segment buffer n)
              (ap (λ m. segment buffer m ∷ []) (j.fits.0 buffer refl)) (λ v. refl) j)
          (Owns-said (value "已创建System V共享内存 MB" (n / 1024 / 1024)) h) all in
      subst (All IsLegal)
        (sym (
          complained-children os (shmctl_rmid k) (error "无法删除System V共享内存: ") _
          ∙ complained-children os (shmdt buffer) (error "无法分离System V共享内存: ") _))
        shared

  attach_segment-children :
      (k n : ℕ) (s : Machine)
      → 0 < n
      → segment_size s.trace k ≡ n
      → Owns base (shm_segment k ∷ xs) s.trace
      → All IsLegal s.children
      → All IsLegal (attach_segment os k n s).1.children
  unfolding attach_segment
  attach_segment-children k n s pos sized h all =
      acquire_any law (λ r. All IsLegal r.1.children) (shmat k) s (λ p. segment p n) _ _ refl
        (λ v. ap (λ m. segment v m ∷ []) sized) h
        (λ j.
          demo_shared_memory-children law 1 _
            (returned law (shmctl_rmid k) (shm_segment k) refl (λ v. refl)
              (Owns-said (error "无法附加到System V共享内存: ") j))
            all)
        λ p q j. use_segment-children k n p _ pos j all

module _ {os : Os} (law : IsLawful os) (base : Trace) (xs : List Resource) where
  after_search :
      (r : Option (ℕ × ℕ) × Machine)
      → Found base xs r
      → All IsLegal r.1.children
      → All IsLegal (on_reply r.0 (fall_back os) (λ (k, n). attach_segment os k n) r.1).1.children
  unfolding fall_back
  after_search (none, s) h all =
      demo_shared_memory-children law 1 _
        (ignored law (system sysctl_sysv) refl (λ v. refl)
          (ignored law (system ipcs_segments) refl (λ v. refl)
            (Owns-said (error "所有System V共享内存尝试都失败") h)))
        all
  after_search (some (k, n), s) h all = attach_segment-children law k n s (omega arith) h.1 h.0 all

demo_sysv_shared_memory-children :
    {os : Os} (law : IsLawful os) (size_mb : ℕ) (s : Machine)
    → IsLegal s.trace
    → All IsLegal s.children
    → All IsLegal (demo_sysv_shared_memory os size_mb s).1.children
unfolding demo_sysv_shared_memory
demo_sysv_shared_memory-children {os} law size_mb s legal all =
    let asked = ignored law (system ipcs_limits) refl (λ v. refl) (Owns-refl s.trace legal) in
    after_search law s.trace [] _
      (try_sizes-Found law size_options _ size_options_bounds (remove_existing-Owns law _ asked))
      (subst (All IsLegal)
        (sym (try_sizes-children os size_options _ ∙ remove_existing-children os _)) all)

-- On an operating system that keeps the law, from a legal trace and children that have left legal
-- traces: after each of the three demonstrations of shared memory all children have left legal
-- traces, whatever calls fail; so that every byte that a child reads or writes lies in memory that
-- it holds, and it gives back only what it holds.
pub shared_memory-children :
    {os : Os} (law : IsLawful os) (size_mb : ℕ) (s : Machine)
    → IsLegal s.trace
    → All IsLegal s.children
    → All IsLegal (demo_anonymous_shared_memory os size_mb s).1.children
      × All IsLegal (demo_shared_memory os size_mb s).1.children
      × All IsLegal (demo_sysv_shared_memory os size_mb s).1.children
shared_memory-children law size_mb s legal all = (
  demo_anonymous_shared_memory-children law size_mb s (Owns-refl s.trace legal) all,
  demo_shared_memory-children law size_mb s (Owns-refl s.trace legal) all,
  demo_sysv_shared_memory-children law size_mb s legal all,
)
