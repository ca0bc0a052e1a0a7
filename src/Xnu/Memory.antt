-- ===== src/Xnu/Memory.antt =====
-- macos/process/xnu_footprint_demo.cpp: print_memory_info, and the demonstrations that hold one
-- piece of private memory.
pub mod Commit
use memory_demo.Base.{
  Option-cases, inl, inr, ℕ, ◌/◌, ◌≤◌, ◌≡◌, refl, some, List, [], ◌∷◌, arith, ap,
}
use memory_demo.Base.Word.{mb_bytes}
use memory_demo.Os.{
  task_info, task_basic_info, malloc, free, mmap, munmap, private_anonymous, cin_get, error, value,
  heap, mapping, Resource, Trace, IsLegal, Os, Action, ◌>>=◌, ◌>>◌, done, ask, say, on_reply, touch,
  IsLawful, Owns, Owns-refl, Owns-said, Leaves, acquire, consult, ignored, returned, touch-Owns,
  Machine, Message, address, size,
}

-- The sizes are printed in whole megabytes.
pub print_memory_info : Os → Action (Unit {0})
print_memory_info os = do
  kr ← ask os (task_info task_basic_info)
  on_reply kr (say (error "获取任务信息失败")) λ info. do
    say (value "常驻内存大小 (RSS)" (os.resident_size info / 1024 / 1024))
    say (value "虚拟内存大小 (VSZ)" (os.virtual_size info / 1024 / 1024))

-- It makes no child.
pub print_memory_info-children :
    (os : Os) (s : Machine) → (print_memory_info os s).1.children ≡ s.children
unfolding print_memory_info
print_memory_info-children os s =
    elim (Option-cases (os.reply s.trace (task_info task_basic_info))) [
      | inl q ↦ rw q refl
      | inr (v, q) ↦ rw q refl
    ]

pub demo_internal_memory : Os → ℕ → Action (Unit {0})
demo_internal_memory os size_mb = do
  let size_bytes = mb_bytes size_mb
  buffer ← ask os (malloc size_bytes)
  on_reply buffer (say (error "内存分配失败!")) λ buffer. do
    touch buffer size_bytes b'A'
    say (value "已分配并写入" size_mb)
    print_memory_info os
    ask os cin_get
    ask os (free buffer)
    done

pub demo_anonymous_mapping : Os → ℕ → Action (Unit {0})
demo_anonymous_mapping os size_mb = do
  let size_bytes = mb_bytes size_mb
  mapped ← ask os (mmap private_anonymous size_bytes)
  on_reply mapped (say (error "匿名内存映射失败!")) λ buffer. do
    touch buffer size_bytes b'C'
    say (value "已分配并写入" size_mb)
    print_memory_info os
    ask os cin_get
    ask os (munmap buffer size_bytes)
    done

pub demo_purgeable_memory : Os → ℕ → Action (Unit {0})
demo_purgeable_memory os size_mb = do
  let size_bytes = mb_bytes size_mb
  buffer ← ask os (malloc size_bytes)
  on_reply buffer (say (error "内存分配失败!")) λ buffer. do
    touch buffer size_bytes b'P'
    say (value "已分配并写入" size_mb)
    print_memory_info os
    ask os cin_get
    ask os (free buffer)
    done

module _ {os : Os} (law : IsLawful os) {base : Trace} {xs : List Resource} where
  pub print_memory_info-Owns :
      (s : Machine) → Owns base xs s.trace → Leaves base xs (print_memory_info os s)
  unfolding print_memory_info
  print_memory_info-Owns s h =
      consult law (task_info task_basic_info) s _ _ refl (λ v. refl) h (λ k. Owns-said _ k)
        λ v k. Owns-said _ (Owns-said _ k)

-- The way of all that hold one block: touch its pages, print, wait.
module _ {os : Os} (law : IsLawful os) {base : Trace} {xs : List Resource} where
  pub shown :
      (x : Resource) (p n v : ℕ) (m : Message) (s : Machine)
      → address x ≡ some p
      → n ≤ size x
      → Owns base (x ∷ xs) s.trace
      → Leaves base (x ∷ xs) ((do touch p n v; say m; print_memory_info os; ask os cin_get) s)
  shown x p n v m s at fit h =
      ignored law cin_get refl (λ v. refl)
        (print_memory_info-Owns law _ (Owns-said m (touch-Owns x p n v s at fit h)))

module _ {os : Os} (law : IsLawful os) (size_mb : ℕ) (s : Machine) (legal : IsLegal s.trace) where
  n : ℕ
  n = mb_bytes size_mb

  wrote : Message
  wrote = value "已分配并写入" size_mb

  -- On an operating system that keeps the law, from a legal trace, the process ends holding what it
  -- held, whether or not the block is granted, and every byte written lies in the block.
  pub demo_internal_memory-Owns : Leaves s.trace [] (demo_internal_memory os size_mb s)
  unfolding demo_internal_memory n wrote
  demo_internal_memory-Owns =
      acquire law (malloc n) s (λ p. heap p n) _ _ refl (λ v. refl) (Owns-refl s.trace legal)
        (λ h. Owns-said _ h)
        λ p q h.
          let h' = shown law (heap p n) p n b'A' wrote _ refl (omega arith) h in
          returned law (free p) (heap p n) (ap (λ k. heap p k ∷ []) (h'.fits.0 p refl)) (λ v. refl)
            h'

  -- On an operating system that keeps the law, from a legal trace, the process ends holding what it
  -- held, whether or not the mapping is granted, and every byte written lies in the mapping.
  pub demo_anonymous_mapping-Owns : Leaves s.trace [] (demo_anonymous_mapping os size_mb s)
  unfolding demo_anonymous_mapping n wrote
  demo_anonymous_mapping-Owns =
      acquire law (mmap private_anonymous n) s (λ p. mapping p n) _ _ refl (λ v. refl)
        (Owns-refl s.trace legal) (λ h. Owns-said _ h)
        λ p q h.
          let h' = shown law (mapping p n) p n b'C' wrote _ refl (omega arith) h in
          returned law (munmap p n) (mapping p n) refl (λ v. refl) h'

  -- On an operating system that keeps the law, from a legal trace, the process ends holding what it
  -- held, whether or not the block is granted, and every byte written lies in the block.
  pub demo_purgeable_memory-Owns : Leaves s.trace [] (demo_purgeable_memory os size_mb s)
  unfolding demo_purgeable_memory n wrote
  demo_purgeable_memory-Owns =
      acquire law (malloc n) s (λ p. heap p n) _ _ refl (λ v. refl) (Owns-refl s.trace legal)
        (λ h. Owns-said _ h)
        λ p q h.
          let h' = shown law (heap p n) p n b'P' wrote _ refl (omega arith) h in
          returned law (free p) (heap p n) (ap (λ k. heap p k ∷ []) (h'.fits.0 p refl)) (λ v. refl)
            h'

-- On an operating system that keeps the law, from a legal trace, each of the three demonstrations
-- of private memory ends holding what the process held, whether or not its block is granted, and
-- every byte written lies in the block.
pub private_demonstrations-Owns :
    {os : Os} (law : IsLawful os) (size_mb : ℕ) (s : Machine)
    → IsLegal s.trace
    → Leaves s.trace [] (demo_internal_memory os size_mb s)
      × Leaves s.trace [] (demo_anonymous_mapping os size_mb s)
      × Leaves s.trace [] (demo_purgeable_memory os size_mb s)
private_demonstrations-Owns law size_mb s legal = (
  demo_internal_memory-Owns law size_mb s legal,
  demo_anonymous_mapping-Owns law size_mb s legal,
  demo_purgeable_memory-Owns law size_mb s legal,
)
