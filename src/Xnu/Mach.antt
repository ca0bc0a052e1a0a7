-- ===== src/Xnu/Mach.antt =====
-- macos/process/mach_shared_memory_demo.cpp.
use memory_demo.Base.{
  ℕ, ◌<◌, refl, Option, none, some, List, [], ◌∷◌, arith, Option-cases, inl, inr,
}
use memory_demo.Base.Word.{mb_bytes}
use memory_demo.Os.{
  vm_allocate, vm_deallocate, make_memory_entry, vm_map, port_deallocate, fork, waitpid, sleep,
  cin_get, error, value, vm, port, Resource, Trace, did, IsLegal, Os, Machine, Action, ◌>>=◌, ◌>>◌,
  pure, done, ask, say, load, on_reply, logged, touch, touch-Owns, IsLawful, Owns, Owns-refl,
  Owns-said, Owns-peek, Owns-one, Owns-failed, Owns-held, IsCovered, Leaves, consult, ignored,
  returned,
}
use memory_demo.Xnu.Memory.{print_memory_info, print_memory_info-Owns}

-- The address of the memory and the port of its memory object; `none` is the result false.
pub create_mach_shared_memory : Os → ℕ → Action (Option (ℕ × ℕ))
create_mach_shared_memory os n = do
  allocated ← ask os (vm_allocate n)
  on_reply allocated (say (error "无法分配内存区域: ") >> pure none) λ memory. do
    touch memory n b'M'
    entry ← ask os (make_memory_entry memory n)
    on_reply entry (do say (error "无法创建内存对象: "); ask os (vm_deallocate memory n); pure none)
        λ mem_port. pure (some (memory, mem_port))

pub map_mach_shared_memory : Os → (memory_port n : ℕ) → Action (Option ℕ)
map_mach_shared_memory os memory_port n = do
  mapped ← ask os (vm_map memory_port n)
  on_reply mapped (say (error "无法映射共享内存: ") >> pure none) λ p. pure (some p)

-- The child, up to its exit.
pub mach_child : Os → (memory_port n : ℕ) → Action (Unit {0})
mach_child os memory_port n = do
  mapped ← map_mach_shared_memory os memory_port n
  on_reply mapped (say (error "子进程映射共享内存失败")) λ child_memory. do
    say (value "子进程成功映射共享内存，地址: " child_memory)
    before ← load child_memory
    say (value "子进程读取共享内存第一个字节" before)
    touch child_memory n b'C'
    print_memory_info os
    ask os (sleep 10)
    ask os (vm_deallocate child_memory n)
    ask os (port_deallocate memory_port)
    done

-- The child maps the memory at an address of its own. What the parent then sees of the child's
-- writes is the kernel's: `seen` takes the memory before and the child's memory at its end.
abbrev pub Seen : Type 0
Seen = (ℕ → ℕ) → (ℕ → ℕ) → ℕ → ℕ

pub run_mapped_child : Seen → Action (Unit {0}) → Action (Unit {0})
run_mapped_child seen child s =
    let (_, s') = child s in
    (tt, record s { memory = seen s.memory s'.memory; children = s'.trace ∷ s.children })

-- fork and what follows it, in the parent.
pub share_mach_memory : Os → Seen → (memory memory_port n : ℕ) → Action (Unit {0})
unfolding run_mapped_child
share_mach_memory os seen memory memory_port n = do
  pid ← ask os fork
  on_reply pid
      (do
        say (error "创建子进程失败")
        ask os (port_deallocate memory_port)
        ask os (vm_deallocate memory n)
        done)
      λ pid. do
        run_mapped_child seen (mach_child os memory_port n)
        ask os (waitpid pid)
        first ← load memory
        say (value "父进程读取共享内存第一个字节 (应该被子进程修改)" first)
        ask os (port_deallocate memory_port)
        ask os (vm_deallocate memory n)
        done

pub demo_mach_shared_memory : Os → Seen → ℕ → Action (Unit {0})
demo_mach_shared_memory os seen size_mb = do
  let size_bytes = mb_bytes size_mb
  created ← create_mach_shared_memory os size_bytes
  on_reply created (say (error "创建Mach共享内存失败")) λ (memory, memory_port). do
    say (value "已创建Mach共享内存区域" size_mb)
    say (value "内存地址: " memory)
    print_memory_info os
    share_mach_memory os seen memory memory_port size_bytes

pub mach_main : Os → Seen → Action (Unit {0})
mach_main os seen = do print_memory_info os; ask os cin_get; demo_mach_shared_memory os seen 50

-- What create_mach_shared_memory has made, as its result tells.
abbrev Created : Trace → List Resource → ℕ → Option (ℕ × ℕ) × Machine → Type 0
Created base xs n (none, s) = Owns base xs s.trace
Created base xs n (some (memory, mem_port), s) =
    Owns base (port mem_port ∷ vm memory n ∷ xs) s.trace

module _ {os : Os} (law : IsLawful os) {base : Trace} {xs : List Resource} (n : ℕ) where
  create_mach_shared_memory-Created :
      (s : Machine) → Owns base xs s.trace → Created base xs n (create_mach_shared_memory os n s)
  unfolding create_mach_shared_memory
  create_mach_shared_memory-Created s h = elim (Option-cases (os.reply s.trace (vm_allocate n))) [
    | inl q ↦ rw q (Owns-said _ (Owns-failed (vm_allocate n) refl h))
    | inr (p, q) ↦
        let s1 = (touch p n b'M' (logged (vm_allocate n) (some p) s)).1 in
        let h1 =
          touch-Owns (vm p n) p n b'M' (logged (vm_allocate n) (some p) s) refl (omega arith) (
            Owns-one (vm_allocate n) p (vm p n) refl refl (law.fresh s.trace (vm_allocate n) p q)
              h) in
        rw q (elim (Option-cases (os.reply s1.trace (make_memory_entry p n))) [
          | inl r ↦ rw r (
              returned law (vm_deallocate p n) (vm p n) refl (λ v. refl)
                (Owns-said _ (Owns-failed (make_memory_entry p n) refl h1)))
          | inr (k, r) ↦ rw r (
              Owns-one (make_memory_entry p n) k (port k) refl refl
                (law.fresh s1.trace (make_memory_entry p n) k r) h1)
        ])
  ]

  cleaned :
      {t : Trace} (memory k : ℕ)
      → Owns base (port k ∷ vm memory n ∷ xs) t
      → let t' = did (port_deallocate k) (os.reply t (port_deallocate k)) ∷ t in
        Owns base xs (did (vm_deallocate memory n) (os.reply t' (vm_deallocate memory n)) ∷ t')
  cleaned memory k h =
      returned law (vm_deallocate memory n) (vm memory n) refl (λ v. refl)
        (returned law (port_deallocate k) (port k) refl (λ v. refl) h)

  inside :
      {t : Trace} (memory k : ℕ)
      → 0 < n
      → Owns base (port k ∷ vm memory n ∷ xs) t
      → IsCovered t memory
  inside memory k pos h = record {
    block = vm memory n;
    start = memory;
    located = refl;
    owned = (Owns-held h).1.0;
    above = omega arith;
    below = omega arith;
  }

  share_mach_memory-Owns :
      (seen : Seen) (memory k : ℕ) (s : Machine)
      → 0 < n
      → Owns base (port k ∷ vm memory n ∷ xs) s.trace
      → Leaves base xs (share_mach_memory os seen memory k n s)
  unfolding share_mach_memory
  share_mach_memory-Owns seen memory k s pos h =
      consult law fork s _ _ refl (λ v. refl) h (λ j. cleaned memory k (Owns-said _ j))
        λ pid j.
          let j1 = ignored law (waitpid pid) refl (λ v. refl) j in
          cleaned memory k (Owns-said _ (Owns-peek memory _ (inside memory k pos j1) j1))

  after_creation :
      (seen : Seen) (size_mb : ℕ) (r : Option (ℕ × ℕ) × Machine)
      → 0 < n
      → Created base xs n r
      → Leaves base xs (
          on_reply r.0
            (say (error "创建Mach共享内存失败"))
            (λ (memory, memory_port). do
              say (value "已创建Mach共享内存区域" size_mb)
              say (value "内存地址: " memory)
              print_memory_info os
              share_mach_memory os seen memory memory_port n)
            r.1)
  after_creation seen size_mb (none, s) pos h = Owns-said _ h
  after_creation seen size_mb (some (memory, k), s) pos h =
      share_mach_memory-Owns seen memory k _ pos
        (print_memory_info-Owns law _ (Owns-said _ (Owns-said _ h)))

module _ {os : Os} (law : IsLawful os) (seen : Seen) where
  demo_mach_shared_memory-Owns :
      {base : Trace} {xs : List Resource} (size_mb : ℕ) (s : Machine)
      → 0 < mb_bytes size_mb
      → Owns base xs s.trace
      → Leaves base xs (demo_mach_shared_memory os seen size_mb s)
  unfolding demo_mach_shared_memory
  demo_mach_shared_memory-Owns size_mb s pos h =
      after_creation law (mb_bytes size_mb) seen size_mb _ pos
        (create_mach_shared_memory-Created law (mb_bytes size_mb) s h)

  -- On an operating system that keeps the law, from a legal trace, the program ends holding what it
  -- held, whatever call fails and whatever the parent sees of the child's writes: the memory and
  -- the port of its memory object are given back, and every byte the parent accesses lies in the
  -- memory.
  pub mach_main-Owns : (s : Machine) → IsLegal s.trace → Leaves s.trace [] (mach_main os seen s)
  unfolding mach_main
  mach_main-Owns s legal = demo_mach_shared_memory-Owns 50 _ (omega arith) (
      ignored law cin_get refl (λ v. refl) (print_memory_info-Owns law s (Owns-refl s.trace legal)))
