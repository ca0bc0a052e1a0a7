-- ===== src/Xnu/Sharing.antt =====
-- The part that demo_anonymous_shared_memory, demo_shared_memory and demo_sysv_shared_memory of
-- macos/process/xnu_footprint_demo.cpp have in common: a child process that reads and rewrites the
-- shared memory, and a parent that waits for it and looks.
pub mod Concurrent
pub mod Children
use memory_demo.Base.{
  ℕ, ◌-◌, ◌≤◌, ◌<◌, ◌≡◌, ◌≢◌, refl, ◌⊎◌, inl, inr, none, some, List, [], ◌∷◌, All, arith,
  Option-cases, ap,
}
use memory_demo.Base.Word.{u64, page}
use memory_demo.Os.{
  fork, waitpid, cin_get, Message, error, value, Resource, Trace, said, address, size, IsCovered,
  IsLegal, Os, Machine, Action, ◌>>=◌, ◌>>◌, done, ask, say, load, on_reply, run_child, logged,
  touch, IsLawful, Owns, Owns-said, Owns-peek, Owns-held, Owns-plain, Leaves, consult, ignored,
  touch-Owns, touch_first,
}

-- The child: it prints the first byte, writes v to the first byte of each page, prints again, and
-- waits for a key; `leave` is what it does before exit(0).
pub child_rewrites : Os → (buffer n v : ℕ) → Action (Unit {0}) → Action (Unit {0})
child_rewrites os buffer n v leave = do
  before ← load buffer
  say (value "子进程读取第一个字节" before)
  touch buffer n v
  now ← load buffer
  say (value "子进程修改第一个字节为" now)
  ask os cin_get
  leave

abbrev pub parent_reads : ℕ → Message
parent_reads = value "父进程读取第一个字节 (应该被子进程修改)"

-- fork, and in the parent waitpid and a look at the first byte.
pub share_with_child : Os → Action (Unit {0}) → ℕ → Action (Unit {0})
share_with_child os child buffer = do
  pid ← ask os fork
  on_reply pid (say (error "创建子进程失败"))
      λ pid. do run_child child; ask os (waitpid pid); seen ← load buffer; say (parent_reads seen)

pub covered :
    {base : Trace} {xs : List Resource} {t : Trace} (x : Resource) (buffer : ℕ)
    → address x ≡ some buffer
    → 0 < size x
    → Owns base (x ∷ xs) t
    → IsCovered t buffer
covered x buffer at some_bytes h = record {
  block = x;
  start = buffer;
  located = at;
  owned = (Owns-held h).0;
  above = omega arith;
  below = omega arith;
}

module _ {os : Os} (law : IsLawful os) {base : Trace} {xs : List Resource} (x : Resource) where
  -- The child stays inside the block, and holds what its parent held when it forked.
  pub child_rewrites-Owns :
      (buffer n v : ℕ) (leave : Action (Unit {0})) (ys : List Resource) (s : Machine)
      → address x ≡ some buffer
      → 0 < n
      → n ≤ size x
      → ((z : Machine) → Owns base (x ∷ xs) z.trace → Leaves base ys (leave z))
      → Owns base (x ∷ xs) s.trace
      → Leaves base ys (child_rewrites os buffer n v leave s)
  unfolding child_rewrites
  child_rewrites-Owns buffer n v leave ys s at pos fit go h =
      let h1 =
        Owns-said (value "子进程读取第一个字节" (s.memory buffer))
          (Owns-peek buffer (s.memory buffer) (covered x buffer at size_pos h) h) in
      let h2 = touch-Owns x buffer n v _ at fit h1 in
      let h3 =
        Owns-said (value "子进程修改第一个字节为" _)
          (Owns-peek buffer _ (covered x buffer at size_pos h2) h2) in
      go _ (ignored law cin_get refl (λ w. refl) h3)
    where
      size_pos : 0 < size x
      size_pos = omega arith

  pub share_with_child-Owns :
      (child : Action (Unit {0})) (buffer : ℕ) (s : Machine)
      → address x ≡ some buffer
      → 0 < size x
      → Owns base (x ∷ xs) s.trace
      → Leaves base (x ∷ xs) (share_with_child os child buffer s)
  unfolding share_with_child
  share_with_child-Owns child buffer s at pos h =
      consult law fork s _ _ refl (λ v. refl) h (λ k. Owns-said _ k)
        λ pid k.
          let k1 = ignored law (waitpid pid) refl (λ v. refl) k in
          Owns-said _ (Owns-peek buffer _ (covered x buffer at pos k1) k1)

  -- On an operating system that keeps the law: if a child that starts with what the process owns
  -- keeps its trace legal, and the children so far have, then all children that have ended after
  -- share_with_child have left legal traces, for a process that owns the shared block.
  pub share_with_child-children :
      (child : Action (Unit {0})) (buffer : ℕ) (s : Machine)
      → ((z : Machine) → Owns base (x ∷ xs) z.trace → IsLegal (child z).1.trace)
      → Owns base (x ∷ xs) s.trace
      → All IsLegal s.children
      → All IsLegal (share_with_child os child buffer s).1.children
  unfolding share_with_child
  share_with_child-children child buffer s good h all =
      elim (Option-cases (os.reply s.trace fork)) [
        | inl q ↦ rw q all
        | inr (pid, q) ↦
            rw q (good (logged fork (some pid) s) (Owns-plain fork pid refl refl h), all)
      ]
