-- ===== src/Xnu/Memory/Commit.antt =====
-- What the demonstrations of private memory are for: every page of the block is written, and stays so until the block is given back.
use memory_demo.Base.{
  ℕ, ◌+◌, ◌-◌, ◌%◌, ◌<◌, ◌≡◌, refl, ap, ◌∙◌, sym, Option-cases, inl, inr, Option, none, some, List,
  ◌∷◌, arith,
}
use memory_demo.Base.Word.{page, mb_bytes}
use memory_demo.Os.{
  task_info, task_basic_info, malloc, mmap, munmap, free, cin_get, private_anonymous, Os, Machine,
  Call, Message, value, Event, did, Action, ◌>>◌, done, ask, say, logged, touch, stamped,
  touch_memory, touch-Records, Records, Records-then, Records-did, Records-ask, Records-say, onto,
  replay,
}
use memory_demo.Xnu.Memory.{
  print_memory_info, demo_internal_memory, demo_anonymous_mapping, demo_purgeable_memory,
}

print_memory_info-memory : (os : Os) (s : Machine) → (print_memory_info os s).1.memory ≡ s.memory
unfolding print_memory_info
print_memory_info-memory os s = elim (Option-cases (os.reply s.trace (task_info task_basic_info))) [
  | inl q ↦ rw q refl
  | inr (v, q) ↦ rw q refl
]

stamped_at : (p n v i : ℕ) (f : ℕ → ℕ) → i < n → i % page ≡ 0 → stamped p n v f (p + i) ≡ v
stamped_at p n v i f inside at = let back : p + i - p ≡ i = omega arith in rw back (ground arith)

-- The first byte of each page of the block.
page_written :
    (size_mb p v i : ℕ) (s : Machine)
    → i < mb_bytes size_mb
    → i % page ≡ 0
    → (touch p (mb_bytes size_mb) v s).1.memory (p + i) ≡ v
page_written size_mb p v i s inside at =
    (touch_memory p (mb_bytes size_mb) v s (p + i) (omega arith)).0
    ∙ stamped_at p (mb_bytes size_mb) v i s.memory inside at

print_memory_info-Records : (os : Os) (s : Machine) → Records s (print_memory_info os s)
unfolding print_memory_info
print_memory_info-Records os s =
    elim (Option-cases (os.reply s.trace (task_info task_basic_info))) [
      | inl q ↦
          rw q (Records-then (Records-did (task_info task_basic_info) none s) (Records-say _ _))
      | inr (v, q) ↦ rw q (
          Records-then (Records-did (task_info task_basic_info) (some v) s)
            (Records-then (Records-say _ _) (Records-say _ _)))
    ]

-- The run from s on ends with the call c, and when that call is made the byte at a is v.
abbrev pub EndsWith : Machine → Call → (a v : ℕ) → Machine → Type 0
EndsWith s c a v last =
    (es : List Event) × (o : Option ℕ) × (last.trace ≡ did c o ∷ onto es s.trace)
    × (replay es s.memory a ≡ v)

-- What the three demonstrations have in common, from the answer to their first call on.
private_memory : Os → Message → Call → (p n v : ℕ) → Action (Unit {0})
private_memory os m release p n v = do
  touch p n v
  say m
  print_memory_info os
  ask os cin_get
  ask os release
  done

private_memory-EndsWith :
    (os : Os) (acquire release : Call) (m : Message) (size_mb p v i : ℕ) (s : Machine)
    → i < mb_bytes size_mb
    → i % page ≡ 0
    → EndsWith s release
        (p + i)
        v
        (private_memory os m release p (mb_bytes size_mb) v (logged acquire (some p) s)).1
unfolding private_memory
private_memory-EndsWith os acquire release m size_mb p v i s inside at =
    let before = Records-then (Records-did acquire (some p) s) (
      Records-then (touch-Records p (mb_bytes size_mb) v _) (
        Records-then (Records-say m _)
          (Records-then (print_memory_info-Records os _) (Records-ask os cin_get _)))) in
    let written = touch p (mb_bytes size_mb) v (logged acquire (some p) s) in
    let now = (ask os cin_get (print_memory_info os (say m written.1).1).1).1 in
    let answer = os.reply now.trace release in
    (
      before.events,
      answer,
      ap (λ t. did release answer ∷ t) before.in_trace,
      ap (λ f. f (p + i)) (sym before.memory_after)
          ∙ ap (λ f. f (p + i)) (print_memory_info-memory os _)
          ∙ page_written size_mb p v i (logged acquire (some p) s) inside at,
    )

-- Where malloc and mmap answer the addresses p and q: each of the three demonstrations of private
-- memory ends with the call that gives its block back, and when that call is made the first byte of
-- every page of the block is the byte that the demonstration writes.
pub private_demonstrations_commit :
    (os : Os) (size_mb p q i : ℕ) (s : Machine)
    → os.reply s.trace (malloc (mb_bytes size_mb)) ≡ some p
    → os.reply s.trace (mmap private_anonymous (mb_bytes size_mb)) ≡ some q
    → i < mb_bytes size_mb
    → i % page ≡ 0
    → EndsWith s (free p) (p + i) b'A' (demo_internal_memory os size_mb s).1
      × EndsWith s
          (munmap q (mb_bytes size_mb))
          (q + i)
          b'C'
          (demo_anonymous_mapping os size_mb s).1
      × EndsWith s (free p) (p + i) b'P' (demo_purgeable_memory os size_mb s).1
unfolding demo_internal_memory demo_anonymous_mapping demo_purgeable_memory private_memory
private_demonstrations_commit os size_mb p q i s heap_at mapped_at inside at = (
  rw heap_at (private_memory-EndsWith os (malloc n) (free p) m size_mb p b'A' i s inside at),
  rw mapped_at (
      private_memory-EndsWith os (mmap private_anonymous n) (munmap q n) m size_mb q b'C' i s inside
        at),
  rw heap_at (private_memory-EndsWith os (malloc n) (free p) m size_mb p b'P' i s inside at),
)
  where
    n : ℕ
    n = mb_bytes size_mb

    m : Message
    m = value "已分配并写入" size_mb
