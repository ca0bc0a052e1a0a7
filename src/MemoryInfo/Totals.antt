-- ===== src/MemoryInfo/Totals.antt =====
-- What the walks of memory_info.cc add up.
use memory_demo.Base.{
  ℕ, ◌+◌, ◌*◌, ◌/◌, ◌%◌, ◌<◌, ◌≡◌, refl, none, some, List, [], ◌∷◌, arith, length, ltb, ◌==◌,
  if◌then◌else◌, Option-cases, inl, inr, ◌∙◌, ap,
}
use memory_demo.Base.Word.{u64}
use memory_demo.Os.{
  Os, Machine, IsLawful, Owns-refl, Owns-said, Leaves, IsLegal, acquire, returned, task_for_pid,
  port_deallocate, port,
}
use memory_demo.MemoryInfo.{
  ShareMode, sm_cow, sm_private, sm_shared, Region, VmInfo, Kernel, add_region, printed, report,
  print_memory_info, add_shared, get_process_shared_memory, next_region, next_within,
}
use memory_demo.MemoryInfo.Walk.{Lists, fold_rounds, walk_folds, Lists-end}

-- The bytes of a region that are resident and private: those of a private region, and those of a
-- copy-on-write region that has one reference.
abbrev pub private_part : Kernel → ShareMode → Region → ℕ
private_part k sm_private r = r.private_pages_resident * k.vm_page_size % u64
private_part k sm_cow r =
    if r.ref_count == 1 then r.private_pages_resident * k.vm_page_size % u64 else 0
private_part k _ r = 0

-- The share of the task in the resident bytes of a region with several references.
abbrev pub shared_part : Kernel → ShareMode → Region → ℕ
shared_part k sm_cow r =
    if ltb 1 r.ref_count then r.shared_pages_resident * k.vm_page_size % u64 / r.ref_count else 0
shared_part k sm_shared r =
    if ltb 1 r.ref_count then r.shared_pages_resident * k.vm_page_size % u64 / r.ref_count else 0
shared_part k _ r = 0

abbrev pub private_sum : Kernel → List Region → ℕ
private_sum k [] = 0
private_sum k (r ∷ rs) = private_part k r.share_mode r + private_sum k rs

abbrev pub shared_sum : Kernel → List Region → ℕ
shared_sum k [] = 0
shared_sum k (r ∷ rs) = shared_part k r.share_mode r + shared_sum k rs

round_parts :
    (k : Kernel) (mode : ShareMode) (r : Region) (p s : ℕ)
    → r.share_mode ≡ mode
    → p < u64
    → s < u64
    → add_region k r (p, s) ≡ ((p + private_part k mode r) % u64, (s + shared_part k mode r) % u64)
unfolding add_region
round_parts k sm_private r p s e hp hs = rw e (ground arith)
round_parts k sm_cow r p s e hp hs = rw e (ground arith)
round_parts k _ r p s e hp hs = rw e (ground arith)

fold_totals :
    (k : Kernel) (rs : List Region) (p s : ℕ)
    → p < u64
    → s < u64
    → fold_rounds (add_region k) (p, s) rs
      ≡ ((p + private_sum k rs) % u64, (s + shared_sum k rs) % u64)
fold_totals k [] p s hp hs = ground arith
fold_totals k (r ∷ rs) p s hp hs = rw (round_parts k r.share_mode r p s refl hp hs) (
    fold_totals k rs ((p + private_part k r.share_mode r) % u64)
      ((s + shared_part k r.share_mode r) % u64) (omega arith) (omega arith)
    ∙ ground arith)

fold_from_zero :
    (k : Kernel) (rs : List Region)
    → fold_rounds (add_region k) (0, 0) rs ≡ (private_sum k rs % u64, shared_sum k rs % u64)
fold_from_zero k rs = fold_totals k rs 0 0 (omega arith) (omega arith) ∙ ground arith

report_totals :
    (k : Kernel) (info : VmInfo) (rs : List Region) (b fuel : ℕ)
    → Lists (next_region k) 0 rs b
    → length rs < fuel
    → report k fuel info
      ≡ some (some (printed k info (private_sum k rs % u64, shared_sum k rs % u64) 0))
unfolding report
report_totals k info rs b fuel l h =
    rw
      (
        walk_folds (next_region k) (add_region k) rs fuel 0 b (0, 0) l h,
        walk_folds (next_region k) (λ r (count : ℕ). count) [] fuel b b 0
            (Lists-end (next_region k) rs 0 b l, refl) (omega arith),
        fold_from_zero k rs,
      )
      refl

print_memory_info-report :
    (k : Kernel) (info : VmInfo) (fuel : ℕ)
    → k.vm_info ≡ some info
    → print_memory_info k fuel ≡ report k fuel info
unfolding print_memory_info
print_memory_info-report k info fuel e = rw e refl

-- For a task whose regions, from address 0 on, are the list rs, with more fuel than there are
-- regions and the task's figures granted: the report is printed, and its real private and real
-- shared memory are the sums over all regions of the private part and of the task's share of the
-- shared part, modulo 2 ^ 64; the second walk counts nothing.
pub print_memory_info_totals :
    (k : Kernel) (info : VmInfo) (rs : List Region) (b fuel : ℕ)
    → k.vm_info ≡ some info
    → Lists (next_region k) 0 rs b
    → length rs < fuel
    → print_memory_info k fuel
      ≡ some (some (printed k info (private_sum k rs % u64, shared_sum k rs % u64) 0))
print_memory_info_totals k info rs b fuel e l h =
    print_memory_info-report k info fuel e ∙ report_totals k info rs b fuel l h

-- The sizes of the regions that are not private.
abbrev pub not_private : ShareMode → ℕ → ℕ
not_private sm_private n = 0
not_private _ n = n

abbrev pub not_private_sum : List Region → ℕ
not_private_sum [] = 0
not_private_sum (r ∷ rs) = not_private r.share_mode r.bytes + not_private_sum rs

add_shared_round :
    (mode : ShareMode) (r : Region) (n : ℕ)
    → r.share_mode ≡ mode
    → n < u64
    → add_shared r n ≡ (n + not_private mode r.bytes) % u64
unfolding add_shared
add_shared_round sm_private r n e h = rw e (omega arith)
add_shared_round _ r n e h = rw e refl

add_shared_fold :
    (rs : List Region) (n : ℕ)
    → n < u64
    → fold_rounds add_shared n rs ≡ (n + not_private_sum rs) % u64
add_shared_fold [] n h = omega arith
add_shared_fold (r ∷ rs) n h =
    rw (add_shared_round r.share_mode r n refl h) (
      add_shared_fold rs ((n + not_private r.share_mode r.bytes) % u64) (omega arith) ∙ omega arith)

-- Where the compressed bytes are below 2 ^ 64 and the second walk has counted nothing, the two
-- lines on compressed memory print the same number.
pub compressed_lines_agree :
    (k : Kernel) (info : VmInfo) (totals : ℕ × ℕ)
    → info.compressed < u64
    → let p = printed k info totals 0 in p.total_compressed_mb ≡ p.compressed_mb
unfolding printed
compressed_lines_agree k info totals h = ground arith

-- For a task whose regions, from address 0 and depth 1 on, are the list rs, with more fuel than
-- there are regions: the result is 0 where the port of the task is refused, and else the sum of the
-- sizes of the regions that are not private, modulo 2 ^ 64.
pub get_process_shared_memory_total :
    (os : Os) (k : Kernel) (rs : List Region) (b : ℕ × ℕ) (fuel pid : ℕ) (s : Machine)
    → Lists (next_within k) (0, 1) rs b
    → length rs < fuel
    → (get_process_shared_memory os k fuel pid s).0 ≡ elim (os.reply s.trace (task_for_pid pid)) [
      | none ↦ some 0
      | some task ↦ some (not_private_sum rs % u64)
    ]
unfolding get_process_shared_memory
get_process_shared_memory_total os k rs b fuel pid s l h =
    elim (Option-cases (os.reply s.trace (task_for_pid pid))) [
      | inl q ↦ simp q refl
      | inr (task, q) ↦
          simp (q, walk_folds (next_within k) add_shared rs fuel (0, 1) b 0 l h)
            (ap some (add_shared_fold rs 0 (omega arith) ∙ omega arith))
    ]

-- On an operating system that keeps the law, from a legal trace, the process ends holding what it
-- held: the port of the other task is given back.
pub get_process_shared_memory-Owns :
    {os : Os} (law : IsLawful os) (k : Kernel) (fuel pid : ℕ) (s : Machine)
    → IsLegal s.trace
    → Leaves s.trace [] (get_process_shared_memory os k fuel pid s)
unfolding get_process_shared_memory
get_process_shared_memory-Owns law k fuel pid s legal =
    acquire law (task_for_pid pid) s (λ p. port p) _ _ refl (λ v. refl) (Owns-refl s.trace legal)
      (λ h. Owns-said _ h) λ p q h. returned law (port_deallocate p) (port p) refl (λ v. refl) h
