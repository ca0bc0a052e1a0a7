-- ===== src/CodeSegment.antt =====
-- macos/process/large_code_segment.cpp: force_load_all_pages.
use memory_demo.Base.{
  ℕ, zero, suc, ◌+◌, ◌-◌, ◌*◌, ◌/◌, ◌%◌, ◌<◌, ◌≤◌, ◌≡◌, refl, ap, sym, ◌∙◌, List, [], ◌∷◌, ◌++◌,
  arith, ltb, ◌==◌, ◌&&◌, if◌then◌else◌, Bool-cases, inl, inr, ltb→lt, ltb→le, lt→ltb, true,
}
use memory_demo.Base.{map}
use memory_demo.Base.Word.{u64}
use memory_demo.Os.{Message, value, cin_get, Os, Action, ◌>>◌, done, ask, say}

-- The array: its initialiser names the first byte only.
abbrev pub huge_data : ℕ → ℕ
huge_data i = if i == 0 then 1 else 0

-- The progress that is printed at the index i, in megabytes, added to the lines before.
abbrev pub progress : ℕ → List ℕ → List ℕ
progress i lines =
    if ltb 0 i && (i % (1024 * 1024) == 0) then lines ++ i / (1024 * 1024) ∷ [] else lines

-- The loop from the index i on. One unit of fuel is one round.
pub force_from : (fuel array_size i sum : ℕ) → List ℕ → ℕ × List ℕ
force_from zero array_size i sum lines = (sum, lines)
force_from (suc fuel) array_size i sum lines =
    let rest = force_from fuel array_size ((i + 1) % u64) (sum + huge_data i) (progress i lines) in
    if ltb i array_size then rest else (sum, lines)

-- The checksum, and the megabytes that were reported; array_size is 100 * 1024 * 1024 in the source.
pub force_load_all_pages : ℕ → ℕ × List ℕ
unfolding force_from
force_load_all_pages array_size = force_from (array_size + 1) array_size 0 0 []

-- 1, 2, and so on up to k.
abbrev pub up_to : ℕ → List ℕ
up_to zero = []
up_to (suc k) = up_to k ++ suc k ∷ []

up_to-progress : (i : ℕ) → progress i (up_to ((i - 1) / (1024 * 1024))) ≡ up_to (i / (1024 * 1024))
up_to-progress zero = refl
up_to-progress (suc j) =
    let pos : ltb 0 (suc j) ≡ true = lt→ltb 0 (suc j) (omega arith) in
    let less : suc j - 1 ≡ j = omega arith in
    elim (Bool-cases (suc j % (1024 * 1024) == 0)) [
      | inl e ↦
          let next : suc j / (1024 * 1024) ≡ suc (j / (1024 * 1024)) = ground arith in
          rw (pos, less, e, next) refl
      | inr e ↦
          let same : suc j / (1024 * 1024) ≡ j / (1024 * 1024) = ground arith in
          rw (pos, less, e, same) refl
    ]

force_from_lem :
    (fuel n i : ℕ)
    → n < u64
    → i ≤ n
    → n < i + fuel
    → force_from fuel n i (if i == 0 then 0 else 1) (up_to ((i - 1) / (1024 * 1024)))
      ≡ (if n == 0 then 0 else 1, up_to ((n - 1) / (1024 * 1024)))
unfolding force_from
force_from_lem zero n i small b e = absurd (omega arith)
force_from_lem (suc fuel) n i small b e = elim (Bool-cases (ltb i n)) [
  | inl more ↦
      let l = ltb→lt i n more in
      let step : (i + 1) % u64 ≡ i + 1 = omega arith in
      let back : i + 1 - 1 ≡ i = omega arith in
      let total : (if i == 0 then 0 else 1) + huge_data i ≡ (if i + 1 == 0 then 0 else 1) =
        ground arith in
      let lines : progress i (up_to ((i - 1) / (1024 * 1024)))
          ≡ up_to ((i + 1 - 1) / (1024 * 1024)) =
        rw back (up_to-progress i) in
      rw (more, step, total, lines)
        (force_from_lem fuel n (i + 1) small (omega (arith, l)) (omega (arith, l)))
  | inr over ↦ let same : i ≡ n = omega (arith, ltb→le i n over) in rw (over, same) refl
]

one : (n : ℕ) → 0 < n → ◌≡◌ {A = ℕ} (if n == 0 then 0 else 1) 1
one n pos = ground arith

-- For an array of at least one byte and fewer than 2 ^ 64, the checksum is 1, and the progress
-- reported is 1 MB, 2 MB and so on, in order, up to the last whole megabyte strictly below the size
-- of the array; and the fuel is enough: with any more of it the loop has the same result.
pub force_load_all_pages_lem :
    (array_size : ℕ)
    → 0 < array_size
    → array_size < u64
    → (force_load_all_pages array_size ≡ (1, up_to ((array_size - 1) / (1024 * 1024))))
      × ((more : ℕ)
          → array_size + 1 ≤ more
          → force_from more array_size 0 0 [] ≡ force_load_all_pages array_size)
unfolding force_load_all_pages
force_load_all_pages_lem n pos small =
    let result = λ (fuel : ℕ) (h : n < fuel).
      force_from_lem fuel n 0 small (omega arith) (omega arith)
      ∙ ap (λ k. (k, up_to ((n - 1) / (1024 * 1024)))) (one n pos) in
    (
      result (n + 1) (omega arith),
      λ more k. result more (omega arith) ∙ sym (result (n + 1) (omega arith)),
    )

pub say_all : List Message → Action (Unit {0})
say_all [] = done
say_all (m ∷ rest) = do say m; say_all rest

-- main: the two waits, and what is printed around them. ensure_code_segment is an empty statement of
-- assembly.
pub code_segment_main : Os → Action (Unit {0})
unfolding force_load_all_pages
code_segment_main os = do
  say (value "数组第一个字节: " (huge_data 0))
  say (value "当前进程的 PID 是: " os.pid)
  ask os cin_get
  let (sum, megabytes) = force_load_all_pages (100 * 1024 * 1024)
  say_all (map (λ m. value "已加载 MB/100MB" m) megabytes)
  say (value "内存页加载完成，校验和: " sum)
  ask os cin_get
  done
