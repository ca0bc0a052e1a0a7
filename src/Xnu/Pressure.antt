-- ===== src/Xnu/Pressure.antt =====
-- macos/process/xnu_footprint_demo.cpp: demo_memory_compression and demo_page_table, which hold many
-- blocks at once.
use memory_demo.Base.{
  ℕ, ◌+◌, ◌*◌, ◌/◌, ◌%◌, ◌<◌, ◌≡◌, refl, ap, [], ◌∷◌, arith, false, ◌==◌, if◌then◌else◌, length,
}
use memory_demo.Base.Word.{u64, mb_bytes}
use memory_demo.Os.{
  malloc, free, cin_get, sleep, error, value, heap, IsLegal, Os, Machine, Action, ◌>>=◌, ◌>>◌, done,
  ask, say, on_reply, undefined, fill, take_chunks, free_chunks, IsLawful, Owns-refl, Owns-said,
  Leaves, acquire, ignored, returned, fill-Owns, take_chunks-Owns, free_chunks-Owns, Keeps,
}
use memory_demo.Xnu.Memory.{print_memory_info, print_memory_info-Owns}

-- pressure_chunk, in megabytes
abbrev pub pressure_chunk : ℕ
pressure_chunk = 50

pub after_pressure : Os → ℕ → Action (Unit {0})
after_pressure os i = do say (value "已分配额外, 总计" ((i + 1) * pressure_chunk)); ask os (sleep 1); done

pub demo_memory_compression : Os → ℕ → Action (Unit {0})
demo_memory_compression os size_mb = do
  let size_bytes = mb_bytes size_mb
  buffer ← ask os (malloc size_bytes)
  on_reply buffer (say (error "内存分配失败!")) λ buffer. do
    fill buffer size_bytes b'Z'
    say (value "已分配并写入" size_mb)
    pressure_buffers ←
        take_chunks os (mb_bytes pressure_chunk) b'P' (after_pressure os)
          (λ i. say (error "无法分配更多内存，可能已触发压缩")) 10 0 []
    print_memory_info os
    ask os cin_get
    free_chunks os pressure_buffers
    ask os (free buffer)
    done

-- The blocks are counted before any is taken: a block size of 0 divides by zero.
pub demo_page_table : Os → ℕ → ℕ → Action (Unit {0})
demo_page_table os size_mb chunk_size_kb =
    let chunk_bytes = chunk_size_kb * 1024 % u64 in
    if chunk_bytes == 0 then undefined else do
      let num_chunks = mb_bytes size_mb / chunk_bytes
      say (value "分配不连续的内存块" num_chunks)
      memory_chunks ←
          take_chunks os chunk_bytes b'T' (λ i. done) (λ i. say (value "内存分配失败，已分配" i)) num_chunks 0
            []
      say (value "成功分配" (length memory_chunks))
      print_memory_info os
      ask os cin_get
      free_chunks os memory_chunks

module _ {os : Os} (law : IsLawful os) (s : Machine) (legal : IsLegal s.trace) where
  after_pressure-Keeps : (i : ℕ) → Keeps s.trace (after_pressure os i)
  unfolding after_pressure
  after_pressure-Keeps i zs z h =
      ignored law (sleep 1) refl (λ v. refl)
        (Owns-said (value "已分配额外, 总计" ((i + 1) * pressure_chunk)) h)

  -- On an operating system that keeps the law, from a legal trace, the process ends holding what it
  -- held: however many of the ten pressure blocks were granted, each of them and the compressible
  -- block is given back, and every byte written lies in a block held.
  pub demo_memory_compression-Owns :
      (size_mb : ℕ) → Leaves s.trace [] (demo_memory_compression os size_mb s)
  unfolding demo_memory_compression
  demo_memory_compression-Owns size_mb =
      acquire law (malloc n) s (λ p. heap p n) _ _ refl (λ v. refl) (Owns-refl s.trace legal)
        (λ h. Owns-said _ h)
        λ p q h.
          let h1 = fill-Owns (heap p n) p n b'Z' _ refl (omega arith) h in
          let h2 =
            take_chunks-Owns law (heap p n ∷ []) (mb_bytes pressure_chunk) b'P' (after_pressure os)
              (λ i. say (error "无法分配更多内存，可能已触发压缩")) after_pressure-Keeps (λ i zs z k. Owns-said _ k)
              10 0 [] _ (Owns-said (value "已分配并写入" size_mb) h1) in
          let h3 = ignored law cin_get refl (λ v. refl) (print_memory_info-Owns law _ h2) in
          let h4 = free_chunks-Owns law (heap p n ∷ []) (mb_bytes pressure_chunk) _ _ h3 in
          returned law (free p) (heap p n) (ap (λ k. heap p k ∷ []) (h4.fits.0 p refl)) (λ v. refl)
            h4
    where
      n : ℕ
      n = mb_bytes size_mb

  -- On an operating system that keeps the law, from a legal trace, for a block size that is not 0
  -- modulo 2 ^ 64, the process ends holding what it held: each block granted before the first
  -- refusal is given back, every byte written lies in a block held, and nothing is divided by zero.
  pub demo_page_table-Owns :
      (size_mb chunk_size_kb : ℕ)
      → 0 < chunk_size_kb * 1024 % u64
      → Leaves s.trace [] (demo_page_table os size_mb chunk_size_kb s)
  unfolding demo_page_table
  demo_page_table-Owns size_mb chunk_size_kb positive = rw nonzero (
      let h1 =
        take_chunks-Owns law [] chunk b'T' (λ i. done) (λ i. say (value "内存分配失败，已分配" i))
          (λ i zs z k. k) (λ i zs z k. Owns-said _ k) (mb_bytes size_mb / chunk) 0 [] _
          (Owns-said (value "分配不连续的内存块" (mb_bytes size_mb / chunk)) (Owns-refl s.trace legal)) in
      let h2 = print_memory_info-Owns law _ (Owns-said (value "成功分配" _) h1) in
      free_chunks-Owns law [] chunk _ _ (ignored law cin_get refl (λ v. refl) h2))
    where
      chunk : ℕ
      chunk = chunk_size_kb * 1024 % u64

      nonzero : (chunk_size_kb * 1024 % u64 == 0) ≡ false
      nonzero = ground arith
