-- ===== src/Windows/Monitor/Accounting.antt =====
-- The figures that printProcessMemoryInfo prints.
use memory_demo.Base.{
  ℕ, ◌+◌, ◌-◌, ◌*◌, ◌/◌, ◌≤◌, ◌<◌, ◌≡◌, refl, Bool, true, false, List, [], ◌∷◌, arith, length,
}
use memory_demo.Base.Word.{u64, u32}
use memory_demo.Windows.Monitor.{
  Counters, count_pages, figures, working_set_info_size, information_bytes, block_bytes,
}

-- How many entries have the bit b.
abbrev pub count : Bool → List Bool → ℕ
count b [] = 0
count true (true ∷ rest) = 1 + count true rest
count true (false ∷ rest) = count true rest
count false (true ∷ rest) = count false rest
count false (false ∷ rest) = 1 + count false rest

count_pages_from :
    (entries : List Bool) (s p : ℕ)
    → count_pages entries (s, p) ≡ (s + count true entries, p + count false entries)
unfolding count_pages
count_pages_from [] s p = ground arith
count_pages_from (true ∷ rest) s p = ground (arith, count_pages_from rest (s + 1) p)
count_pages_from (false ∷ rest) s p = ground (arith, count_pages_from rest s (p + 1))

count-length : (entries : List Bool) → count true entries + count false entries ≡ length entries
count-length [] = refl
count-length (true ∷ rest) = omega (arith, count-length rest)
count-length (false ∷ rest) = omega (arith, count-length rest)

-- The loop over the working set counts the entries with the Shared bit as shared, those without it
-- as private, and every entry once.
pub count_pages_lem :
    (entries : List Bool)
    → let (shared_pages, private_pages) = count_pages entries (0, 0) in
      (shared_pages ≡ count true entries)
      × (private_pages ≡ count false entries)
      × (shared_pages + private_pages ≡ length entries)
count_pages_lem entries = ground (arith, count_pages_from entries 0 0, count-length entries)

-- Where the working set is below 2 ^ 64 bytes and its entries are no more than its pages: the
-- private working set printed is 4096 bytes for each entry without the Shared bit, the shared part
-- 4096 for each entry with it, the shareable working set is what the entries without the bit leave
-- of the working set, and the shared part is at most that.
pub figures_add_up :
    (c : Counters) (entries : List Bool)
    → c.working_set_size < u64
    → length entries * 4096 ≤ c.working_set_size
    → let f = figures c (count_pages entries (0, 0)) in
      (f.private_working_set ≡ count false entries * 4096)
      × (f.shared ≡ count true entries * 4096)
      × (f.shareable + count false entries * 4096 ≡ c.working_set_size)
      × (f.shared ≤ f.shareable)
unfolding figures
figures_add_up c entries small fit =
    let counted = count_pages_lem entries in omega (arith, counted.0, counted.1, counted.2)

-- Where the entries without the Shared bit take more bytes than the working set, and fewer than 2 ^
-- 64, the shareable working set printed has wrapped round: it is 2 ^ 64 less the excess.
pub figures_wrap :
    (c : Counters) (entries : List Bool)
    → c.working_set_size < count false entries * 4096
    → count false entries * 4096 < u64
    → (figures c (count_pages entries (0, 0))).shareable
      ≡ u64 - (count false entries * 4096 - c.working_set_size)
unfolding figures
figures_wrap c entries more fit = let counted = count_pages_lem entries in omega (arith, counted.1)

-- For a working set that is at least 2 MB below 2 TB, the buffer has exactly room for the header
-- and for 100 entries more than the working set has pages.
pub working_set_info_size_room :
    (working_set_size : ℕ)
    → working_set_size < 2 * 1024 * 1024 * 1024 * 1024 - 512 * 4096
    → working_set_info_size working_set_size
      ≡ information_bytes + (working_set_size / 4096 + 100) * block_bytes
unfolding working_set_info_size
working_set_info_size_room w h = omega arith

-- For a working set of at least 2 TB and below 3 TB, the size of the buffer has been cut to 32
-- bits: it is 2 ^ 32 less than the header and 100 entries more than the pages of the working set
-- take.
pub working_set_info_size_cut :
    (working_set_size : ℕ)
    → 2 * 1024 * 1024 * 1024 * 1024 ≤ working_set_size
    → working_set_size < 3 * 1024 * 1024 * 1024 * 1024
    → working_set_info_size working_set_size + u32
      ≡ information_bytes + (working_set_size / 4096 + 100) * block_bytes
unfolding working_set_info_size
working_set_info_size_cut w h k = omega arith
