-- ===== src/Os/TempFile.antt =====
-- create_temp_file and cleanup_temp_file, which macos/process/xnu_footprint_demo.cpp and
-- macos/process/file_mapping_dirty_demo.cpp write out alike; they differ in the name of the file.
use memory_demo.Base.{
  ℕ, zero, suc, ◌+◌, ◌*◌, ◌≡◌, refl, ◌⊎◌, Option, none, some, List, [], ◌∷◌, arith, Option-cases,
  inl, inr,
}
use memory_demo.Os.Vocabulary.{
  FileName, Resource, file, create_file, close_file, write_file, remove_file, error, value,
}
use memory_demo.Os.Ledger.{Trace, did, loose_file}
use memory_demo.Os.Process.{
  Os, Machine, Action, ◌>>=◌, ◌>>◌, pure, done, ask, say, on_reply, logged,
}
use memory_demo.Os.Law.{IsLawful}
use memory_demo.Os.Ownership.{Owns, Owns-said, Owns-failed, Owns-one}
use memory_demo.Os.Rules.{Leaves, ignored, release}

-- chunk_size: one megabyte
abbrev pub chunk_size : ℕ
chunk_size = 1024 * 1024

-- The loop that fills the file; what a write answers is not looked at.
pub write_chunks : Os → FileName → ℕ → Action (Unit {0})
write_chunks os f zero = done
write_chunks os f (suc rounds) = do ask os (write_file f chunk_size); write_chunks os f rounds

-- `none` is the empty file name.
pub create_temp_file : Os → FileName → ℕ → Action (Option FileName)
create_temp_file os f size_mb = do
  opened ← ask os (create_file f)
  on_reply opened (say (error "无法创建临时文件: ") >> pure none) λ _. do
    write_chunks os f size_mb
    ask os (close_file f)
    say (value "创建了临时文件" size_mb)
    pure (some f)

pub cleanup_temp_file : Os → Option FileName → Action (Unit {0})
cleanup_temp_file os none = done
cleanup_temp_file os (some f) = do
  removed ← ask os (remove_file f)
  on_reply removed (say (error "无法删除临时文件: ")) λ _. say (value "已删除临时文件" 0)

-- The bytes that the process has asked to be written to files, whatever the system answered.
abbrev pub bytes_submitted : Trace → ℕ
bytes_submitted [] = 0
bytes_submitted (did (write_file f n) o ∷ t) = n + bytes_submitted t
bytes_submitted (_ ∷ t) = bytes_submitted t

write_chunks_bytes :
    (os : Os) (f : FileName) (rounds : ℕ) (s : Machine)
    → bytes_submitted (write_chunks os f rounds s).1.trace
      ≡ rounds * chunk_size + bytes_submitted s.trace
unfolding write_chunks
write_chunks_bytes os f zero s = omega arith
write_chunks_bytes os f (suc rounds) s =
    omega (arith, write_chunks_bytes os f rounds (ask os (write_file f chunk_size) s).1)

-- Where the file can be opened, its name is returned and size_mb megabytes have been asked to be
-- written; where it cannot, no name is returned and nothing has been asked to be written.
pub create_temp_file_bytes :
    (os : Os) (f : FileName) (size_mb : ℕ) (s : Machine)
    → let (made, s') = create_temp_file os f size_mb s in
      ((v : ℕ) × (os.reply s.trace (create_file f) ≡ some v)
        × (made ≡ some f)
        × (bytes_submitted s'.trace ≡ size_mb * chunk_size + bytes_submitted s.trace))
      ⊎ ((os.reply s.trace (create_file f) ≡ none)
          × (made ≡ none)
          × (bytes_submitted s'.trace ≡ bytes_submitted s.trace))
unfolding create_temp_file
create_temp_file_bytes os f size_mb s = elim (Option-cases (os.reply s.trace (create_file f))) [
  | inl q ↦ rw q (inr (refl, refl, refl))
  | inr (v, q) ↦
      rw q
        (inl (v, refl, refl, write_chunks_bytes os f size_mb (logged (create_file f) (some v) s)))
]

module _ {os : Os} (law : IsLawful os) {base : Trace} where
  write_chunks-Owns :
      {xs : List Resource} (f : FileName) (rounds : ℕ) (s : Machine)
      → Owns base xs s.trace
      → Leaves base xs (write_chunks os f rounds s)
  unfolding write_chunks
  write_chunks-Owns f zero s h = h
  write_chunks-Owns f (suc rounds) s h =
      write_chunks-Owns f rounds (ask os (write_file f chunk_size) s).1
        (ignored law (write_file f chunk_size) refl (λ v. refl) h)

  -- The caller owns the file exactly if it is given its name.
  pub create_temp_file-Owns :
      {xs : List Resource} (f : FileName) (size_mb : ℕ) (s : Machine)
      → loose_file f ≡ file f ∷ []
      → Owns base xs s.trace
      → let (made, s') = create_temp_file os f size_mb s in
        ((made ≡ none) × Owns base xs s'.trace)
        ⊎ ((made ≡ some f) × Owns base (file f ∷ xs) s'.trace)
  unfolding create_temp_file
  create_temp_file-Owns f size_mb s loose h =
      elim (Option-cases (os.reply s.trace (create_file f))) [
        | inl q ↦ rw q (inl (refl, Owns-said _ (Owns-failed (create_file f) refl h)))
        | inr (v, q) ↦ rw q (
            inr (
              refl,
              Owns-said _ (
                  ignored law (close_file f) refl (λ w. refl)
                    (write_chunks-Owns f size_mb (logged (create_file f) (some v) s) (
                      Owns-one (create_file f) v (file f) refl loose
                        (law.fresh s.trace (create_file f) v q) h))),
            ))
      ]

  pub cleanup_temp_file-Owns :
      {xs : List Resource} (f : FileName) (s : Machine)
      → Owns base (file f ∷ xs) s.trace
      → Leaves base xs (cleanup_temp_file os (some f) s)
  unfolding cleanup_temp_file
  cleanup_temp_file-Owns f s h =
      release law (remove_file f) s (file f) _ _ refl (λ v. refl) h (λ v k. Owns-said _ k)
