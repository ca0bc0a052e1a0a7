-- ===== src/Windows/Allocation/TempFile.antt =====
-- createTempFile: how much it writes, and what it leaves behind.
use memory_demo.Base.{
  ℕ, zero, suc, ◌+◌, ◌/◌, ◌%◌, ◌≡◌, ◌≢◌, refl, none, some, List, ◌∷◌, ltb, Option-cases, inl, inr,
  ◌⊎◌, Bool-cases,
}
use memory_demo.Base.Word.{u64}
use memory_demo.Os.{
  FileName, windows_temp, get_temp_file, create_file, close_file, write_file, file, Resource, Trace,
  did, Os, Machine, IsLawful, Owns, Owns-one, Owns-plain, Leaves, ignored,
}
use memory_demo.Windows.Allocation.{write_blocks_from, write_blocks, create_temp_file}

module _ {os : Os} (law : IsLawful os) {base : Trace} {xs : List Resource} where
  write_blocks_from-Owns :
      (f : FileName) (fuel n i : ℕ) (s : Machine)
      → Owns base xs s.trace
      → Leaves base xs (write_blocks_from os f fuel n i s)
  unfolding write_blocks_from
  write_blocks_from-Owns f zero n i s h = h
  write_blocks_from-Owns f (suc fuel) n i s h = elim (Bool-cases (ltb i n)) [
    | inl more ↦ rw more (
        write_blocks_from-Owns f fuel n ((i + 4096) % u64) _
          (ignored law (write_file f _) refl (λ v. refl) h))
    | inr over ↦ rw over h
  ]

  write_blocks-Owns :
      (f : FileName) (n : ℕ) (s : Machine)
      → Owns base xs s.trace
      → Leaves base xs (write_blocks os f n s)
  unfolding write_blocks
  write_blocks-Owns f n s h = write_blocks_from-Owns f (n / 4096 + 2) n 0 s h

module _ {os : Os} (law : IsLawful os) {base : Trace} {xs : List Resource} where
  -- Where the new file is named and can be opened, the caller owns it exactly if it is given its
  -- name.
  pub create_temp_file-Owns :
      (named : (t : Trace) → os.reply t get_temp_file ≢ none)
      (openable : (t : Trace) (f : FileName) → os.reply t (create_file f) ≢ none) (n : ℕ)
      (s : Machine)
      → Owns base xs s.trace
      → let (made, s') = create_temp_file os n s in
        ((made ≡ none) × Owns base xs s'.trace)
        ⊎ ((f : FileName) × (made ≡ some f) × Owns base (file f ∷ xs) s'.trace)
  unfolding create_temp_file
  create_temp_file-Owns named openable n s h =
      elim (Option-cases (os.reply s.trace get_temp_file)) [
        | inl q ↦ absurd (named _ q)
        | inr (k, q) ↦
            rw q
              (elim (Option-cases
                (os.reply (did get_temp_file (some k) ∷ s.trace) (create_file (windows_temp k)))) [
                  | inl r ↦ absurd (openable _ _ r)
                  | inr (v, r) ↦ rw r (
                      inr (
                        windows_temp k,
                        refl,
                        ignored law (close_file (windows_temp k)) refl (λ w. refl)
                            (write_blocks-Owns law (windows_temp k) n _ (
                              Owns-plain (create_file (windows_temp k)) v refl refl (
                                Owns-one get_temp_file k (file (windows_temp k)) refl refl
                                  (law.fresh s.trace get_temp_file k q) h))),
                      ))
                ])
      ]
