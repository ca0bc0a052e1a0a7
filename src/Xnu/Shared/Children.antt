-- ===== src/Xnu/Shared/Children.antt =====
-- The child processes of demo_anonymous_shared_memory and demo_shared_memory.
use memory_demo.Base.{ℕ, refl, some, List, ◌∷◌, All, arith, Option-cases, inl, inr}
use memory_demo.Base.Word.{mb_bytes}
use memory_demo.Os.{
  FileName, shm_name, mmap, shared_file, shared_anonymous, shm_open, ftruncate, mapping, fd,
  shm_object, Resource, Trace, IsLegal, Os, Machine, done, logged, IsLawful, Owns, Owns-said,
  Owns-granted, acquire_any, consult_any,
}
use memory_demo.Xnu.Sharing.Children.{write_and_share-children}
use memory_demo.Xnu.Shared.{
  demo_anonymous_shared_memory, demo_shared_memory, map_shared_object, mapped_pos,
}

module _ {os : Os} (law : IsLawful os) {base : Trace} {xs : List Resource} where
  pub demo_anonymous_shared_memory-children :
      (size_mb : ℕ) (s : Machine)
      → Owns base xs s.trace
      → All IsLegal s.children
      → All IsLegal (demo_anonymous_shared_memory os size_mb s).1.children
  unfolding demo_anonymous_shared_memory
  demo_anonymous_shared_memory-children size_mb s h all =
      acquire_any law (λ r. All IsLegal r.1.children) (mmap shared_anonymous n) s (λ p. mapping p n)
        _ _ refl (λ v. refl) h (λ k. all)
        λ p q k.
          write_and_share-children law {ys = mapping p n ∷ xs} (mapping p n) p n b'A' b'B' done _
            refl (mapped_pos law s.trace shared_anonymous n p q) (omega arith) (λ z j. j)
            (Owns-said _ k) all
    where
      n : ℕ
      n = mb_bytes size_mb

module _ {os : Os} (law : IsLawful os) {base : Trace} {xs : List Resource} where
  map_shared_object-children :
      (d size_mb : ℕ) (s : Machine)
      → Owns base (fd d ∷ shm_object (shm_name os.pid) ∷ xs) s.trace
      → All IsLegal s.children
      → All IsLegal (map_shared_object os d size_mb s).1.children
  unfolding map_shared_object
  map_shared_object-children d size_mb s h all =
      consult_any law (λ r. All IsLegal r.1.children) (ftruncate d n) s _ _ refl (λ v. refl) h
        (λ k. all)
        λ v k.
          acquire_any law (λ r. All IsLegal r.1.children) (mmap (shared_file d) n) _
            (λ p. mapping p n) _ _ refl (λ w. refl) k (λ j. all)
            λ p q j.
              write_and_share-children law
                {ys = mapping p n ∷ fd d ∷ shm_object (shm_name os.pid) ∷ xs} (mapping p n) p n b'S'
                b'C' done _ refl (mapped_pos law _ (shared_file d) n p q) (omega arith) (λ z i. i)
                (Owns-said _ j) all
    where
      n : ℕ
      n = mb_bytes size_mb

  pub demo_shared_memory-children :
      (size_mb : ℕ) (s : Machine)
      → Owns base xs s.trace
      → All IsLegal s.children
      → All IsLegal (demo_shared_memory os size_mb s).1.children
  unfolding demo_shared_memory
  demo_shared_memory-children size_mb s h all =
      elim (Option-cases (os.reply s.trace (shm_open name))) [
        | inl q ↦ rw q all
        | inr (d, q) ↦ rw q (
            map_shared_object-children d size_mb (logged (shm_open name) (some d) s)
              (Owns-granted (shm_open name) d refl (law.fresh s.trace (shm_open name) d q)
                (λ p e. cc, (λ p e. cc, tt)) h)
              all)
      ]
    where
      name : FileName
      name = shm_name os.pid
