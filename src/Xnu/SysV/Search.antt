-- ===== src/Xnu/SysV/Search.antt =====
-- The search for a shared memory segment: the nested loops over sizes and flags.
use memory_demo.Base.{
  ℕ, ◌≤◌, ◌≡◌, refl, inl, inr, Option, none, some, List, [], ◌∷◌, ◌++◌, map, arith, Option-cases,
  All,
}
use memory_demo.Os.{
  shmget, error, value, shm_segment, Resource, Trace, segment_size, Os, Machine, Action, ◌>>=◌,
  ◌>>◌, pure, ask, say, on_reply, logged, IsLawful, Owns, Owns-said, Owns-one, Owns-failed,
}
use memory_demo.Xnu.SysV.{try_flags, try_sizes, flags_options, size_options}

-- All pairs of a size and a flag, in the order in which the loops come to them.
pub attempts : List ℕ → List (ℕ × ℕ)
attempts [] = []
attempts (n ∷ rest) = map (λ flags. (n, flags)) flags_options ++ attempts rest

-- One loop over the pairs, which ends at the first that is granted.
pub first_granted : Os → List (ℕ × ℕ) → Action (Option (ℕ × ℕ))
first_granted os [] = pure none
first_granted os ((n, flags) ∷ rest) = do
  shmid ← ask os (shmget n flags)
  on_reply shmid (say (error "失败: ") >> first_granted os rest)
      λ shmid. do say (value "成功创建共享内存" flags); pure (some (shmid, n))

inner_loop :
    (os : Os) (n : ℕ) (flags : List ℕ) (rest : List (ℕ × ℕ)) (sizes : List ℕ) (s : Machine)
    → ((z : Machine) → try_sizes os sizes z ≡ first_granted os rest z)
    → (try_flags os n flags >>= λ found.
          on_reply found (try_sizes os sizes) λ k. pure (some (k, n)))
        s
      ≡ first_granted os (map (λ f. (n, f)) flags ++ rest) s
unfolding try_flags first_granted
inner_loop os n [] rest sizes s ih = ih s
inner_loop os n (f ∷ flags) rest sizes s ih = elim (Option-cases (os.reply s.trace (shmget n f))) [
  | inl q ↦
      rw q (inner_loop os n flags rest sizes (say (error "失败: ") (logged (shmget n f) none s)).1 ih)
  | inr (k, q) ↦ rw q refl
]

-- The nested loops over sizes and flags, with the flag that ends the outer one, make the same calls
-- and have the same result as a single search for the first granted pair in the list of all pairs
-- of a size and a flag.
pub try_sizes-eq-first_granted :
    (os : Os) (sizes : List ℕ) (s : Machine)
    → try_sizes os sizes s ≡ first_granted os (attempts sizes) s
unfolding try_sizes first_granted attempts
try_sizes-eq-first_granted os [] s = refl
try_sizes-eq-first_granted os (n ∷ rest) s =
    inner_loop os n flags_options (attempts rest) rest s (try_sizes-eq-first_granted os rest)

-- What a search that began owning `xs` has ended with.
abbrev pub Found : Trace → List Resource → Option (ℕ × ℕ) × Machine → Type 0
Found base xs (none, s) = Owns base xs s.trace
Found base xs (some (k, n), s) =
    Owns base (shm_segment k ∷ xs) s.trace × (segment_size s.trace k ≡ n) × (4096 ≤ n) × (n ≤ 65536)

module _ {os : Os} (law : IsLawful os) {base : Trace} {xs : List Resource} where
  first_granted-Found :
      (pairs : List (ℕ × ℕ)) (s : Machine)
      → All (λ p. (4096 ≤ p.0) × (p.0 ≤ 65536)) pairs
      → Owns base xs s.trace
      → Found base xs (first_granted os pairs s)
  unfolding first_granted
  first_granted-Found [] s bounds h = h
  first_granted-Found ((n, f) ∷ rest) s bounds h =
      elim (Option-cases (os.reply s.trace (shmget n f))) [
        | inl q ↦ rw q (
            first_granted-Found rest _ bounds.1
              (Owns-said (error "失败: ") (Owns-failed (shmget n f) refl h)))
        | inr (k, q) ↦ rw q (
          Owns-said _ (
              Owns-one (shmget n f) k (shm_segment k) refl refl (law.fresh s.trace (shmget n f) k q)
                h),
          ground arith,
          bounds.0.0,
          bounds.0.1,
        )
      ]

  -- On an operating system that keeps the law, for sizes from 4096 to 65536 bytes: if the search
  -- finds a segment, the process owns it on top of what it owned, the size reported is the size the
  -- segment was made with, and it lies between 4 KB and 64 KB; if it finds none, the process owns
  -- what it owned.
  pub try_sizes-Found :
      (sizes : List ℕ) (s : Machine)
      → All (λ p. (4096 ≤ p.0) × (p.0 ≤ 65536)) (attempts sizes)
      → Owns base xs s.trace
      → Found base xs (try_sizes os sizes s)
  try_sizes-Found sizes s bounds h =
      rw (try_sizes-eq-first_granted os sizes s) (first_granted-Found (attempts sizes) s bounds h)

pub size_options_bounds : All (λ p. (4096 ≤ p.0) × (p.0 ≤ 65536)) (attempts size_options)
unfolding attempts
size_options_bounds = omega arith
