-- ===== src/MemoryInfo/Walk.antt =====
-- A walk over the regions of a task, against the list of its regions.
use memory_demo.Base.{
  ℕ, zero, suc, ◌+◌, ◌%◌, ◌≤◌, ◌<◌, ◌≡◌, ◌≢◌, refl, Option, none, some, List, [], ◌∷◌, arith,
  length, Option-cases, inl, inr,
}
use memory_demo.Base.Word.{u64}
use memory_demo.MemoryInfo.{Region, Kernel, next_region, next_within, walk}

-- From the place `a` on the kernel reports the regions `rs`, and none from `b` on.
abbrev pub Lists : {C : Type 0} → (C → Option (Region × C)) → C → List Region → C → Type 0
Lists next a [] b = (next a ≡ none) × (b ≡ a)
Lists {C} next a (r ∷ rs) b = (c : C) × (next a ≡ some (r, c)) × Lists next c rs b

-- A region found ends behind the address asked for, within 64 bits.
abbrev pub IsBehind : ℕ → Region → Type 0
IsBehind a r = (a < r.start + r.bytes) × (r.start + r.bytes < u64)

-- What vm_region_64 and mach_vm_region_recurse document.
abbrev pub IsRegionMap : Kernel → Type 0
IsRegionMap k =
    ((a : ℕ) (r : Region) → k.region_at a ≡ some r → IsBehind a r)
    × ((a depth : ℕ) (r : Region) (d : ℕ) → k.region_within a depth ≡ some (r, d) → IsBehind a r)

abbrev pub fold_rounds : {S : Type 0} → (Region → S → S) → S → List Region → S
fold_rounds round s [] = s
fold_rounds round s (r ∷ rs) = fold_rounds round (round r s) rs

module _ {C : Type 0} (next : C → Option (Region × C)) where
  -- With more fuel than there are regions from the place a on, a walk ends by finding no further
  -- region: it has applied its round to each of the regions once, in order, and ends at the place
  -- behind the last.
  pub walk_folds :
      {S : Type 0} (round : Region → S → S) (rs : List Region) (fuel : ℕ) (a b : C) (s : S)
      → Lists next a rs b
      → length rs < fuel
      → walk next round fuel a s ≡ some (fold_rounds round s rs, b)
  unfolding walk
  walk_folds round rs zero a b s h e = absurd (omega arith)
  walk_folds round [] (suc fuel) a b s h e = ground arith
  walk_folds round (r ∷ rs) (suc fuel) a b s (c, q, l) e =
      rw (q, walk) (walk_folds round rs fuel c b (round r s) l (omega arith))

  -- The place at which a walk ended has no region behind it.
  pub Lists-end : (rs : List Region) (a b : C) → Lists next a rs b → next b ≡ none
  Lists-end [] a b h = ground arith
  Lists-end (r ∷ rs) a b (c, q, l) = Lists-end rs c b l

  module _ (address : C → ℕ)
      (ascends : (a c : C) (r : Region)
        → next a ≡ some (r, c)
        → (address a < address c) × (address c < u64)) where
    regions_from :
        (room : ℕ) (a : C)
        → u64 ≤ address a + room
        → (rs : List Region) × (b : C) × Lists next a rs b × (length rs ≤ room)
    regions_from zero a h = elim (Option-cases (next a)) [
      | inl q ↦ ([], a, (q, refl), omega arith)
      | inr ((r, c), q) ↦ absurd (omega (arith, ascends a c r q))
    ]
    regions_from (suc room) a h = elim (Option-cases (next a)) [
      | inl q ↦ ([], a, (q, refl), omega arith)
      | inr ((r, c), q) ↦
          let (rs, b, l, n) = regions_from room c (omega (arith, ascends a c r q)) in
          (r ∷ rs, b, (c, q, l), omega arith)
    ]

    -- A walk that ascends ends within as many rounds as there are addresses.
    ascent_ends :
        {S : Type 0} (round : Region → S → S) (fuel : ℕ) (a : C) (s : S)
        → u64 < fuel
        → walk next round fuel a s ≢ none
    ascent_ends round fuel a s enough e =
        let (rs, b, l, n) = regions_from u64 a (omega arith) in
        let q = walk_folds round rs fuel a b s l (omega arith) in cc

next_region-ascends :
    (k : Kernel) (a c : ℕ) (r : Region)
    → IsRegionMap k
    → next_region k a ≡ some (r, c)
    → (a < c) × (c < u64)
unfolding next_region
next_region-ascends k a c r map e = elim (Option-cases (k.region_at a)) [
  | inl q ↦ absurd (cc)
  | inr (found, q) ↦
      let at : (found.start + found.bytes) % u64 ≡ c = cc in omega (arith, map.0 a found q)
]

next_within-ascends :
    (k : Kernel) (a c : ℕ × ℕ) (r : Region)
    → IsRegionMap k
    → next_within k a ≡ some (r, c)
    → (a.0 < c.0) × (c.0 < u64)
unfolding next_within
next_within-ascends k (a, depth) c r map e = elim (Option-cases (k.region_within a depth)) [
  | inl q ↦ absurd (cc)
  | inr ((found, deeper), q) ↦
      let at : (found.start + found.bytes) % u64 ≡ c.0 = cc in
      omega (arith, map.1 a depth found deeper q)
]

-- Where every region found ends behind the address asked for and below 2 ^ 64, both walks, from
-- address 0 with more than 2 ^ 64 units of fuel, end by themselves, whatever they do with each
-- region and whatever depths are handed back.
pub walk_ends :
    {S : Type 0} (k : Kernel) (round : Region → S → S) (fuel depth : ℕ) (s : S)
    → IsRegionMap k
    → u64 < fuel
    → (walk (next_region k) round fuel 0 s ≢ none)
      × (walk (next_within k) round fuel (0, depth) s ≢ none)
walk_ends k round fuel depth s map enough = (
  ascent_ends (next_region k) (λ a. a) (λ a c r q. next_region-ascends k a c r map q) round fuel 0 s
      enough,
  ascent_ends (next_within k) (λ a. a.0) (λ a c r q. next_within-ascends k a c r map q) round fuel
      (0, depth) s enough,
)
