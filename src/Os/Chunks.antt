-- ===== src/Os/Chunks.antt =====
-- Several blocks of one size, kept in a vector: the loop that takes them and the loop that frees
-- them.
use memory_demo.Base.{
  ℕ, zero, suc, ◌+◌, ◌≡◌, refl, ap, List, [], ◌∷◌, ◌++◌, map, arith, All, Option-cases, inl, inr,
}
use memory_demo.Os.Vocabulary.{Resource, heap, malloc, free}
use memory_demo.Os.Ledger.{Trace, bag}
use memory_demo.Os.Process.{Os, Machine, Action, ◌>>=◌, ◌>>◌, pure, done, ask, on_reply}
use memory_demo.Os.Law.{IsLawful}
use memory_demo.Os.Ownership.{Owns, Fits, Owns-failed, Owns-one}
use memory_demo.Os.Rules.{Leaves, returned}
use memory_demo.Os.Pages.{touch, touch-Owns}

-- `for (i ...) { p = malloc(n); if (p) { touch; push_back(p); ... } else { ...; break; } }`: `taken`
-- are the blocks so far, `after` follows a success, `failed` a failure.
pub take_chunks :
    Os → (n v : ℕ) → (after failed : ℕ → Action (Unit {0})) → ℕ → ℕ → List ℕ → Action (List ℕ)
take_chunks os n v after failed zero i taken = pure taken
take_chunks os n v after failed (suc rounds) i taken = do
  chunk ← ask os (malloc n)
  on_reply chunk (failed i >> pure taken)
      λ p. do touch p n v; after i; take_chunks os n v after failed rounds (i + 1) (taken ++ p ∷ [])

pub free_chunks : Os → List ℕ → Action (Unit {0})
free_chunks os [] = done
free_chunks os (p ∷ ps) = do ask os (free p); free_chunks os ps

abbrev pub blocks : ℕ → List ℕ → List Resource
blocks n = map (λ p. heap p n)

bag-push_back :
    (n p : ℕ) (taken : List ℕ) (xs : List Resource) (r : Resource)
    → bag (blocks n (taken ++ p ∷ []) ++ xs) r ≡ bag (heap p n ∷ blocks n taken ++ xs) r
bag-push_back n p [] xs r = refl
bag-push_back n p (q ∷ taken) xs r = omega (arith, bag-push_back n p taken xs r)

Fits-push_back :
    (n p : ℕ) (taken : List ℕ) (xs : List Resource) (t : Trace)
    → Fits t (heap p n)
    → All (Fits t) (blocks n taken ++ xs)
    → All (Fits t) (blocks n (taken ++ p ∷ []) ++ xs)
Fits-push_back n p [] xs t h k = (h, k)
Fits-push_back n p (q ∷ taken) xs t h k = (k.0, Fits-push_back n p taken xs t h k.1)

-- The order in which blocks are kept does not matter.
Owns-push_back :
    {base t : Trace} (xs : List Resource) (n p : ℕ) (taken : List ℕ)
    → Owns base (heap p n ∷ blocks n taken ++ xs) t
    → Owns base (blocks n (taken ++ p ∷ []) ++ xs) t
Owns-push_back {t = t} xs n p taken h = record {
  legal = h.legal;
  balance = λ r. omega (arith, h.balance r, bag-push_back n p taken xs r);
  fits = Fits-push_back n p taken xs t h.fits.0 h.fits.1;
}

-- An action that leaves every ownership as it is.
abbrev pub Keeps : {A : Type 0} → Trace → Action A → Type 0
Keeps base m = (zs : List Resource) (s : Machine) → Owns base zs s.trace → Leaves base zs (m s)

module _ {os : Os} (law : IsLawful os) {base : Trace} (xs : List Resource) where
  pub free_chunks-Owns :
      (n : ℕ) (ps : List ℕ) (s : Machine)
      → Owns base (blocks n ps ++ xs) s.trace
      → Leaves base xs (free_chunks os ps s)
  unfolding free_chunks
  free_chunks-Owns n [] s h = h
  free_chunks-Owns n (p ∷ ps) s h =
      free_chunks-Owns n ps (ask os (free p) s).1
        (returned law (free p) (heap p n) (ap (λ k. heap p k ∷ []) (h.fits.0 p refl)) (λ v. refl) h)

  pub take_chunks-Owns :
      (n v : ℕ) (after failed : ℕ → Action (Unit {0}))
      → ((i : ℕ) → Keeps base (after i))
      → ((i : ℕ) → Keeps base (failed i))
      → (rounds i : ℕ) (taken : List ℕ) (s : Machine) → Owns base (blocks n taken ++ xs) s.trace
      → let r = take_chunks os n v after failed rounds i taken s in
        Owns base (blocks n r.0 ++ xs) r.1.trace
  unfolding take_chunks
  take_chunks-Owns n v after failed ka kf zero i taken s h = h
  take_chunks-Owns n v after failed ka kf (suc rounds) i taken s h =
      elim (Option-cases (os.reply s.trace (malloc n))) [
        | inl q ↦ rw q (kf i _ _ (Owns-failed (malloc n) refl h))
        | inr (p, q) ↦ rw q (
            take_chunks-Owns n v after failed ka kf rounds (i + 1) (taken ++ p ∷ []) _ (
              Owns-push_back xs n p taken (
                ka i _ _ (
                  touch-Owns (heap p n) p n v _ refl (omega arith) (
                    Owns-one (malloc n) p (heap p n) refl refl (law.fresh s.trace (malloc n) p q)
                      h)))))
      ]
