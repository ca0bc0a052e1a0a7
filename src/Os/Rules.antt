-- ===== src/Os/Rules.antt =====
-- One rule for each way in which the programs go on after a call, on what they then own.
use memory_demo.Base.{ℕ, ◌≡◌, none, some, List, [], ◌∷◌, Option-cases, inl, inr, ◌≢◌, sym, ◌∙◌}
use memory_demo.Os.Vocabulary.{Resource, Call}
use memory_demo.Os.Ledger.{Trace, did, grants, gives_back, Completes}
use memory_demo.Os.Process.{Os, Machine, Action, logged, on_reply}
use memory_demo.Os.Law.{IsLawful}
use memory_demo.Os.Ownership.{Owns, Owns-failed, Owns-one, Owns-plain, Owns-given, Owns-held}

-- What the action leaves owned: it ends with `ys`.
abbrev pub Leaves : {A : Type 0} → Trace → List Resource → A × Machine → Type 0
Leaves base ys r = Owns base ys r.1.trace

cons_ne_nil : {x : Resource} {xs : List Resource} → x ∷ xs ≢ []
cons_ne_nil e = cc

module _ {os : Os} (law : IsLawful os) {base : Trace} {xs : List Resource} {t : Trace} where
  -- Giving back what is held is not refused.
  refused :
      (c : Call) (x : Resource)
      → gives_back t c ≡ x ∷ []
      → Owns base (x ∷ xs) t
      → os.reply t c ≢ none
  refused c x e h = law.gives t c (λ z. cons_ne_nil (sym e ∙ z)) (rw e ((Owns-held h).0, tt))

  finished :
      (c : Call) (x : Resource) (v : ℕ)
      → gives_back t c ≡ x ∷ []
      → Owns base (x ∷ xs) t
      → os.reply t c ≡ some v
      → Completes c v
  finished c x v e h =
      law.completes t c v (λ z. cons_ne_nil (sym e ∙ z)) (rw e ((Owns-held h).0, tt))

  -- A call whose reply is not used, and which hands out and gives back nothing.
  pub ignored :
      (c : Call)
      → gives_back t c ≡ []
      → ((v : ℕ) → grants t c v ≡ [])
      → Owns base xs t
      → Owns base xs (did c (os.reply t c) ∷ t)
  ignored c e n h = elim (Option-cases (os.reply t c)) [
    | inl q ↦ rw q (Owns-failed c e h)
    | inr (v, q) ↦ rw q (Owns-plain c v e (n v) h)
  ]

  -- A call whose reply is not used, and which gives back what was handed out last.
  pub returned :
      (c : Call) (x : Resource)
      → gives_back t c ≡ x ∷ []
      → ((v : ℕ) → grants t c v ≡ [])
      → Owns base (x ∷ xs) t
      → Owns base xs (did c (os.reply t c) ∷ t)
  returned c x e n h = elim (Option-cases (os.reply t c)) [
    | inl q ↦ absurd (refused c x e h q)
    | inr (v, q) ↦ rw q (Owns-given c v x e (n v) (finished c x v e h q) h)
  ]

module _ {os : Os} (law : IsLawful os) {A : Type 0} {base : Trace} {xs : List Resource}
    (P : A × Machine → Type 0) where
  -- `r = call(); if (r failed) ... else ...`, where the call hands out `g`, for any statement on how
  -- the action ends.
  pub acquire_any :
      (c : Call) (s : Machine) (g : ℕ → Resource) (failed : Action A) (ready : ℕ → Action A)
      → gives_back s.trace c ≡ []
      → ((v : ℕ) → grants s.trace c v ≡ g v ∷ [])
      → Owns base xs s.trace
      → (Owns base xs (logged c none s).trace → P (failed (logged c none s)))
      → ((v : ℕ)
          → os.reply s.trace c ≡ some v
          → Owns base (g v ∷ xs) (logged c (some v) s).trace
          → P (ready v (logged c (some v) s)))
      → P (on_reply (os.reply s.trace c) failed ready (logged c (os.reply s.trace c) s))
  acquire_any c s g failed ready e one h bad good = elim (Option-cases (os.reply s.trace c)) [
    | inl q ↦ rw q (bad (Owns-failed c e h))
    | inr (v, q) ↦ rw q (good v q (Owns-one c v (g v) e (one v) (law.fresh s.trace c v q) h))
  ]

  -- The same for a call that hands out nothing.
  pub consult_any :
      (c : Call) (s : Machine) (failed : Action A) (ready : ℕ → Action A)
      → gives_back s.trace c ≡ []
      → ((v : ℕ) → grants s.trace c v ≡ [])
      → Owns base xs s.trace
      → (Owns base xs (logged c none s).trace → P (failed (logged c none s)))
      → ((v : ℕ) → Owns base xs (logged c (some v) s).trace → P (ready v (logged c (some v) s)))
      → P (on_reply (os.reply s.trace c) failed ready (logged c (os.reply s.trace c) s))
  consult_any c s failed ready e n h bad good = elim (Option-cases (os.reply s.trace c)) [
    | inl q ↦ rw q (bad (Owns-failed c e h))
    | inr (v, q) ↦ rw q (good v (Owns-plain c v e (n v) h))
  ]

module _ {os : Os} (law : IsLawful os) {A : Type 0} {base : Trace} {xs ys : List Resource} where
  pub acquire :
      (c : Call) (s : Machine) (g : ℕ → Resource) (failed : Action A) (ready : ℕ → Action A)
      → gives_back s.trace c ≡ []
      → ((v : ℕ) → grants s.trace c v ≡ g v ∷ [])
      → Owns base xs s.trace
      → (Owns base xs (logged c none s).trace → Leaves base ys (failed (logged c none s)))
      → ((v : ℕ)
          → os.reply s.trace c ≡ some v
          → Owns base (g v ∷ xs) (logged c (some v) s).trace
          → Leaves base ys (ready v (logged c (some v) s)))
      → Leaves base ys
          (on_reply (os.reply s.trace c) failed ready (logged c (os.reply s.trace c) s))
  acquire = acquire_any law (Leaves base ys)

  pub consult :
      (c : Call) (s : Machine) (failed : Action A) (ready : ℕ → Action A)
      → gives_back s.trace c ≡ []
      → ((v : ℕ) → grants s.trace c v ≡ [])
      → Owns base xs s.trace
      → (Owns base xs (logged c none s).trace → Leaves base ys (failed (logged c none s)))
      → ((v : ℕ)
          → Owns base xs (logged c (some v) s).trace
          → Leaves base ys (ready v (logged c (some v) s)))
      → Leaves base ys
          (on_reply (os.reply s.trace c) failed ready (logged c (os.reply s.trace c) s))
  consult = consult_any law (Leaves base ys)

  -- A call that gives back what was handed out last. It succeeds.
  pub release :
      (c : Call) (s : Machine) (x : Resource) (failed : Action A) (ready : ℕ → Action A)
      → gives_back s.trace c ≡ x ∷ []
      → ((v : ℕ) → grants s.trace c v ≡ [])
      → Owns base (x ∷ xs) s.trace
      → ((v : ℕ)
          → Owns base xs (logged c (some v) s).trace
          → Leaves base ys (ready v (logged c (some v) s)))
      → Leaves base ys
          (on_reply (os.reply s.trace c) failed ready (logged c (os.reply s.trace c) s))
  release c s x failed ready e n h go = elim (Option-cases (os.reply s.trace c)) [
    | inl q ↦ absurd (refused law c x e h q)
    | inr (v, q) ↦ rw q (go v (Owns-given c v x e (n v) (finished law c x v e h q) h))
  ]
