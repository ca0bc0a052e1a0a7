-- ===== src/Os/Ownership.antt =====
-- What a process holds on top of what it began with, and how each kind of event changes that.
use memory_demo.Base.{
  ℕ, ◌+◌, ◌≤◌, ◌<◌, ◌≡◌, ◌≢◌, refl, none, some, List, [], ◌∷◌, ◌++◌, All, arith, Option-cases, inl,
  inr, subst, sym, ap, Option, ◌-◌, ◌∙◌,
}
use memory_demo.Os.Vocabulary.{Resource, Call, Message, FileName, file, remove_file}
use native.Mathlib.Decide.{dec_lt}
use memory_demo.Os.Ledger.{
  Trace, did, poke, peek, said, indicator, indicator-pos, indicator_self, bag, address, size,
  gone-nil, gone-Completes, Completes, grants, gives_back, All-needs, granted_at, extent, held,
  IsCovered, IsLegal,
}
use memory_demo.Os.Law.{IsFresh}

-- The last size handed out at the address of `r` is the size of `r`.
abbrev pub Fits : Trace → Resource → Type 0
Fits t r = (p : ℕ) → address r ≡ some p → extent t p ≡ size r

-- The process kept the rules, and holds what it held at `base` and the resources `xs`.
pub record Owns (base : Trace) (xs : List Resource) (now : Trace) : Type 0 where
  pub legal : IsLegal now
  pub balance : (r : Resource) → held now r ≡ held base r + bag xs r
  pub fits : All (Fits now) xs

pub Owns-refl : (t : Trace) → IsLegal t → Owns t [] t
Owns-refl t h = record { legal = h; balance = λ r. omega arith; fits = tt }

module _ {base : Trace} {xs : List Resource} {t : Trace} where
  pub Owns-said : (m : Message) → Owns base xs t → Owns base xs (said m ∷ t)
  Owns-said m h = record { legal = h.legal; balance = h.balance; fits = h.fits }

  pub Owns-failed :
      (c : Call) → gives_back t c ≡ [] → Owns base xs t → Owns base xs (did c none ∷ t)
  Owns-failed c e h = record {
    legal = (All-needs (λ r. 0 < held t r) t c (rw e tt), h.legal);
    balance = h.balance;
    fits = h.fits;
  }

  pub Owns-poke : (a v : ℕ) → IsCovered t a → Owns base xs t → Owns base xs (poke a v ∷ t)
  Owns-poke a v k h = record { legal = (k, h.legal); balance = h.balance; fits = h.fits }

  pub Owns-peek : (a v : ℕ) → IsCovered t a → Owns base xs t → Owns base xs (peek a v ∷ t)
  Owns-peek a v k h = record { legal = (k, h.legal); balance = h.balance; fits = h.fits }

pub bag-append : (xs ys : List Resource) (r : Resource) → bag (xs ++ ys) r ≡ bag xs r + bag ys r
bag-append [] ys r = omega arith
bag-append (x ∷ xs) ys r = omega (arith, bag-append xs ys r)

-- A process holds each resource that it owns.
All-held :
    (t : Trace) (xs : List Resource)
    → ((r : Resource) → bag xs r ≤ held t r)
    → All (λ r. 0 < held t r) xs
All-held t [] h = tt
All-held t (x ∷ xs) h =
    (omega (arith, h x, indicator_self x), All-held t xs (λ r. omega (arith, h r)))

pub Owns-held :
    {base : Trace} {xs : List Resource} {t : Trace} → Owns base xs t → All (λ r. 0 < held t r) xs
Owns-held {xs = xs} {t = t} h = All-held t xs (λ r. omega (arith, h.balance r))

-- An address at which nothing new lies keeps its extent.
granted_at_skip :
    (gs : List Resource) (p n : ℕ)
    → All (λ g. (q : ℕ) → address g ≡ some q → q ≢ p) gs
    → granted_at gs p n ≡ n
granted_at_skip [] p n h = refl
granted_at_skip (g ∷ gs) p n h = elim (Option-cases (address g)) [
  | inl e ↦ rw (e, granted_at) refl
  | inr (q, e) ↦ rw (e, granted_at) (ground (arith, h.0 q e))
]

-- Fresh memory lies away from every resource that is held.
apart :
    (t : Trace) (gs : List Resource) (r : Resource) (p : ℕ)
    → All (IsFresh t) gs
    → address r ≡ some p
    → 0 < held t r
    → All (λ g. (q : ℕ) → address g ≡ some q → q ≢ p) gs
apart t [] r p f e h = tt
apart t (g ∷ gs) r p f e h =
    (λ q eq same. absurd (omega (arith, f.0 p r (eq ∙ ap some same) e)), apart t gs r p f.1 e h)

Fits-still :
    (t : Trace) (c : Call) (v : ℕ) (xs : List Resource)
    → All (IsFresh t) (grants t c v)
    → All (λ r. 0 < held t r) xs
    → All (Fits t) xs
    → All (Fits (did c (some v) ∷ t)) xs
Fits-still t c v [] f h k = tt
Fits-still t c v (x ∷ xs) f h k = (
  λ p e.
      granted_at_skip (grants t c v) p (extent t p) (apart t (grants t c v) x p f e h.0) ∙ k.0 p e,
  Fits-still t c v xs f h.1 k.1,
)

append-Fits :
    (t : Trace) (gs xs : List Resource)
    → All (Fits t) gs
    → All (Fits t) xs
    → All (Fits t) (gs ++ xs)
append-Fits t [] xs h k = k
append-Fits t (g ∷ gs) xs h k = (h.0, append-Fits t gs xs h.1 k)

module _ {base : Trace} {xs : List Resource} {t : Trace} where
  -- A call that hands out the resources `grants t c v`.
  pub Owns-granted :
      (c : Call) (v : ℕ)
      → gives_back t c ≡ []
      → All (IsFresh t) (grants t c v)
      → All (Fits (did c (some v) ∷ t)) (grants t c v)
      → Owns base xs t
      → Owns base (grants t c v ++ xs) (did c (some v) ∷ t)
  Owns-granted c v e f k h = record {
    legal = (All-needs (λ r. 0 < held t r) t c (rw e tt), h.legal);
    balance = λ r. rw (gone-nil t c v e, bag-append) (omega (arith, h.balance r));
    fits =
        append-Fits (did c (some v) ∷ t) (grants t c v) xs k
          (Fits-still t c v xs f (Owns-held h) h.fits);
  }

-- The size of the only piece that a call hands out.
Fits-single :
    (t : Trace) (c : Call) (v : ℕ) (g : Resource)
    → grants t c v ≡ g ∷ []
    → Fits (did c (some v) ∷ t) g
Fits-single t c v g e p at = rw (e, granted_at, at) (ground arith)

not_held :
    (t : Trace) {n : ℕ} (f : FileName) (r : Resource)
    → held t (file f) ≡ 0
    → held t r ≡ n
    → held t r + 0 - (indicator (file f) r + 0) ≡ n
not_held t f r absent h = elim (dec_lt 0 (indicator (file f) r)) [
  | yes same ↦
      let none_held : held t r ≡ 0 = ap (held t) (sym (indicator-pos (file f) r same)) ∙ absent in
      omega arith
  | no other ↦ omega arith
]

module _ {base : Trace} {xs : List Resource} {t : Trace} where
  -- A call that hands out one resource.
  pub Owns-one :
      (c : Call) (v : ℕ) (g : Resource)
      → gives_back t c ≡ []
      → grants t c v ≡ g ∷ []
      → All (IsFresh t) (grants t c v)
      → Owns base xs t
      → Owns base (g ∷ xs) (did c (some v) ∷ t)
  Owns-one c v g e one f h =
      subst (λ gs. Owns base (gs ++ xs) (did c (some v) ∷ t)) one
        (Owns-granted c v e f (rw one (Fits-single t c v g one, tt)) h)

  -- A call that neither hands out nor gives back.
  pub Owns-plain :
      (c : Call) (v : ℕ)
      → gives_back t c ≡ []
      → grants t c v ≡ []
      → Owns base xs t
      → Owns base xs (did c (some v) ∷ t)
  Owns-plain c v e n h =
      subst (λ gs. Owns base (gs ++ xs) (did c (some v) ∷ t)) n
        (Owns-granted c v e (rw n tt) (rw n tt) h)

  -- A call that gives back what was handed out last.
  pub Owns-given :
      (c : Call) (v : ℕ) (x : Resource)
      → gives_back t c ≡ x ∷ []
      → grants t c v ≡ []
      → Completes c v
      → Owns base (x ∷ xs) t
      → Owns base xs (did c (some v) ∷ t)
  Owns-given c v x e n finished h = record {
    legal = (All-needs (λ r. 0 < held t r) t c (rw e ((Owns-held h).0, tt)), h.legal);
    balance = λ r. rw (gone-Completes t c v finished ∙ e, n) (omega (arith, h.balance r));
    fits = Fits-still t c v xs (rw n tt) (Owns-held h).1 h.fits.1;
  }

  -- Resources may be given back in another order.
  pub Owns-reorder :
      (ys : List Resource)
      → ((r : Resource) → bag ys r ≡ bag xs r)
      → All (Fits t) ys
      → Owns base xs t
      → Owns base ys t
  Owns-reorder ys same fits h = record {
    legal = h.legal;
    balance = λ r. omega (arith, h.balance r, same r);
    fits = fits;
  }

  -- Removing a file that the process does not hold changes nothing that it holds.
  pub Owns-absent :
      (f : FileName) (o : Option ℕ)
      → held t (file f) ≡ 0
      → Owns base xs t
      → Owns base xs (did (remove_file f) o ∷ t)
  Owns-absent f none absent h = record { legal = (tt, h.legal); balance = h.balance; fits = h.fits }
  Owns-absent f (some v) absent h = record {
    legal = (tt, h.legal);
    balance = λ r. not_held t f r absent (h.balance r);
    fits = Fits-still t (remove_file f) v xs tt (Owns-held h) h.fits;
  }
