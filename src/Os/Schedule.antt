-- ===== src/Os/Schedule.antt =====
-- A parent and its child side by side: either may make its next step at any time, but for waitpid,
-- which waits for the end of the child. The memory is shared.
use memory_demo.Base.{
  ℕ, ◌+◌, ◌≡◌, ◌≢◌, refl, ap, ◌∙◌, sym, subst, ◌⊎◌, inl, inr, Option, List, [], ◌∷◌, ◌++◌, All,
  arith, length, suc,
}
use memory_demo.Os.Vocabulary.{waitpid}
use memory_demo.Os.Ledger.{Event, did, poke, peek, said, trap}
use memory_demo.Os.Events.{Memory, exec, Allowed, replay, IsFaithful}

pub record Pair : Type 0 where
  pub parent : List Event
  pub child : List Event
  pub memory : Memory

-- Whether the parent may go on by the event.
abbrev pub MayRun : Event → List Event → Type 0
MayRun (did (waitpid pid) o) child = child ≡ []
MayRun _ child = Unit

pub data Step (s : Pair) : Pair → Type 0 where
  child_step :
      {e : Event} {es : List Event}
      → s.child ≡ e ∷ es
      → Allowed e s.memory
      → Step s (record { parent = s.parent; child = es; memory = exec e s.memory })
  parent_step :
      {e : Event} {es : List Event}
      → s.parent ≡ e ∷ es
      → MayRun e s.child
      → Allowed e s.memory
      → Step s (record { parent = es; child = s.child; memory = exec e s.memory })

pub data Reach (s : Pair) : Pair → Type 0 where
  here : Reach s s
  next : {t u : Pair} → Reach s t → Step t u → Reach s u

-- An event that leaves the memory alone, and does not wait.
abbrev pub IsQuiet : Event → Type 0
IsQuiet (poke a v) = ⊥
IsQuiet (peek a v) = ⊥
IsQuiet (did (waitpid pid) o) = ⊥
IsQuiet _ = Unit

exec-IsQuiet : (e : Event) (f : Memory) → IsQuiet e → exec e f ≡ f
exec-IsQuiet (poke a v) f h = absurd h
exec-IsQuiet (peek a v) f h = absurd h
exec-IsQuiet (did c o) f h = refl
exec-IsQuiet (said m) f h = refl
exec-IsQuiet trap f h = refl

Allowed-IsQuiet : (e : Event) (f : Memory) → IsQuiet e → Allowed e f
Allowed-IsQuiet (poke a v) f h = tt
Allowed-IsQuiet (peek a v) f h = absurd h
Allowed-IsQuiet (did c o) f h = tt
Allowed-IsQuiet (said m) f h = tt
Allowed-IsQuiet trap f h = tt

-- With the child at its end the parent may go on.
MayRun-nil : (e : Event) (child : List Event) → child ≡ [] → MayRun e child
MayRun-nil (did (waitpid pid) o) child h = h
MayRun-nil _ child h = tt

pub List-cases :
    {A : Type 0} (xs : List A) → (xs ≡ []) ⊎ ((x : A) × (rest : List A) × (xs ≡ x ∷ rest))
List-cases [] = inl refl
List-cases (x ∷ rest) = inr (x, rest, refl)

heads : {e d : Event} {es ds xs : List Event} → xs ≡ e ∷ es → xs ≡ d ∷ ds → (e ≡ d) × (es ≡ ds)
heads p q = (cc, cc)

module _ (pid : ℕ) (o : Option ℕ) (rest : List Event) (after_child : Memory) where
  -- The parent has not yet waited, or it has.
  pub data Phase (s : Pair) : Type 0 where
    waiting :
        (ps : List Event)
        → All IsQuiet ps
        → s.parent ≡ ps ++ did (waitpid pid) o ∷ rest
        → IsFaithful s.child s.memory
        → replay s.child s.memory ≡ after_child
        → Phase s
    waited :
        s.child ≡ []
        → IsFaithful s.parent s.memory
        → replay s.parent s.memory ≡ replay rest after_child
        → Phase s

  pub start_waiting :
      (ps cs : List Event) (f : Memory)
      → All IsQuiet ps
      → IsFaithful cs f
      → replay cs f ≡ after_child
      → Phase (record { parent = ps ++ did (waitpid pid) o ∷ rest; child = cs; memory = f })
  start_waiting ps cs f quiet faithful same = waiting ps quiet refl faithful same

module _ (pid : ℕ) (o : Option ℕ) (rest : List Event) (after_child : Memory)
    (faithful_rest : IsFaithful rest after_child) where
  Step-Phase :
      {s t : Pair} → Step s t → Phase pid o rest after_child s → Phase pid o rest after_child t
  Step-Phase {s} (child_step {e} {es} q allowed) (waiting ps quiet at faithful same) =
      waiting ps quiet at (subst (λ cs. IsFaithful cs s.memory) q faithful).1
        (ap (λ cs. replay cs s.memory) (sym q) ∙ same)
  Step-Phase {s} (child_step {e} {es} q allowed) (waited ended faithful same) = absurd (cc)
  Step-Phase {s} (parent_step {e} {es} q may allowed) (waiting [] quiet at faithful same) =
      let (same_event, same_rest) = heads q at in
      let ended : s.child ≡ [] = subst (λ d. MayRun d s.child) same_event may in
      let memory_now : exec e s.memory ≡ after_child =
        ap (λ d. exec d s.memory) same_event ∙ ap (λ cs. replay cs s.memory) (sym ended) ∙ same in
      waited ended
        (subst (IsFaithful es) (sym memory_now)
          (subst (λ ds. IsFaithful ds after_child) (sym same_rest) faithful_rest))
        (ap (replay es) memory_now ∙ ap (λ ds. replay ds after_child) same_rest)
  Step-Phase {s} (parent_step {e} {es} q may allowed) (waiting (p ∷ ps) quiet at faithful same) =
      let (same_event, same_rest) = heads q at in
      let unchanged : exec e s.memory ≡ s.memory =
        ap (λ d. exec d s.memory) same_event ∙ exec-IsQuiet p s.memory quiet.0 in
      waiting ps quiet.1 same_rest (subst (IsFaithful s.child) (sym unchanged) faithful)
        (ap (replay s.child) unchanged ∙ same)
  Step-Phase {s} (parent_step {e} {es} q may allowed) (waited ended faithful same) =
      waited ended (subst (λ cs. IsFaithful cs s.memory) q faithful).1
        (ap (λ cs. replay cs s.memory) (sym q) ∙ same)

  pub Reach-Phase :
      {s t : Pair} → Phase pid o rest after_child s → Reach s t → Phase pid o rest after_child t
  Reach-Phase h here = h
  Reach-Phase h (next r step) = Step-Phase step (Reach-Phase h r)

append_full : (e : Event) (es ps : List Event) → ps ++ e ∷ es ≢ []
append_full e es [] h = cc
append_full e es (p ∷ ps) h = cc

-- Both processes at their ends.
abbrev pub HasEnded : Pair → Type 0
HasEnded s = (s.parent ≡ []) × (s.child ≡ [])

abbrev pub remaining : Pair → ℕ
remaining s = length s.parent + length s.child

-- Every step brings the end nearer.
pub Step-remaining : {s t : Pair} → Step s t → remaining s ≡ suc (remaining t)
Step-remaining {s} (child_step q allowed) = omega (arith, ap length q)
Step-remaining {s} (parent_step q may allowed) = omega (arith, ap length q)

module _ {pid : ℕ} {o : Option ℕ} {rest : List Event} {after_child : Memory} where
  -- Nothing gets stuck: as long as one of the two has not ended, one of them can go on.
  pub Phase-progress :
      (s : Pair) → Phase pid o rest after_child s → HasEnded s ⊎ ((t : Pair) × Step s t)
  Phase-progress s (waiting ps quiet at faithful same) = elim (List-cases s.child) [
    | inr (e, es, q) ↦ inr (_, child_step q (subst (λ cs. IsFaithful cs s.memory) q faithful).0)
    | inl ended ↦ elim (List-cases ps) [
      | inl empty ↦ inr (
        _,
        parent_step {e = did (waitpid pid) o} {es = rest}
            (at ∙ ap (λ qs. qs ++ did (waitpid pid) o ∷ rest) empty) ended tt,
      )
      | inr (p, qs, full) ↦ inr (
        _,
        parent_step {e = p} {es = qs ++ did (waitpid pid) o ∷ rest}
            (at ∙ ap (λ qs. qs ++ did (waitpid pid) o ∷ rest) full) (MayRun-nil p s.child ended)
            (Allowed-IsQuiet p s.memory (subst (All IsQuiet) full quiet).0),
      )
    ]
  ]
  Phase-progress s (waited ended faithful same) = elim (List-cases s.parent) [
    | inl over ↦ inl (over, ended)
    | inr (e, es, q) ↦ inr (
      _,
      parent_step q (MayRun-nil e s.child ended)
          (subst (λ ps. IsFaithful ps s.memory) q faithful).0,
    )
  ]

  -- At the end the memory is what the parent makes of the child's.
  pub Phase-memory :
      (s : Pair) → Phase pid o rest after_child s → HasEnded s → s.memory ≡ replay rest after_child
  Phase-memory s (waiting ps quiet at faithful same) (over, ended) =
      absurd (append_full (did (waitpid pid) o) rest ps (sym at ∙ over))
  Phase-memory s (waited ended faithful same) (over, _) =
      ap (λ ps. replay ps s.memory) (sym over) ∙ same
