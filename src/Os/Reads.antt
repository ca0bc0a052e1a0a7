-- ===== src/Os/Reads.antt =====
-- What the parent reads, in the schedules of Schedule.
use memory_demo.Base.{ℕ, ◌≡◌, ◌∙◌, sym, subst, Option, List, [], ◌∷◌, All}
use memory_demo.Os.Ledger.{Event, did, poke, peek, said, trap}
use memory_demo.Os.Events.{Memory, IsFaithful}
use memory_demo.Os.Schedule.{
  Pair, child_step, parent_step, Reach, here, next, IsQuiet, Phase, waiting, waited,
}

-- An event that does not write, and reads nothing but v.
abbrev pub ReadsOnly : ℕ → Event → Type 0
ReadsOnly v (poke a w) = ⊥
ReadsOnly v (peek a w) = w ≡ v
ReadsOnly v _ = Unit

-- If the next event is a read, then what is there is v.
abbrev pub Sees : ℕ → List Event → Memory → Type 0
Sees v (peek a w ∷ es) f = f a ≡ v
Sees v _ f = Unit

pub Reach-ReadsOnly :
    {s t : Pair} (v : ℕ) → All (ReadsOnly v) s.parent → Reach s t → All (ReadsOnly v) t.parent
Reach-ReadsOnly v h here = h
Reach-ReadsOnly v h (next r (child_step q allowed)) = Reach-ReadsOnly v h r
Reach-ReadsOnly v h (next r (parent_step q may allowed)) =
    (subst (All (ReadsOnly v)) q (Reach-ReadsOnly v h r)).1

Sees-quiet : (v : ℕ) (e : Event) (es : List Event) (f : Memory) → IsQuiet e → Sees v (e ∷ es) f
Sees-quiet v (poke a w) es f h = tt
Sees-quiet v (peek a w) es f h = absurd h
Sees-quiet v (did c o) es f h = tt
Sees-quiet v (said m) es f h = tt
Sees-quiet v trap es f h = tt

Sees-faithful :
    (v : ℕ) (es : List Event) (f : Memory) → All (ReadsOnly v) es → IsFaithful es f → Sees v es f
Sees-faithful v [] f h k = tt
Sees-faithful v (poke a w ∷ es) f h k = tt
Sees-faithful v (peek a w ∷ es) f h k = k.0 ∙ h.0
Sees-faithful v (did c o ∷ es) f h k = tt
Sees-faithful v (said m ∷ es) f h k = tt
Sees-faithful v (trap ∷ es) f h k = tt

module _ {pid : ℕ} {o : Option ℕ} {rest : List Event} {after_child : Memory} where
  -- A parent that reads only what the child leaves finds it there.
  pub Phase-Sees :
      (v : ℕ) (s : Pair)
      → Phase pid o rest after_child s
      → All (ReadsOnly v) s.parent
      → Sees v s.parent s.memory
  Phase-Sees v s (waiting [] quiet at faithful same) h =
      subst (λ es. Sees v es s.memory) (sym at) tt
  Phase-Sees v s (waiting (p ∷ ps) quiet at faithful same) h =
      subst (λ es. Sees v es s.memory) (sym at) (Sees-quiet v p _ s.memory quiet.0)
  Phase-Sees v s (waited ended faithful same) h = Sees-faithful v s.parent s.memory h faithful
