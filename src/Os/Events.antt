-- ===== src/Os/Events.antt =====
-- The events of a stretch of a run, oldest first, and what they do to the memory.
use memory_demo.Base.{
  ◌+◌, length, arith, ℕ, ◌≡◌, refl, ap, sym, subst, ◌∙◌, Option, List, [], ◌∷◌, ◌++◌,
}
use memory_demo.Os.Ledger.{Event, did, poke, peek, said, Trace}
use memory_demo.Os.Vocabulary.{Call, Message}
use memory_demo.Os.Process.{Os, Machine, update, done, say, ask, logged, store, load}

abbrev pub Memory : Type 0
Memory = ℕ → ℕ

abbrev pub exec : Event → Memory → Memory
exec (poke a v) f = update f a v
exec _ f = f

-- A value that is read is the one that is there.
abbrev pub Allowed : Event → Memory → Type 0
Allowed (peek a v) f = f a ≡ v
Allowed _ f = Unit

abbrev pub replay : List Event → Memory → Memory
replay [] f = f
replay (e ∷ es) f = replay es (exec e f)

abbrev pub IsFaithful : List Event → Memory → Type 0
IsFaithful [] f = Unit
IsFaithful (e ∷ es) f = Allowed e f × IsFaithful es (exec e f)

-- A trace with the events on top of it.
abbrev pub onto : List Event → Trace → Trace
onto [] t = t
onto (e ∷ es) t = onto es (e ∷ t)

-- The events of an action, which account for its trace and for what it does to the memory.
pub record Records {A : Type 0} (s : Machine) (r : A × Machine) : Type 0 where
  pub events : List Event
  pub in_trace : r.1.trace ≡ onto events s.trace
  pub memory_after : r.1.memory ≡ replay events s.memory
  pub faithful : IsFaithful events s.memory

onto-append : (es ds : List Event) (t : Trace) → onto (es ++ ds) t ≡ onto ds (onto es t)
onto-append [] ds t = refl
onto-append (e ∷ es) ds t = onto-append es ds (e ∷ t)

replay-append : (es ds : List Event) (f : Memory) → replay (es ++ ds) f ≡ replay ds (replay es f)
replay-append [] ds f = refl
replay-append (e ∷ es) ds f = replay-append es ds (exec e f)

IsFaithful-append :
    (es ds : List Event) (f : Memory)
    → IsFaithful es f
    → IsFaithful ds (replay es f)
    → IsFaithful (es ++ ds) f
IsFaithful-append [] ds f h k = k
IsFaithful-append (e ∷ es) ds f h k = (h.0, IsFaithful-append es ds (exec e f) h.1 k)

-- One stretch after another.
pub Records-then :
    {A B : Type 0} {s : Machine} {r : A × Machine} {q : B × Machine}
    → Records s r
    → Records r.1 q
    → Records s q
Records-then {s = s} first second = record {
  events = first.events ++ second.events;
  in_trace =
      second.in_trace
      ∙ ap (onto second.events) first.in_trace
      ∙ sym (onto-append first.events second.events s.trace);
  memory_after =
      second.memory_after
      ∙ ap (replay second.events) first.memory_after
      ∙ sym (replay-append first.events second.events s.memory);
  faithful =
      IsFaithful-append first.events second.events s.memory first.faithful
        (subst (IsFaithful second.events) first.memory_after second.faithful);
}

-- The actions of one event each, and the one of none.
pub Records-done : (s : Machine) → Records s (done s)
Records-done s = record { events = []; in_trace = refl; memory_after = refl; faithful = tt }

pub Records-say : (m : Message) (s : Machine) → Records s (say m s)
Records-say m s = record {
  events = said m ∷ [];
  in_trace = refl;
  memory_after = refl;
  faithful = (tt, tt);
}

pub Records-did :
    (c : Call) (o : Option ℕ) (s : Machine) → Records {A = Unit {0}} s (tt, logged c o s)
Records-did c o s = record {
  events = did c o ∷ [];
  in_trace = refl;
  memory_after = refl;
  faithful = (tt, tt);
}

pub Records-ask : (os : Os) (c : Call) (s : Machine) → Records s (ask os c s)
Records-ask os c s = record {
  events = did c (os.reply s.trace c) ∷ [];
  in_trace = refl;
  memory_after = refl;
  faithful = (tt, tt);
}

pub Records-store : (a v : ℕ) (s : Machine) → Records s (store a v s)
Records-store a v s = record {
  events = poke a v ∷ [];
  in_trace = refl;
  memory_after = refl;
  faithful = (tt, tt);
}

pub Records-load : (a : ℕ) (s : Machine) → Records s (load a s)
Records-load a s = record {
  events = peek a (s.memory a) ∷ [];
  in_trace = refl;
  memory_after = refl;
  faithful = (refl, tt);
}

length-onto : (es : List Event) (t : Trace) → length (onto es t) ≡ length es + length t
length-onto [] t = omega arith
length-onto (e ∷ es) t = omega (arith, length-onto es (e ∷ t))

onto_parts :
    (es ds : List Event) (t u : Trace)
    → length es ≡ length ds
    → onto es t ≡ onto ds u
    → (es ≡ ds) × (t ≡ u)
onto_parts [] [] t u h e = (refl, e)
onto_parts [] (d ∷ ds) t u h e = absurd (omega arith)
onto_parts (c ∷ es) [] t u h e = absurd (omega arith)
onto_parts (c ∷ es) (d ∷ ds) t u h e =
    let (rest, tops) = onto_parts es ds (c ∷ t) (d ∷ u) (omega arith) e in (cc, cc)

-- A trace tells the events on top of another.
pub onto-injective : (es ds : List Event) (t : Trace) → onto es t ≡ onto ds t → es ≡ ds
onto-injective es ds t e =
    (onto_parts es ds t t (omega (arith, length-onto es t, length-onto ds t, ap length e)) e).0
