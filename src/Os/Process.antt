-- ===== src/Os/Process.antt =====
-- Processes as state passing. What the operating system answers is the parameter `Os`: any function
-- of the trace so far and the call.
use memory_demo.Base.{ℕ, ◌==◌, if◌then◌else◌, Option, none, some, List, ◌∷◌}
use memory_demo.Os.Vocabulary.{Call, Message}
use memory_demo.Os.Ledger.{Trace, did, poke, peek, said, trap}

pub record Os : Type 0 where
  pub reply : Trace → Call → Option ℕ
  -- what getpid() returns
  pub pid : ℕ
  -- the fields of the structure that a task_info with the reply v has filled
  pub resident_size : ℕ → ℕ
  pub virtual_size : ℕ → ℕ

-- The memory is a byte at each address; `children` are the traces of the child processes that have
-- ended.
pub record Machine : Type 0 where
  pub trace : Trace
  pub memory : ℕ → ℕ
  pub children : List Trace

abbrev pub Action : Type 0 → Type 0
Action A = Machine → A × Machine

abbrev pub pure : {A : Type 0} → A → Action A
pure a s = (a, s)

infixl 5 ◌>>=◌ ◌>>◌
abbrev pub ◌>>=◌ : {A B : Type 0} → Action A → (A → Action B) → Action B
◌>>=◌ m f s = let (a, s') = m s in f a s'

abbrev pub ◌>>◌ : {A B : Type 0} → Action A → Action B → Action B
m >> n = m >>= λ _. n

abbrev pub done : Action (Unit {0})
done = pure tt

abbrev pub logged : Call → Option ℕ → Machine → Machine
logged c o s = record s { trace = did c o ∷ s.trace }

-- One call; the reply is recorded.
abbrev pub ask : Os → Call → Action (Option ℕ)
ask os c s = let o = os.reply s.trace c in (o, logged c o s)

abbrev pub say : Message → Action (Unit {0})
say m s = (tt, record s { trace = said m ∷ s.trace })

-- What the language leaves undefined, such as a division by zero.
abbrev pub undefined : Action (Unit {0})
undefined s = (tt, record s { trace = trap ∷ s.trace })

abbrev pub update : (ℕ → ℕ) → ℕ → ℕ → ℕ → ℕ
update f a v b = if a == b then v else f b

-- `buffer[i] = v`, at the address a = buffer + i.
abbrev pub store : ℕ → ℕ → Action (Unit {0})
store a v s = (tt, record s { trace = poke a v ∷ s.trace; memory = update s.memory a v })

-- `buffer[i]` as a value.
abbrev pub load : ℕ → Action ℕ
load a s = (s.memory a, record s { trace = peek a (s.memory a) ∷ s.trace })

-- The branches on a reply, or on another value that may be missing.
abbrev pub on_reply : {A B : Type 0} → Option B → Action A → (B → Action A) → Action A
on_reply none failed ready = failed
on_reply (some v) failed ready = ready v

-- A child process between fork and its exit, as the parent sees it when waitpid has returned: the
-- child starts with the resources of its parent, and memory mapped shared is one memory for both.
-- The parent neither reads nor writes that memory before waitpid returns.
abbrev pub run_child : Action (Unit {0}) → Action (Unit {0})
run_child child s =
    let (_, s') = child s in (tt, record s { memory = s'.memory; children = s'.trace ∷ s.children })
