-- ===== src/Xnu/Sharing/Concurrent.antt =====
-- share_with_child with the parent and the child side by side.
use memory_demo.Base.Word.{u64, page}
use memory_demo.Base.{
  ap, subst, ◌-◌, ◌≤◌, ◌<◌, ℕ, suc, ◌≡◌, refl, sym, ◌∙◌, ◌⊎◌, inl, inr, Option, some, List, [], ◌∷◌,
  ◌++◌, All,
}
use memory_demo.Os.{
  fork, waitpid, cin_get, Event, did, peek, said, Os, Machine, Action, logged, touch-Records,
  Records, Records-then, Records-say, Records-ask, Records-load, onto, remaining, Step-remaining,
  Phase, onto-injective, Sees, ReadsOnly, Reach-ReadsOnly, Phase-Sees, touch_first, poke, trap,
  Pair, Step, Reach, start_waiting, Reach-Phase, Phase-progress, Phase-memory, HasEnded, IsQuiet,
}
use memory_demo.Xnu.Sharing.{child_rewrites, share_with_child, parent_reads}

pub child_rewrites-Records :
    (os : Os) (buffer n v : ℕ) (leave : Action (Unit {0})) (s : Machine)
    → ((z : Machine) → Records z (leave z))
    → Records s (child_rewrites os buffer n v leave s)
unfolding child_rewrites
child_rewrites-Records os buffer n v leave s last = Records-then (Records-load buffer _) (
    Records-then (Records-say _ _) (
      Records-then (touch-Records buffer n v _) (
        Records-then (Records-load buffer _)
          (Records-then (Records-say _ _) (Records-then (Records-ask os cin_get _) (last _))))))

module _ (os : Os) (buffer n v : ℕ) (leave : Action (Unit {0}))
    (leaves : (z : Machine) → Records z (leave z)) (s : Machine) (pid : ℕ) where
  -- The child as it starts.
  abbrev pub forked : Machine
  forked = logged fork (some pid) s

  pub child_run : Records forked (child_rewrites os buffer n v leave forked)
  child_run = child_rewrites-Records os buffer n v leave forked leaves

  -- The memory at the end of the child.
  abbrev pub rewritten : ℕ → ℕ
  rewritten = (child_rewrites os buffer n v leave forked).1.memory

  abbrev waitpid_reply : Option ℕ
  waitpid_reply = os.reply forked.trace (waitpid pid)

  abbrev pub waits : Event
  waits = did (waitpid pid) waitpid_reply

  abbrev pub looks : List Event
  looks = peek buffer (rewritten buffer) ∷ said (parent_reads (rewritten buffer)) ∷ []

  -- Parent and child after the fork; `ps` is what the parent does before it waits.
  abbrev pub start_of : List Event → Pair
  start_of ps = record { parent = ps ++ waits ∷ looks; child = child_run.events; memory = s.memory }

  begun : (ps : List Event) → All IsQuiet ps → Phase pid waitpid_reply looks rewritten (start_of ps)
  begun ps quiet =
      start_waiting pid waitpid_reply looks rewritten ps child_run.events s.memory quiet
        child_run.faithful (sym child_run.memory_after)

  script_of :
      (es : List Event)
      → os.reply s.trace fork ≡ some pid
      → (share_with_child os (child_rewrites os buffer n v leave) buffer s).1.trace
        ≡ onto (did fork (some pid) ∷ es) s.trace
      → waits ∷ looks ≡ es
  unfolding share_with_child
  script_of es q traced =
      onto-injective (waits ∷ looks) es (did fork (some pid) ∷ s.trace) (sym (rw q refl) ∙ traced)

  -- Where fork answers the process id pid, and parent and child run side by side over one memory,
  -- the parent doing anything before it waits that neither touches the memory nor waits (ps): the
  -- model in which the child runs at once gives the parent the trace of fork, waitpid, reading and
  -- printing; and in every state that the two can reach, either both have ended and the memory is
  -- that of the model, or one of them can go on, to a state one step nearer to the end.
  pub share_with_child_concurrent :
      (ps : List Event) (t : Pair)
      → os.reply s.trace fork ≡ some pid
      → All IsQuiet ps
      → Reach (start_of ps) t
      → ((share_with_child os (child_rewrites os buffer n v leave) buffer s).1.trace
          ≡ onto (did fork (some pid) ∷ waits ∷ looks) s.trace)
        × ((HasEnded t
              × (t.memory
                  ≡ (share_with_child os (child_rewrites os buffer n v leave) buffer s).1.memory))
            ⊎ ((u : Pair) × Step t u × (remaining t ≡ suc (remaining u))))
  unfolding share_with_child
  share_with_child_concurrent ps t q quiet reach =
      let phase =
        Reach-Phase pid waitpid_reply looks rewritten (refl, (tt, tt)) (begun ps quiet) reach in
      (
        rw q refl,
        elim (Phase-progress t phase) [
          | inl ended ↦ inl (ended, Phase-memory t phase ended ∙ (rw q refl))
          | inr (u, step) ↦ inr (u, step, Step-remaining step)
        ],
      )

  -- What the child leaves at the start of the block.
  rewritten_first :
      0 < n
      → n ≤ u64 - page
      → ((z : Machine) → (leave z).1.memory buffer ≡ z.memory buffer)
      → rewritten buffer ≡ v
  unfolding child_rewrites
  rewritten_first pos fit keeps = keeps _ ∙ touch_first buffer n v _ pos fit

  quiet-ReadsOnly :
      (ps es : List Event) → All IsQuiet ps → All (ReadsOnly v) es → All (ReadsOnly v) (ps ++ es)
  quiet-ReadsOnly [] es h k = k
  quiet-ReadsOnly (poke a w ∷ ps) es h k = absurd h.0
  quiet-ReadsOnly (peek a w ∷ ps) es h k = absurd h.0
  quiet-ReadsOnly (did c o ∷ ps) es h k = (tt, quiet-ReadsOnly ps es h.1 k)
  quiet-ReadsOnly (said m ∷ ps) es h k = (tt, quiet-ReadsOnly ps es h.1 k)
  quiet-ReadsOnly (trap ∷ ps) es h k = (tt, quiet-ReadsOnly ps es h.1 k)

  -- Where fork answers pid, the block has at least one byte and at most 2 ^ 64 - 4096, leave keeps
  -- its first byte, and es is what share_with_child adds to the parent's trace after fork: es is
  -- waitpid, a read of the first byte that finds v, and the line with v. And where the parent runs
  -- es after anything that neither touches the memory nor waits, and the child runs beside it over
  -- the same memory: in every state that the two can reach, if the parent's next step is a read,
  -- the byte there is v by then.
  pub share_with_child_seen :
      (ps es : List Event) (t : Pair)
      → 0 < n
      → n ≤ u64 - page
      → ((z : Machine) → (leave z).1.memory buffer ≡ z.memory buffer)
      → os.reply s.trace fork ≡ some pid
      → (share_with_child os (child_rewrites os buffer n v leave) buffer s).1.trace
        ≡ onto (did fork (some pid) ∷ es) s.trace
      → All IsQuiet ps
      → Reach (record { parent = ps ++ es; child = child_run.events; memory = s.memory }) t
      → (es ≡ waits ∷ peek buffer v ∷ said (parent_reads v) ∷ []) × Sees v t.parent t.memory
  share_with_child_seen ps es t pos fit keeps q traced quiet reach =
      let first = rewritten_first pos fit keeps in
      let script : waits ∷ looks ≡ es = script_of es q traced in
      let from_start : Reach (start_of ps) t =
        subst
          (λ ds.
            Reach (record { parent = ps ++ ds; child = child_run.events; memory = s.memory }) t)
          (sym script) reach in
      let phase =
        Reach-Phase pid waitpid_reply looks rewritten (refl, (tt, tt)) (begun ps quiet)
          from_start in
      (
        sym script ∙ ap (λ w. waits ∷ peek buffer w ∷ said (parent_reads w) ∷ []) first,
        Phase-Sees v t phase (
            Reach-ReadsOnly v (quiet-ReadsOnly ps (waits ∷ looks) quiet (tt, (first, (tt, tt))))
              from_start),
      )
