-- ===== src/Examples/SharingRuns.antt =====
-- share_with_child with parent and child side by side, at a concrete start.
use memory_demo.Base.{suc, ◌≡◌, ◌⊎◌, refl, some, arith, List, [], ◌∷◌}
use memory_demo.Os.{
  fork, did, said, value, done, Event, peek, Sees, Pair, Step, here, HasEnded, onto, remaining,
  Records-done,
}
use memory_demo.Xnu.Sharing.{child_rewrites, share_with_child, parent_reads}
use memory_demo.Xnu.Sharing.Concurrent.{
  share_with_child_concurrent, share_with_child_seen, start_of, waits, looks,
}
use memory_demo.Examples.Simulator.{simulator, start}

-- Before it waits the parent prints the id of its child.
abbrev both : Pair
both = start_of simulator 4096 8192 b'C' done Records-done start 1 (said (value "父进程创建了子进程" 1) ∷ [])

share_with_child_concurrent_example :
    ((share_with_child simulator (child_rewrites simulator 4096 8192 b'C' done) 4096 start).1.trace
      ≡ onto
          (did fork (some 1)
            ∷ waits simulator 4096 8192 b'C' done Records-done start 1
            ∷ looks simulator 4096 8192 b'C' done Records-done start 1)
          start.trace)
    × ((HasEnded both
          × (both.memory
              ≡ (share_with_child simulator
                  (child_rewrites simulator 4096 8192 b'C' done)
                  4096
                  start).1.memory))
        ⊎ ((u : Pair) × Step both u × (remaining both ≡ suc (remaining u))))
share_with_child_concurrent_example =
    share_with_child_concurrent simulator 4096 8192 b'C' done Records-done start 1
      (said (value "父进程创建了子进程" 1) ∷ []) both refl (tt, tt) here

share_with_child_seen_example :
    (◌≡◌ {A = List Event}
      (waits simulator 4096 8192 b'C' done Records-done start 1
        ∷ looks simulator 4096 8192 b'C' done Records-done start 1)
      (waits simulator 4096 8192 b'C' done Records-done start 1
        ∷ peek 4096 b'C'
        ∷ said (parent_reads b'C')
        ∷ []))
    × Sees b'C' both.parent both.memory
share_with_child_seen_example =
    share_with_child_seen simulator 4096 8192 b'C' done Records-done start 1
      (said (value "父进程创建了子进程" 1) ∷ [])
      (waits simulator 4096 8192 b'C' done Records-done start 1
        ∷ looks simulator 4096 8192 b'C' done Records-done start 1)
      both (omega arith) (omega arith) (λ z. refl) refl share_with_child_concurrent_example.0
      (tt, tt) here
