-- ===== src/Xnu/Sharing/Children.antt =====
-- The child processes of the shared memory demonstrations.
use memory_demo.Base.{ℕ, ◌≤◌, ◌<◌, ◌≡◌, ◌∙◌, sym, subst, some, List, ◌∷◌, All}
use memory_demo.Os.{
  Resource, Trace, address, size, IsLegal, Os, Machine, Action, ◌>>◌, touch, IsLawful, Owns, Leaves,
  touch-Owns, touch-children,
}
use memory_demo.Xnu.Memory.{print_memory_info, print_memory_info-Owns, print_memory_info-children}
use memory_demo.Xnu.Sharing.{
  child_rewrites, share_with_child, child_rewrites-Owns, share_with_child-children,
}

-- The steps that the demonstrations have in common, on a block x at `buffer`.
abbrev pub write_and_share : Os → (buffer n first v : ℕ) → Action (Unit {0}) → Action (Unit {0})
write_and_share os buffer n first v leave = do
  touch buffer n first
  print_memory_info os
  share_with_child os (child_rewrites os buffer n v leave) buffer

module _ {os : Os} (law : IsLawful os) {base : Trace} {xs ys : List Resource} (x : Resource) where
  pub write_and_share-children :
      (buffer n first v : ℕ) (leave : Action (Unit {0})) (s : Machine)
      → address x ≡ some buffer
      → 0 < n
      → n ≤ size x
      → ((z : Machine) → Owns base (x ∷ xs) z.trace → Leaves base ys (leave z))
      → Owns base (x ∷ xs) s.trace
      → All IsLegal s.children
      → All IsLegal (write_and_share os buffer n first v leave s).1.children
  write_and_share-children buffer n first v leave s at pos fit go h all =
      share_with_child-children law x (child_rewrites os buffer n v leave) buffer _
        (λ z k. (child_rewrites-Owns law x buffer n v leave ys z at pos fit go k).legal)
        (print_memory_info-Owns law _ (touch-Owns x buffer n first s at fit h))
        (subst (All IsLegal)
          (sym (print_memory_info-children os _ ∙ touch-children buffer n first s)) all)
