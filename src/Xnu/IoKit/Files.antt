-- ===== src/Xnu/IoKit/Files.antt =====
-- The files of demo_iokit_mapping.
use memory_demo.Base.{
  ℕ, ◌≡◌, refl, ◌==◌, if◌then◌else◌, Bool-cases, Option-cases, inl, inr, List, [], ◌∷◌, arith,
}
use memory_demo.Os.{
  metal_source, metal_air, metal_library, run_metal_source, run_metal, create_file, close_file,
  write_file, remove_file, system, metal_compile, metallib_create, osascript_run, error, file,
  Command, Resource, Trace, did, commanded, held, IsLegal, Os, Machine, Action, logged, IsLawful,
  Owns, Owns-refl, Owns-said, Owns-one, Owns-plain, Owns-failed, Owns-reorder, gives_back, FileName,
  Owns-absent, Leaves, acquire, ignored, returned,
}
use memory_demo.Xnu.Memory.{print_memory_info-Owns}
use memory_demo.Xnu.IoKit.{
  on_status, run_and_clean_up, make_metal_library, demo_iokit_mapping, metal_code_bytes,
}
use memory_demo.Xnu.IoKit.Script.{run_metal_cmd}

module _ {os : Os} (law : IsLawful os) {A : Type 0} {base : Trace} {xs ys : List Resource} where
  -- `if (system(command) != 0) ... else ...`, where the command makes `x` exactly if its status is 0.
  on_status-Owns :
      (c : Command) (x : Resource) (s : Machine) (failed ready : Action A)
      → ((v : ℕ) → commanded c v ≡ (if v == 0 then x ∷ [] else []))
      → gives_back s.trace (system c) ≡ []
      → Owns base xs s.trace
      → ((z : Machine) → Owns base xs z.trace → Leaves base ys (failed z))
      → ((z : Machine) → Owns base (x ∷ xs) z.trace → Leaves base ys (ready z))
      → Leaves base ys (
          on_status
            (os.reply s.trace (system c))
            failed
            ready
            (logged (system c) (os.reply s.trace (system c)) s))
  on_status-Owns c x s failed ready makes none_back h bad good =
      elim (Option-cases (os.reply s.trace (system c))) [
        | inl q ↦ rw q (bad _ (Owns-failed (system c) none_back h))
        | inr (v, q) ↦ elim (Bool-cases (v == 0)) [
          | inl zero_status ↦
              let made : commanded c v ≡ x ∷ [] = rw (makes v, zero_status) refl in
              rw (q, zero_status)
                (good _
                  (Owns-one (system c) v x none_back made (law.fresh s.trace (system c) v q) h))
          | inr other ↦
              let nothing : commanded c v ≡ [] = rw (makes v, other) refl in
              rw (q, other) (bad _ (Owns-plain (system c) v none_back nothing h))
        ]
      ]

module _ {os : Os} (law : IsLawful os) {base : Trace} where
  removed :
      {xs : List Resource} {t : Trace} (f : FileName)
      → Owns base (file f ∷ xs) t
      → Owns base xs (did (remove_file f) (os.reply t (remove_file f)) ∷ t)
  removed f h = returned law (remove_file f) (file f) refl (λ v. refl) h

  -- A file that was not there at the start, and is not owned, is not there.
  absent :
      {t : Trace} (f : FileName)
      → held base (file f) ≡ 0
      → Owns base [] t
      → Owns base [] (did (remove_file f) (os.reply t (remove_file f)) ∷ t)
  absent f none_held h = Owns-absent f _ (omega (arith, h.balance (file f))) h

  run_and_clean_up-Owns :
      (s : Machine)
      → held base (file run_metal_source) ≡ 0
      → held base (file run_metal) ≡ 0
      → Owns base (file metal_library ∷ file metal_air ∷ file (metal_source os.pid) ∷ []) s.trace
      → Leaves base [] (run_and_clean_up os s)
  unfolding run_and_clean_up
  run_and_clean_up-Owns s no_source no_program h =
      let f = metal_source os.pid in
      let h1 = ignored law (system (osascript_run run_metal_cmd)) refl (λ v. refl) h in
      let h2 =
        Owns-reorder (file f ∷ file metal_air ∷ file metal_library ∷ []) (λ r. omega arith)
          (h1.fits.1.1.0, (h1.fits.1.0, (h1.fits.0, tt))) h1 in
      let h3 = removed metal_library (removed metal_air (removed f h2)) in
      print_memory_info-Owns law _
        (absent run_metal no_program (absent run_metal_source no_source h3))

  make_metal_library-Owns :
      (s : Machine)
      → held base (file run_metal_source) ≡ 0
      → held base (file run_metal) ≡ 0
      → Owns base (file metal_air ∷ file (metal_source os.pid) ∷ []) s.trace
      → Leaves base [] (make_metal_library os s)
  unfolding make_metal_library
  make_metal_library-Owns s no_source no_program h =
      on_status-Owns law metallib_create (file metal_library) s _ _ (λ v. refl) refl h
        (λ z k.
          let k1 =
            Owns-reorder (file (metal_source os.pid) ∷ file metal_air ∷ []) (λ r. omega arith)
              (k.fits.1.0, (k.fits.0, tt)) (Owns-said (error "创建Metal库失败") k) in
          removed metal_air (removed (metal_source os.pid) k1))
        λ z k. run_and_clean_up-Owns z no_source no_program k

-- On an operating system that keeps the law, from a legal trace of a process that holds neither the
-- source nor the program that the command would write: the process ends holding what it held,
-- whichever of the two compilations fails; every file that was made is removed on each path.
pub demo_iokit_mapping-Owns :
    {os : Os} (law : IsLawful os) (s : Machine)
    → held s.trace (file run_metal_source) ≡ 0
    → held s.trace (file run_metal) ≡ 0
    → IsLegal s.trace
    → Leaves s.trace [] (demo_iokit_mapping os s)
unfolding demo_iokit_mapping
demo_iokit_mapping-Owns {os} law s no_source no_program legal =
    let f = metal_source os.pid in
    acquire law (create_file f) s (λ v. file f) _ _ refl (λ v. refl) (Owns-refl s.trace legal)
      (λ h. Owns-said _ h)
      λ v q h.
        on_status-Owns law (metal_compile f) (file metal_air) _ _ _ (λ w. refl) refl
          (ignored law (close_file f) refl (λ w. refl)
            (ignored law (write_file f metal_code_bytes) refl (λ w. refl) h))
          (λ z k. removed law f (Owns-said (error "Metal编译失败") k))
          λ z k. make_metal_library-Owns law z no_source no_program k
