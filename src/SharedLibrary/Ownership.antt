-- ===== src/SharedLibrary/Ownership.antt =====
-- What the demonstration of a shared library holds.
use memory_demo.Base.{
  ℕ, zero, suc, ◌+◌, ◌*◌, ◌%◌, ◌≡◌, refl, Bool, true, false, Option, none, some, List, [], ◌∷◌,
  ◌++◌, Option-cases, Bool-cases, inl, inr, ◌==◌, if◌then◌else◌,
}
use memory_demo.Base.Word.{u64}
use memory_demo.Os.{
  Call, shared_lib_dir, large_source, large_dylib, create_file, close_file, write_file, system,
  mkdir_p, compile_library, rm_rf, ps_self, dlopen, dlsym, dlclose, call_symbol, fork, waitpid,
  sleep, cin_get, error, value, directory, library, Resource, Trace, Os, Machine, ◌>>=◌, ◌>>◌, done,
  ask, say, logged, on_reply, IsLawful, Owns, Owns-said, Owns-one, Owns-failed, Owns-plain, Leaves,
  consult, ignored, returned,
}
use memory_demo.SharedLibrary.{
  write_functions, create_large_shared_library, load_and_test_library, cleanup_library_files,
  fork_children, wait_for, share_library, demo_shared_library_code_segment,
}

-- What the process owns after an action that may hand it the library.
abbrev Loaded : Trace → List Resource → Option ℕ × Machine → Type 0
Loaded base xs (none, s) = Owns base xs s.trace
Loaded base xs (some k, s) = Owns base (library k ∷ xs) s.trace

module _ {os : Os} (law : IsLawful os) {base : Trace} (pid : ℕ) where
  write_functions-Owns :
      {xs : List Resource} (rounds i : ℕ) (s : Machine)
      → Owns base xs s.trace
      → Leaves base xs (write_functions os pid rounds i s)
  unfolding write_functions
  write_functions-Owns zero i s h = h
  write_functions-Owns (suc rounds) i s h =
      write_functions-Owns rounds (i + 1) _ (ignored law (write_file _ _) refl (λ v. refl) h)

  load_and_test_library-Loaded :
      {xs : List Resource} (s : Machine)
      → Owns base xs s.trace
      → Loaded base xs (load_and_test_library os pid s)
  unfolding load_and_test_library
  load_and_test_library-Loaded s h = elim (Option-cases (os.reply s.trace opening)) [
    | inl q ↦ rw q (Owns-said _ (Owns-failed opening refl h))
    | inr (k, q) ↦
        let s1 = logged opening (some k) s in
        let h1 = Owns-one opening k (library k) refl refl (law.fresh s.trace opening k q) h in
        rw q (elim (Option-cases (os.reply s1.trace (dlsym k))) [
          | inl r ↦ rw r (
              returned law (dlclose k) (library k) refl (λ v. refl)
                (Owns-said _ (Owns-failed (dlsym k) refl h1)))
          | inr (f, r) ↦ rw r (
              consult law (call_symbol f) _ done (λ result. say (value "测试函数返回值: " result)) refl
                (λ v. refl) (Owns-plain (dlsym k) f refl refl h1) (λ j. j) (λ v j. Owns-said _ j))
        ])
  ]
    where
      opening : Call
      opening = dlopen (large_dylib pid)

  wait_for-Owns :
      {xs : List Resource} (children : List ℕ) (s : Machine)
      → Owns base xs s.trace
      → Leaves base xs (wait_for os children s)
  unfolding wait_for
  wait_for-Owns [] s h = h
  wait_for-Owns (c ∷ rest) s h =
      wait_for-Owns rest _ (Owns-said _ (ignored law (waitpid c) refl (λ v. refl) h))

  fork_children-Owns :
      {xs : List Resource} (rounds i : ℕ) (children : List ℕ) (s : Machine)
      → Owns base xs s.trace
      → Leaves base xs (fork_children os pid rounds i children s)
  unfolding fork_children
  fork_children-Owns zero i children s h = h
  fork_children-Owns (suc rounds) i children s h =
      consult law fork s _ _ refl (λ v. refl) h (λ k. Owns-said _ k)
        λ c k.
          fork_children-Owns rounds (i + 1) (children ++ c ∷ []) _
            (ignored law (sleep 1) refl (λ v. refl) (Owns-said _ k))

  cleanup_library_files-Owns :
      {xs : List Resource} (s : Machine)
      → Owns base (directory (shared_lib_dir pid) ∷ xs) s.trace
      → Leaves base xs (cleanup_library_files os pid s)
  unfolding cleanup_library_files
  cleanup_library_files-Owns s h =
      Owns-said _ (returned law (system (rm_rf (shared_lib_dir pid))) _ refl (λ v. refl) h)

  after_load :
      {xs : List Resource} (r : Option ℕ × Machine)
      → Loaded base (directory (shared_lib_dir pid) ∷ xs) r
      → Leaves base xs (
          on_reply r.0
            (cleanup_library_files os pid)
            (λ parent_handle. do
              ask os (system ps_self)
              children ← fork_children os pid 3 0 []
              ask os cin_get
              wait_for os children
              ask os (dlclose parent_handle)
              cleanup_library_files os pid)
            r.1)
  after_load (none, s) h = cleanup_library_files-Owns s h
  after_load (some k, s) h =
      let h1 = fork_children-Owns 3 0 [] _ (ignored law (system ps_self) refl (λ v. refl) h) in
      let h2 = wait_for-Owns _ _ (ignored law cin_get refl (λ v. refl) h1) in
      cleanup_library_files-Owns _ (returned law (dlclose k) (library k) refl (λ v. refl) h2)

  share_library-Owns :
      {xs : List Resource} (s : Machine)
      → Owns base (directory (shared_lib_dir pid) ∷ xs) s.trace
      → Leaves base xs (share_library os pid s)
  unfolding share_library
  share_library-Owns s h =
      after_load _
        (load_and_test_library-Loaded _ (ignored law (system ps_self) refl (λ v. refl) h))

  create_large_shared_library-Owns :
      {xs : List Resource} (size_mb : ℕ) (s : Machine)
      → os.reply s.trace (system (mkdir_p (shared_lib_dir pid))) ≡ some 0
      → Owns base xs s.trace
      → Leaves base
          (directory (shared_lib_dir pid) ∷ xs)
          (create_large_shared_library os pid size_mb s)
  unfolding create_large_shared_library
  create_large_shared_library-Owns size_mb s made h = rw made (
      consult law (create_file (large_source pid)) _ _ _ refl (λ w. refl)
        (Owns-one making 0 (directory (shared_lib_dir pid)) refl refl
          (law.fresh s.trace making 0 made) h)
        (λ k. Owns-said _ k)
        λ w k.
          let k1 =
            write_functions-Owns (size_mb * 10 % u64) 0 _
              (ignored law (write_file (large_source pid) (19 + 21)) refl (λ v. refl) k) in
          let k2 = Owns-said (value "已创建共享库源代码" 0) (
            ignored law (close_file (large_source pid)) refl (λ v. refl)
              (ignored law (write_file (large_source pid) (34 + 65 + 15 + 2)) refl (λ v. refl)
                k1)) in
          consult law (system (compile_library (shared_lib_dir pid))) _ _ _ refl (λ v. refl) k2
            (λ j. Owns-said _ j)
            λ status j. elim (Bool-cases (status == 0)) [
              | inl e ↦ rw e (Owns-said _ j)
              | inr e ↦ rw e (Owns-said _ j)
            ])
    where
      making : Call
      making = system (mkdir_p (shared_lib_dir pid))

-- What the demonstration ends with, by whether the library has been built.
abbrev pub Outcome : Trace → List Resource → ℕ → Bool → Machine → Type 0
Outcome base xs pid true s = Owns base xs s.trace
Outcome base xs pid false s = Owns base (directory (shared_lib_dir pid) ∷ xs) s.trace

module _ {os : Os} (law : IsLawful os) {base : Trace} {xs : List Resource} where
  after_build :
      (r : Bool × Machine)
      → Owns base (directory (shared_lib_dir os.pid) ∷ xs) r.1.trace
      → Outcome base xs os.pid r.0
          ((if r.0 then share_library os os.pid else say (error "创建共享库失败")) r.1).1
  after_build (true, s) h = share_library-Owns law os.pid s h
  after_build (false, s) h = Owns-said _ h

  -- On an operating system that keeps the law, where mkdir -p exits with 0, for a process that owns
  -- the resources xs: if the library is built, the process owns xs again at the end, with the
  -- library unloaded and the directory removed, whatever call fails after that but rm -rf, which by
  -- the law exits with 0 on a directory that is held; if it is not built, the process owns the
  -- directory on top of xs.
  pub demo_shared_library_code_segment-Owns :
      (size_mb : ℕ) (s : Machine)
      → os.reply s.trace (system (mkdir_p (shared_lib_dir os.pid))) ≡ some 0
      → Owns base xs s.trace
      → Outcome base xs os.pid
          (create_large_shared_library os os.pid size_mb s).0
          (demo_shared_library_code_segment os size_mb s).1
  unfolding demo_shared_library_code_segment
  demo_shared_library_code_segment-Owns size_mb s made h =
      after_build _ (create_large_shared_library-Owns law os.pid size_mb s made h)
