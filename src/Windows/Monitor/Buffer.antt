-- ===== src/Windows/Monitor/Buffer.antt =====
-- The buffer of printProcessMemoryInfo, and that of runMemoryMonitorDemo.
use memory_demo.Base.{ℕ, ◌*◌, refl, ap, List, [], ◌∷◌, arith, ◌==◌, Bool-cases, inl, inr}
use memory_demo.Os.{
  malloc, free, new_array, delete_array, cin_get, process_memory_info, query_working_set, error,
  heap, array, Resource, Trace, did, IsLegal, Os, Machine, IsLawful, Owns, Owns-refl, Owns-said,
  Leaves, acquire, consult, ignored, returned, fill-Owns,
}
use memory_demo.Windows.Monitor.{
  Probe, Figures, error_bad_length, working_set_info_size, print_figures, print_estimated,
  query_details, print_process_memory_info, run_memory_monitor_demo,
}

print_estimated-Owns :
    {base : Trace} {xs : List Resource} (f : Figures) (s : Machine)
    → Owns base xs s.trace
    → Leaves base xs (print_estimated f s)
unfolding print_estimated
print_estimated-Owns f s h =
    Owns-said _
      (Owns-said _ (Owns-said _ (Owns-said _ (Owns-said _ (Owns-said _ (Owns-said _ h))))))

print_figures-Owns :
    {base : Trace} {xs : List Resource} (f : Figures) (s : Machine)
    → Owns base xs s.trace
    → Leaves base xs (print_figures f s)
unfolding print_figures
print_figures-Owns f s h =
    Owns-said _
      (Owns-said _ (Owns-said _ (Owns-said _ (Owns-said _ (Owns-said _ (Owns-said _ h))))))

module _ {os : Os} (law : IsLawful os) {base : Trace} {xs : List Resource} where
  query_details-Owns :
      (probe : Probe) (s : Machine)
      → Owns base xs s.trace
      → Leaves base xs (query_details os probe s)
  unfolding query_details
  query_details-Owns probe s h =
      acquire law (malloc n) s (λ p. heap p n) _ _ refl (λ v. refl) h (λ k. Owns-said _ k)
        λ p q k.
          consult law query_working_set _ _ _ refl (λ v. refl)
            (fill-Owns (heap p n) p n 0 _ refl (omega arith) k)
            (λ j. freed p (Owns-said (error "查询工作集详细信息失败") j))
            λ v j. freed p (print_figures-Owns _ _ j)
    where
      n : ℕ
      n = working_set_info_size probe.counters.working_set_size

      freed :
          {t : Trace} (p : ℕ)
          → Owns base (heap p n ∷ xs) t
          → Owns base xs (did (free p) (os.reply t (free p)) ∷ t)
      freed p j =
          returned law (free p) (heap p n) (ap (λ k. heap p k ∷ []) (j.fits.0 p refl)) (λ v. refl) j

  -- On an operating system that keeps the law, a process that owns the resources xs owns the same
  -- ones after the report, whichever query fails and whether or not the buffer is granted; every
  -- byte written lies in the buffer.
  pub print_process_memory_info-Owns :
      (probe : Probe) (s : Machine)
      → Owns base xs s.trace
      → Leaves base xs (print_process_memory_info os probe s)
  unfolding print_process_memory_info
  print_process_memory_info-Owns probe s h =
      consult law process_memory_info s _ _ refl (λ v. refl) h (λ k. Owns-said _ k)
        λ v k.
          consult law query_working_set _ _ _ refl (λ w. refl) k
            (λ j. elim (Bool-cases (probe.last_error == error_bad_length)) [
              | inl e ↦ rw e (query_details-Owns probe _ j)
              | inr e ↦ rw e (Owns-said _ j)
            ])
            λ w j. print_estimated-Owns _ _ j

-- On an operating system that keeps the law, from a legal trace, the demonstration ends holding
-- what it held, also when new throws: its 50 MB are given back, and every byte written lies in
-- them.
pub run_memory_monitor_demo-Owns :
    {os : Os} (law : IsLawful os) (probe : Probe) (s : Machine)
    → IsLegal s.trace
    → Leaves s.trace [] (run_memory_monitor_demo os probe s)
unfolding run_memory_monitor_demo
run_memory_monitor_demo-Owns law probe s legal =
    acquire law (new_array n) s (λ p. array p n) _ _ refl (λ v. refl) (Owns-refl s.trace legal)
      (λ k. k)
      λ p q h.
        let h1 = fill-Owns (array p n) p n 1 _ refl (omega arith) h in
        let h2 =
          ignored law cin_get refl (λ v. refl) (print_process_memory_info-Owns law probe _ h1) in
        returned law (delete_array p) (array p n) (ap (λ k. array p k ∷ []) (h2.fits.0 p refl))
          (λ v. refl) h2
  where
    n : ℕ
    n = 50 * 1048576
