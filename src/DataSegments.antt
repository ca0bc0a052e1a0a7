-- ===== src/DataSegments.antt =====
-- macos/process/data_segments_demo.cpp.
use memory_demo.Base.{ℕ, refl, List, [], ◌∷◌}
use memory_demo.Os.{
  Message, said, value, cin_get, Os, Machine, Action, ◌>>=◌, ◌>>◌, pure, ask, say, IsLawful,
  IsLegal, Owns, Owns-refl, Owns-said, Leaves, Resource, Trace, ignored,
}
use memory_demo.Xnu.Memory.{print_memory_info, print_memory_info-Owns}

-- The variables whose addresses are printed, in that order.
pub data Variable : Type 0 where
  k_constant_value k_constant_string k_read_only_vector class_constant : Variable
  g_global_variable g_static_variable s_class_variable : Variable
  g_uninitialized_variable g_uninitialized_static_variable : Variable

-- The variables that the program changes.
pub record Globals : Type 0 where
  pub global : ℕ
  pub static : ℕ
  pub class_variable : ℕ

abbrev pub initial : Globals
initial = record { global = 100; static = 200; class_variable = 600 }

pub print_globals : Globals → Action (Unit {0})
print_globals g = do
  say (value "  gGlobalVariable = " g.global)
  say (value "  gStaticVariable = " g.static)
  say (value "  DemoClass::sClassVariable = " g.class_variable)

pub modify_global_variables : Globals → Action Globals
unfolding print_globals
modify_global_variables g = do
  print_globals g
  let modified = record g { global = 101; static = 201; class_variable = 601 }
  print_globals modified
  pure modified

-- Where the loader has put the variables is a parameter.
pub print_addresses : (Variable → ℕ) → Action (Unit {0})
print_addresses address = do
  say (value "  &kConstantValue = " (address k_constant_value))
  say (value "  &kConstantString = " (address k_constant_string))
  say (value "  &kReadOnlyVector = " (address k_read_only_vector))
  say (value "  &DemoClass::kClassConstant = " (address class_constant))
  say (value "  &gGlobalVariable = " (address g_global_variable))
  say (value "  &gStaticVariable = " (address g_static_variable))
  say (value "  &DemoClass::sClassVariable = " (address s_class_variable))
  say (value "  &gUninitializedVariable = " (address g_uninitialized_variable))
  say (value "  &gUninitializedStaticVariable = " (address g_uninitialized_static_variable))

pub data_segments_main : Os → (Variable → ℕ) → Action Globals
unfolding print_addresses modify_global_variables
data_segments_main os address = do
  say (value "进程ID: " os.pid)
  print_addresses address
  print_memory_info os
  modified ← modify_global_variables initial
  ask os cin_get
  pure modified

three_lines :
    {base : Trace} {xs : List Resource} {t : Trace} (k m n : Message)
    → Owns base xs t
    → Owns base xs (said k ∷ said m ∷ said n ∷ t)
three_lines k m n h = Owns-said k (Owns-said m (Owns-said n h))

-- Nothing is held at the end that was not held before.
data_segments_main-Owns :
    {os : Os} (law : IsLawful os) (address : Variable → ℕ) (s : Machine)
    → IsLegal s.trace
    → Leaves s.trace [] (data_segments_main os address s)
unfolding data_segments_main
data_segments_main-Owns law address s legal =
    let addresses =
      three_lines _ _ _
        (three_lines _ _ _ (three_lines _ _ _ (Owns-said _ (Owns-refl s.trace legal)))) in
    let reported = print_memory_info-Owns law _ addresses in
    ignored law cin_get refl (λ v. refl) (three_lines _ _ _ (three_lines _ _ _ reported))
