-- ===== src/Examples/Simulator.antt =====
-- An operating system that keeps the law: every call succeeds, with a number that was never handed
-- out before, commands with the exit status 0, and only a mapping of 0 bytes is refused.
use Prim.Native.Nat.{max}
use native.Mathlib.Decide.{dec_lt}
use memory_demo.Base.{
  ℕ, zero, suc, ◌≤◌, ◌<◌, ◌≡◌, ◌≢◌, refl, Option, none, some, List, [], ◌∷◌, All, arith, ap, ◌∙◌,
}
use memory_demo.Os.{
  Call, mmap, Resource, Trace, did, address, bag, grants, gives_back, held, Completes, rm_rf, Os,
  Machine, IsLawful, IsFresh, indicator, indicator-pos, FileName, large_source, large_dylib,
  windows_temp, loose_file, Command, metal_compile, metallib_create, mkdir_p, commanded, malloc,
  open_file, shmget, shmat, dlopen, vm_allocate, make_memory_entry, task_for_pid, vm_map,
  virtual_alloc, new_array, create_mapping, map_view, get_temp_file, create_file_a, shm_open,
  create_file, system,
}

abbrev top : Trace → ℕ
top [] = 0
top (did c (some v) ∷ t) = max v (top t)
top (_ ∷ t) = top t

abbrev pub answer : Trace → Call → Option ℕ
answer t (mmap k zero) = none
answer t (system c) = some 0
answer t c = some (suc (top t))

abbrev pub simulator : Os
simulator = record {
  reply = answer;
  pid = 42;
  resident_size = λ v. 5000000;
  virtual_size = λ v. 9000000;
}

abbrev pub start : Machine
start = record { trace = []; memory = λ a. 0; children = [] }

-- Memory lies at the address that the call answered.
abbrev LiesAt : ℕ → Resource → Type 0
LiesAt v g = (p : ℕ) → address g ≡ some p → p ≡ v

file_address : (f : FileName) (v : ℕ) → All (LiesAt v) (loose_file f)
file_address (large_source k) v = tt
file_address (large_dylib k) v = tt
file_address (windows_temp k) v = tt
file_address _ v = (λ p e. cc, tt)

command_address : (c : Command) (v : ℕ) → All (LiesAt v) (commanded c v)
command_address (metal_compile f) zero = (λ p e. cc, tt)
command_address (metal_compile f) (suc v) = ground arith
command_address metallib_create zero = (λ p e. cc, tt)
command_address metallib_create (suc v) = ground arith
command_address (mkdir_p d) zero = (λ p e. cc, tt)
command_address (mkdir_p d) (suc v) = ground arith
command_address _ v = tt

grants_address : (t : Trace) (c : Call) (v : ℕ) → All (LiesAt v) (grants t c v)
grants_address t (malloc n) v = (λ p e. cc, tt)
grants_address t (mmap k n) v = (λ p e. cc, tt)
grants_address t (open_file f) v = (λ p e. cc, tt)
grants_address t (shmget n flags) v = (λ p e. cc, tt)
grants_address t (shmat k) v = (λ p e. cc, tt)
grants_address t (dlopen f) v = (λ p e. cc, tt)
grants_address t (vm_allocate n) v = (λ p e. cc, tt)
grants_address t (make_memory_entry p n) v = (λ p e. cc, tt)
grants_address t (task_for_pid k) v = (λ p e. cc, tt)
grants_address t (vm_map k n) v = (λ p e. cc, tt)
grants_address t (virtual_alloc a n) v = (λ p e. cc, tt)
grants_address t (new_array n) v = (λ p e. cc, tt)
grants_address t (create_mapping b a n) v = (λ p e. cc, tt)
grants_address t (map_view k a n) v = (λ p e. cc, tt)
grants_address t get_temp_file v = (λ p e. cc, tt)
grants_address t (create_file_a f) v = (λ p e. cc, tt)
grants_address t (shm_open f) v = (λ p e. cc, (λ p e. cc, tt))
grants_address t (create_file f) v = file_address f v
grants_address t (system c) v = command_address c v
grants_address t _ v = tt

bag-address :
    (gs : List Resource) (v p : ℕ) (r : Resource)
    → All (LiesAt v) gs
    → address r ≡ some p
    → 0 < bag gs r
    → p ≡ v
bag-address [] v p r h e pos = absurd (omega arith)
bag-address (g ∷ gs) v p r h e pos = elim (dec_lt 0 (indicator g r)) [
  | yes q ↦ h.0 p (ap address (indicator-pos g r q) ∙ e)
  | no q ↦ bag-address gs v p r h.1 e (omega arith)
]

-- Whatever is held lies below the numbers that are still to come.
held-top : (t : Trace) (r : Resource) (p : ℕ) → address r ≡ some p → 0 < held t r → p ≤ top t
held-top [] r p e h = absurd (omega arith)
held-top (did c none ∷ t) r p e h = held-top t r p e h
held-top (did c (some v) ∷ t) r p e h = elim (dec_lt 0 (held t r)) [
  | yes q ↦ omega (arith, held-top t r p e q)
  | no q ↦ omega (arith, bag-address (grants t c v) v p r (grants_address t c v) e (omega arith))
]
held-top (_ ∷ t) r p e h = held-top t r p e h

-- What has no address overlaps nothing.
command-IsFresh : (t : Trace) (c : Command) (v : ℕ) → All (IsFresh t) (commanded c v)
command-IsFresh t (metal_compile f) zero = (λ p r e. cc, tt)
command-IsFresh t (metal_compile f) (suc v) = ground arith
command-IsFresh t metallib_create zero = (λ p r e. cc, tt)
command-IsFresh t metallib_create (suc v) = ground arith
command-IsFresh t (mkdir_p d) zero = (λ p r e. cc, tt)
command-IsFresh t (mkdir_p d) (suc v) = ground arith
command-IsFresh t _ v = tt

IsFresh-All :
    (t : Trace) (gs : List Resource) (v : ℕ)
    → v ≡ suc (top t)
    → All (LiesAt v) gs
    → All (IsFresh t) gs
IsFresh-All t [] v e h = tt
IsFresh-All t (g ∷ gs) v e h =
    (λ p r at also. ground (arith, h.0 p at, held-top t r p also), IsFresh-All t gs v e h.1)

next-IsFresh : (t : Trace) (c : Call) (v : ℕ) → v ≡ suc (top t) → All (IsFresh t) (grants t c v)
next-IsFresh t c v e = IsFresh-All t (grants t c v) v e (grants_address t c v)

answer-IsFresh :
    (t : Trace) (c : Call) (v : ℕ) → answer t c ≡ some v → All (IsFresh t) (grants t c v)
answer-IsFresh t (mmap k zero) v e = absurd (cc)
answer-IsFresh t (mmap k (suc n)) v e = next-IsFresh t (mmap k (suc n)) v (cc)
answer-IsFresh t (system c) v e = command-IsFresh t c v
answer-IsFresh t c v e = next-IsFresh t c v (cc)

answer_gives : (t : Trace) (c : Call) → gives_back t c ≢ [] → answer t c ≢ none
answer_gives t (mmap k n) h e = h refl
answer_gives t _ h e = cc

answer-Completes : (t : Trace) (c : Call) (v : ℕ) → answer t c ≡ some v → Completes c v
answer-Completes t (system (rm_rf d)) v e = cc
answer-Completes t _ v e = tt

pub simulator-IsLawful : IsLawful simulator
simulator-IsLawful = record {
  fresh = answer-IsFresh;
  gives = λ t c h held. answer_gives t c h;
  completes = λ t c v h held e. answer-Completes t c v e;
  no_empty_map = λ t k. refl;
}
