-- ===== src/Os/Ledger.antt =====
-- The trace of a process, latest event first, and what may be read off it: the resources that the
-- process holds, and whether it has kept the rules for memory and handles.
use mathlib.Core.Logic.{ite, if_pos, if_neg}
use memory_demo.Base.{
  ℕ, ◌+◌, ◌-◌, ◌<◌, ◌≤◌, ◌≡◌, Option, none, some, List, [], ◌∷◌, All, ◌==◌, if◌then◌else◌, refl,
  arith,
}
use memory_demo.Os.Vocabulary.{
  FileName, large_source, large_dylib, windows_temp, Resource, Resource-discrete, heap, mapping,
  segment, vm, virtual, view, array, fd, shm_segment, port, library, handle, file, directory,
  shm_object, Command, metal_compile, metallib_create, mkdir_p, rm_rf, metal_air, metal_library,
  Call, malloc, free, mmap, munmap, create_file, open_file, remove_file, close, shm_open,
  shm_unlink, shmget, shmctl_rmid, shmat, shmdt, system, dlopen, dlclose, vm_allocate,
  vm_deallocate, make_memory_entry, task_for_pid, vm_map, port_deallocate, virtual_alloc,
  virtual_free, new_array, delete_array, create_mapping, map_view, unmap_view, close_handle,
  get_temp_file, create_file_a, delete_file, Message,
}

-- A call with its reply: `none` is the failure value of the call (NULL, -1, MAP_FAILED, a code that
-- is not KERN_SUCCESS), `some v` is success with the value v.
pub data Event : Type 0 where
  did : Call → Option ℕ → Event
  poke peek : ℕ → ℕ → Event
  said : Message → Event
  -- undefined behaviour
  trap : Event

abbrev pub Trace : Type 0
Trace = List Event

-- How often `r` is the resource `s`: 0 or 1.
pub indicator : Resource → Resource → ℕ
indicator s r = ite (Resource-discrete s r) 1 0

pub indicator_self : (r : Resource) → indicator r r ≡ 1
unfolding indicator
indicator_self r = if_pos (Resource-discrete r r) refl 1 0

pub indicator-pos : (s r : Resource) → 0 < indicator s r → s ≡ r
unfolding indicator
indicator-pos s r h = elim (Resource-discrete s r) [
  | yes e ↦ e
  | no e ↦ absurd (let q : indicator s r ≡ 0 = if_neg (Resource-discrete s r) e 1 0 in omega arith)
]

abbrev pub bag : List Resource → Resource → ℕ
bag [] r = 0
bag (s ∷ ss) r = indicator s r + bag ss r

-- The address of a piece of memory, and its size; other resources have none.
abbrev pub address : Resource → Option ℕ
address (heap p n) = some p
address (mapping p n) = some p
address (segment p n) = some p
address (vm p n) = some p
address (virtual p n) = some p
address (view p n) = some p
address (array p n) = some p
address _ = none

abbrev pub size : Resource → ℕ
size (heap p n) = n
size (mapping p n) = n
size (segment p n) = n
size (vm p n) = n
size (virtual p n) = n
size (view p n) = n
size (array p n) = n
size _ = 0

-- The size that the segment `k` was made with.
abbrev pub segment_size : Trace → ℕ → ℕ
segment_size [] k = 0
segment_size (did (shmget n flags) (some j) ∷ t) k = if j == k then n else segment_size t k
segment_size (_ ∷ t) k = segment_size t k

-- A file in the directory of the generated library goes with that directory, and one that
-- GetTempFileNameA has named is there already.
abbrev pub loose_file : FileName → List Resource
loose_file (large_source k) = []
loose_file (large_dylib k) = []
loose_file (windows_temp k) = []
loose_file f = file f ∷ []

abbrev pub commanded : Command → ℕ → List Resource
commanded (metal_compile f) status = if status == 0 then file metal_air ∷ [] else []
commanded metallib_create status = if status == 0 then file metal_library ∷ [] else []
commanded (mkdir_p d) status = if status == 0 then directory d ∷ [] else []
commanded _ status = []

-- What the call hands out when its reply is `some v`.
abbrev pub grants : Trace → Call → ℕ → List Resource
grants t (malloc n) v = heap v n ∷ []
grants t (mmap k n) v = mapping v n ∷ []
grants t (create_file f) v = loose_file f
grants t (open_file f) v = fd v ∷ []
grants t (shm_open f) v = fd v ∷ shm_object f ∷ []
grants t (shmget n flags) v = shm_segment v ∷ []
grants t (shmat k) v = segment v (segment_size t k) ∷ []
grants t (system c) v = commanded c v
grants t (dlopen f) v = library v ∷ []
grants t (vm_allocate n) v = vm v n ∷ []
grants t (make_memory_entry p n) v = port v ∷ []
grants t (task_for_pid k) v = port v ∷ []
grants t (vm_map k n) v = vm v n ∷ []
grants t (virtual_alloc a n) v = virtual v n ∷ []
grants t (new_array n) v = array v n ∷ []
grants t (create_mapping b a n) v = handle v ∷ []
grants t (map_view k a n) v = view v n ∷ []
grants t get_temp_file v = file (windows_temp v) ∷ []
grants t (create_file_a f) v = handle v ∷ []
grants t _ v = []

-- The size of the memory that was last handed out at the address `p`: the calls that give memory
-- back by its address alone rely on it.
abbrev pub granted_at : List Resource → ℕ → ℕ → ℕ
granted_at [] p n = n
granted_at (r ∷ rs) p n = elim (address r) [ none ↦ n | some q ↦ if q == p then size r else n ]

abbrev pub extent : Trace → ℕ → ℕ
extent [] p = 0
extent (did c (some v) ∷ t) p = granted_at (grants t c v) p (extent t p)
extent (_ ∷ t) p = extent t p

-- What the call gives back when it succeeds.
abbrev pub gives_back : Trace → Call → List Resource
gives_back t (free p) = heap p (extent t p) ∷ []
gives_back t (munmap p n) = mapping p n ∷ []
gives_back t (close k) = fd k ∷ []
gives_back t (remove_file f) = file f ∷ []
gives_back t (shm_unlink f) = shm_object f ∷ []
gives_back t (shmctl_rmid k) = shm_segment k ∷ []
gives_back t (shmdt p) = segment p (extent t p) ∷ []
gives_back t (system (rm_rf d)) = directory d ∷ []
gives_back t (dlclose k) = library k ∷ []
gives_back t (vm_deallocate p n) = vm p n ∷ []
gives_back t (port_deallocate k) = port k ∷ []
gives_back t (virtual_free p) = virtual p (extent t p) ∷ []
gives_back t (delete_array p) = array p (extent t p) ∷ []
gives_back t (unmap_view p) = view p (extent t p) ∷ []
gives_back t (close_handle k) = handle k ∷ []
gives_back t (delete_file f) = file f ∷ []
gives_back t _ = []

-- What has gone when the reply is `some v`: a command that gives something back has done so where its
-- exit status is 0.
abbrev pub gone : Trace → Call → ℕ → List Resource
gone t (system (rm_rf d)) v = if v == 0 then directory d ∷ [] else []
gone t c v = gives_back t c

pub gone-nil : (t : Trace) (c : Call) (v : ℕ) → gives_back t c ≡ [] → gone t c v ≡ []
gone-nil t (system (rm_rf d)) v h = absurd (cc)
gone-nil t _ v h = h

-- Whether the reply v means that the call has done what it is for.
abbrev pub Completes : Call → ℕ → Type 0
Completes (system (rm_rf d)) v = v ≡ 0
Completes _ v = Unit

pub gone-Completes : (t : Trace) (c : Call) (v : ℕ) → Completes c v → gone t c v ≡ gives_back t c
gone-Completes t (system (rm_rf d)) v h = rw h refl
gone-Completes t _ v h = refl

-- What has to be held when the call is made: what it gives back, but for a file that is removed by its
-- name, which does no harm where there is none.
abbrev pub needs : Trace → Call → List Resource
needs t (remove_file f) = []
needs t c = gives_back t c

pub All-needs :
    (P : Resource → Type 0) (t : Trace) (c : Call) → All P (gives_back t c) → All P (needs t c)
All-needs P t (remove_file f) h = tt
All-needs P t _ h = h

-- How many of the resource `r` the process holds.
abbrev pub held : Trace → Resource → ℕ
held [] r = 0
held (did c (some v) ∷ t) r = held t r + bag (grants t c v) r - bag (gone t c v) r
held (_ ∷ t) r = held t r

-- The byte at `a` lies in memory that the process holds.
pub record IsCovered (t : Trace) (a : ℕ) : Type 0 where
  pub block : Resource
  pub start : ℕ
  pub located : address block ≡ some start
  pub owned : 0 < held t block
  pub above : start ≤ a
  pub below : a < start + size block

-- Every byte written or read lay in memory that was held, and only what was held was given back.
abbrev pub IsLegal : Trace → Type 0
IsLegal [] = Unit
IsLegal (did c o ∷ t) = All (λ r. 0 < held t r) (needs t c) × IsLegal t
IsLegal (poke a v ∷ t) = IsCovered t a × IsLegal t
IsLegal (peek a v ∷ t) = IsCovered t a × IsLegal t
IsLegal (said m ∷ t) = IsLegal t
IsLegal (trap ∷ t) = ⊥
