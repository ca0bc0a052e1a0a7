-- ===== src/Os/Law.antt =====
-- What the programs rely on of the operating system: memory that is handed out overlaps nothing
-- that the process still holds at that address, giving back what is held succeeds (for rm -rf: with the
-- exit status 0), and mmap refuses a length of 0 (EINVAL).
use memory_demo.Base.{ℕ, ◌<◌, ◌≡◌, ◌≢◌, none, some, [], All}
use memory_demo.Os.Vocabulary.{Resource, MapKind, Call, mmap}
use memory_demo.Os.Ledger.{Trace, address, grants, gives_back, held, Completes}
use memory_demo.Os.Process.{Os}

-- Nothing that is held in the trace lies at the address of `g`.
abbrev pub IsFresh : Trace → Resource → Type 0
IsFresh t g = (p : ℕ) (r : Resource) → address g ≡ some p → address r ≡ some p → held t r ≡ 0

pub record IsLawful (os : Os) : Type 0 where
  pub fresh :
      (t : Trace) (c : Call) (v : ℕ) → os.reply t c ≡ some v → All (IsFresh t) (grants t c v)
  pub gives :
      (t : Trace) (c : Call)
      → gives_back t c ≢ []
      → All (λ r. 0 < held t r) (gives_back t c)
      → os.reply t c ≢ none
  pub completes :
      (t : Trace) (c : Call) (v : ℕ)
      → gives_back t c ≢ []
      → All (λ r. 0 < held t r) (gives_back t c)
      → os.reply t c ≡ some v
      → Completes c v
  pub no_empty_map : (t : Trace) (k : MapKind) → os.reply t (mmap k 0) ≡ none
