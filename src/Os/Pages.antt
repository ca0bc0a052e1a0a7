-- ===== src/Os/Pages.antt =====
-- The loop that all the programs share: `for (size_t i = 0; i < n; i += 4096) buffer[i] = v;`.
use memory_demo.Base.{
  ℕ, zero, suc, ◌+◌, ◌-◌, ◌*◌, ◌/◌, ◌%◌, ◌≤◌, ◌<◌, ◌≡◌, refl, some, List, ◌∷◌, arith, ltb, leb,
  ◌==◌, if◌then◌else◌, ◌&&◌, ◌∙◌, inl, inr, Bool-cases, ltb→lt, ltb→le,
}
use memory_demo.Base.Word.{u64, page}
use memory_demo.Os.Vocabulary.{Resource}
use memory_demo.Os.Ledger.{Trace, address, size}
use memory_demo.Os.Process.{Machine, Action, ◌>>◌, done, store}
use memory_demo.Os.Ownership.{Owns, Owns-poke, Owns-held}
use memory_demo.Os.Rules.{Leaves}
use memory_demo.Os.Events.{Records, Records-then, Records-done, Records-store}

-- The loop from the index i on; i is a size_t, so that it wraps. One unit of fuel is one round.
pub touch_from : ℕ → ℕ → ℕ → ℕ → ℕ → Action (Unit {0})
touch_from zero buffer n v i = done
touch_from (suc fuel) buffer n v i =
    let rest = touch_from fuel buffer n v ((i + page) % u64) in
    if ltb i n then store (buffer + i) v >> rest else done

-- A page for each 4096 bytes begun, and the round that ends the loop.
pub touch : ℕ → ℕ → ℕ → Action (Unit {0})
unfolding touch_from
touch buffer n v = touch_from (n / page + 2) buffer n v 0

-- The memory after the loop: the first byte of every page of the buffer is v, and nothing else has
-- changed.
abbrev pub stamped : ℕ → ℕ → ℕ → (ℕ → ℕ) → ℕ → ℕ
stamped buffer n v f a =
    if leb buffer a && ltb a (buffer + n) && ((a - buffer) % page == 0) then v else f a

-- One round stamps the page that it stands at, and the rounds after it the pages behind.
stamp_round :
    (buffer n v i a x : ℕ)
    → n ≤ u64 - page
    → i < n
    → i % page ≡ 0
    → (if leb (buffer + (i + page) % u64) a && ltb a (buffer + n) && ((a - buffer) % page == 0)
        then v
        else (if buffer + i == a then v else x))
      ≡ (if leb (buffer + i) a && ltb a (buffer + n) && ((a - buffer) % page == 0) then v else x)
stamp_round buffer n v i a x h l m = ground arith

touch_from_memory :
    (fuel buffer n v i : ℕ) (s : Machine) (a : ℕ)
    → n ≤ u64 - page
    → i % page ≡ 0
    → i ≤ n + page
    → n + page < i + page * fuel
    → (touch_from fuel buffer n v i s).1.memory a ≡ (
        if leb (buffer + i) a && ltb a (buffer + n) && ((a - buffer) % page == 0)
        then v
        else s.memory a)
unfolding touch_from
touch_from_memory zero buffer n v i s a h m b e = absurd (omega arith)
touch_from_memory (suc fuel) buffer n v i s a h m b e = elim (Bool-cases (ltb i n)) [
  | inl more ↦ rw more (
      touch_from_memory fuel buffer n v ((i + page) % u64) (store (buffer + i) v s).1 a h
        (omega (arith, ltb→lt i n more)) (omega (arith, ltb→lt i n more))
        (omega (arith, ltb→lt i n more))
      ∙ stamp_round buffer n v i a (s.memory a) h (ltb→lt i n more) m)
  | inr over ↦ rw over (ground (arith, ltb→le i n over))
]

touch_from-Owns :
    {base : Trace} {xs : List Resource} (x : Resource) (fuel buffer n v i : ℕ) (s : Machine)
    → address x ≡ some buffer
    → n ≤ size x
    → Owns base (x ∷ xs) s.trace
    → Leaves base (x ∷ xs) (touch_from fuel buffer n v i s)
unfolding touch_from
touch_from-Owns x zero buffer n v i s at fit h = h
touch_from-Owns {base} {xs} x (suc fuel) buffer n v i s at fit h = elim (Bool-cases (ltb i n)) [
  | inl more ↦ rw more (
      touch_from-Owns x fuel buffer n v ((i + page) % u64) (store (buffer + i) v s).1 at fit (
        Owns-poke (buffer + i) v
          (record {
            block = x;
            start = buffer;
            located = at;
            owned = (Owns-held h).0;
            above = omega arith;
            below = omega (arith, ltb→lt i n more);
          })
          h))
  | inr over ↦ rw over h
]

-- Fuel that is enough gives what more fuel gives.
touch_from_more :
    (fuel more buffer n v i : ℕ) (s : Machine)
    → n ≤ u64 - page
    → i ≤ n + page
    → n + page < i + page * fuel
    → fuel ≤ more
    → touch_from more buffer n v i s ≡ touch_from fuel buffer n v i s
unfolding touch_from
touch_from_more zero more buffer n v i s h b e k = absurd (omega arith)
touch_from_more (suc fuel) zero buffer n v i s h b e k = absurd (omega arith)
touch_from_more (suc fuel) (suc more) buffer n v i s h b e k = elim (Bool-cases (ltb i n)) [
  | inl below ↦
      let l = ltb→lt i n below in
      rw below (
        touch_from_more fuel more buffer n v ((i + page) % u64) (store (buffer + i) v s).1 h
          (omega (arith, l)) (omega (arith, l)) (omega arith))
  | inr over ↦ rw over refl
]

-- For a buffer of at most 2 ^ 64 - 4096 bytes: after the page loop the memory differs from the
-- memory before in exactly this: the first byte of every page begun in the buffer is v; and the
-- fuel is enough: with any more of it the loop has the same run.
pub touch_memory :
    (buffer n v : ℕ) (s : Machine) (a : ℕ)
    → n ≤ u64 - page
    → ((touch buffer n v s).1.memory a ≡ stamped buffer n v s.memory a)
      × ((more : ℕ) → n / page + 2 ≤ more → touch_from more buffer n v 0 s ≡ touch buffer n v s)
unfolding touch
touch_memory buffer n v s a h = (
  ground
      (arith, touch_from_memory (n / page + 2) buffer n v 0 s a h refl (omega arith) (omega arith)),
  λ more k. touch_from_more (n / page + 2) more buffer n v 0 s h (omega arith) (omega arith) k,
)

pub touch_first :
    (buffer n v : ℕ) (s : Machine)
    → 0 < n
    → n ≤ u64 - page
    → (touch buffer n v s).1.memory buffer ≡ v
touch_first buffer n v s pos h = ground (arith, (touch_memory buffer n v s buffer h).0)

pub touch-Owns :
    {base : Trace} {xs : List Resource} (x : Resource) (buffer n v : ℕ) (s : Machine)
    → address x ≡ some buffer
    → n ≤ size x
    → Owns base (x ∷ xs) s.trace
    → Leaves base (x ∷ xs) (touch buffer n v s)
unfolding touch
touch-Owns x buffer n v s at fit h = touch_from-Owns x (n / page + 2) buffer n v 0 s at fit h

touch_from-Records :
    (fuel buffer n v i : ℕ) (s : Machine) → Records s (touch_from fuel buffer n v i s)
unfolding touch_from
touch_from-Records zero buffer n v i s = Records-done s
touch_from-Records (suc fuel) buffer n v i s = elim (Bool-cases (ltb i n)) [
  | inl more ↦ rw more (
      Records-then (Records-store (buffer + i) v s)
        (touch_from-Records fuel buffer n v ((i + page) % u64) (store (buffer + i) v s).1))
  | inr over ↦ rw over (Records-done s)
]

pub touch-Records : (buffer n v : ℕ) (s : Machine) → Records s (touch buffer n v s)
unfolding touch
touch-Records buffer n v s = touch_from-Records (n / page + 2) buffer n v 0 s

touch_from-children :
    (fuel buffer n v i : ℕ) (s : Machine) → (touch_from fuel buffer n v i s).1.children ≡ s.children
unfolding touch_from
touch_from-children zero buffer n v i s = refl
touch_from-children (suc fuel) buffer n v i s = elim (Bool-cases (ltb i n)) [
  | inl more ↦
      rw more (touch_from-children fuel buffer n v ((i + page) % u64) (store (buffer + i) v s).1)
  | inr over ↦ rw over refl
]

-- The loop makes no child.
pub touch-children : (buffer n v : ℕ) (s : Machine) → (touch buffer n v s).1.children ≡ s.children
unfolding touch
touch-children buffer n v s = touch_from-children (n / page + 2) buffer n v 0 s
