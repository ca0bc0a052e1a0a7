-- ===== src/Os/Fill.antt =====
-- The loop `for (size_t i = 0; i < n; i++) buffer[i] = v;`.
use memory_demo.Base.{
  ℕ, zero, suc, ◌+◌, ◌%◌, ◌≤◌, ◌<◌, ◌≡◌, refl, some, List, ◌∷◌, arith, ltb, leb, ◌==◌,
  if◌then◌else◌, ◌&&◌, ◌∙◌, inl, inr, Bool-cases, ltb→lt, ltb→le,
}
use memory_demo.Base.Word.{u64}
use memory_demo.Os.Vocabulary.{Resource}
use memory_demo.Os.Ledger.{Trace, address, size}
use memory_demo.Os.Process.{Machine, Action, ◌>>◌, done, store}
use memory_demo.Os.Ownership.{Owns, Owns-poke, Owns-held}
use memory_demo.Os.Rules.{Leaves}

pub fill_from : ℕ → ℕ → ℕ → ℕ → ℕ → Action (Unit {0})
fill_from zero buffer n v i = done
fill_from (suc fuel) buffer n v i =
    let rest = fill_from fuel buffer n v ((i + 1) % u64) in
    if ltb i n then store (buffer + i) v >> rest else done

-- A round for each byte, and the one that ends the loop.
pub fill : ℕ → ℕ → ℕ → Action (Unit {0})
unfolding fill_from
fill buffer n v = fill_from (n + 1) buffer n v 0

fill_round :
    (buffer n v i a x : ℕ)
    → n < u64
    → i < n
    → (if leb (buffer + (i + 1) % u64) a && ltb a (buffer + n)
        then v
        else (if buffer + i == a then v else x))
      ≡ (if leb (buffer + i) a && ltb a (buffer + n) then v else x)
fill_round buffer n v i a x h l = ground arith

fill_from_memory :
    (fuel buffer n v i : ℕ) (s : Machine) (a : ℕ)
    → n < u64
    → n < i + fuel
    → (fill_from fuel buffer n v i s).1.memory a
      ≡ (if leb (buffer + i) a && ltb a (buffer + n) then v else s.memory a)
unfolding fill_from
fill_from_memory zero buffer n v i s a h e = ground arith
fill_from_memory (suc fuel) buffer n v i s a h e = elim (Bool-cases (ltb i n)) [
  | inl more ↦ rw more (
      fill_from_memory fuel buffer n v ((i + 1) % u64) (store (buffer + i) v s).1 a h
        (omega (arith, ltb→lt i n more))
      ∙ fill_round buffer n v i a (s.memory a) h (ltb→lt i n more))
  | inr over ↦ rw over (ground (arith, ltb→le i n over))
]

-- Fuel that is enough gives what more fuel gives.
fill_from_more :
    (fuel more buffer n v i : ℕ) (s : Machine)
    → n < u64
    → i ≤ n
    → n < i + fuel
    → fuel ≤ more
    → fill_from more buffer n v i s ≡ fill_from fuel buffer n v i s
unfolding fill_from
fill_from_more zero more buffer n v i s h b e k = absurd (omega arith)
fill_from_more (suc fuel) zero buffer n v i s h b e k = absurd (omega arith)
fill_from_more (suc fuel) (suc more) buffer n v i s h b e k = elim (Bool-cases (ltb i n)) [
  | inl below ↦
      let l = ltb→lt i n below in
      rw below (
        fill_from_more fuel more buffer n v ((i + 1) % u64) (store (buffer + i) v s).1 h
          (omega (arith, l)) (omega (arith, l)) (omega arith))
  | inr over ↦ rw over refl
]

-- For a buffer below 2 ^ 64 bytes: after the byte loop the memory differs from the memory before in
-- exactly this: every byte of the buffer is v; and the fuel is enough: with any more of it the loop
-- has the same run.
pub fill_memory :
    (buffer n v : ℕ) (s : Machine) (a : ℕ)
    → n < u64
    → ((fill buffer n v s).1.memory a
        ≡ (if leb buffer a && ltb a (buffer + n) then v else s.memory a))
      × ((more : ℕ) → n + 1 ≤ more → fill_from more buffer n v 0 s ≡ fill buffer n v s)
unfolding fill
fill_memory buffer n v s a h = (
  ground (arith, fill_from_memory (n + 1) buffer n v 0 s a h (omega arith)),
  λ more k. fill_from_more (n + 1) more buffer n v 0 s h (omega arith) (omega arith) k,
)

module _ {base : Trace} {xs : List Resource} (x : Resource) where
  fill_from-Owns :
      (fuel buffer n v i : ℕ) (s : Machine)
      → address x ≡ some buffer
      → n ≤ size x
      → Owns base (x ∷ xs) s.trace
      → Leaves base (x ∷ xs) (fill_from fuel buffer n v i s)
  unfolding fill_from
  fill_from-Owns zero buffer n v i s at fit h = h
  fill_from-Owns (suc fuel) buffer n v i s at fit h = elim (Bool-cases (ltb i n)) [
    | inl more ↦ rw more (
        fill_from-Owns fuel buffer n v ((i + 1) % u64) (store (buffer + i) v s).1 at fit (
          Owns-poke (buffer + i) v
            (record {
              block = x;
              start = buffer;
              located = at;
              owned = (Owns-held h).0;
              above = omega arith;
              below = omega (arith, ltb→lt i n more);
            })
            h))
    | inr over ↦ rw over h
  ]

pub fill-Owns :
    {base : Trace} {xs : List Resource} (x : Resource) (buffer n v : ℕ) (s : Machine)
    → address x ≡ some buffer
    → n ≤ size x
    → Owns base (x ∷ xs) s.trace
    → Leaves base (x ∷ xs) (fill buffer n v s)
unfolding fill
fill-Owns x buffer n v s at fit h = fill_from-Owns x (n + 1) buffer n v 0 s at fit h
