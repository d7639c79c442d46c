-- ===== src/Examples/Throughput.antt =====
-- The throughput runs of examples/benchmark.rs on an `OptimistAtomicQueue` of four-byte elements.
use native.Mathlib.Nat.{mul-div_cancel, le-div_iff_mul-le}
use atomic_queue_rs.Base.{
  ℕ, zero, suc, ◌+◌, ◌*◌, ◌/◌, ◌%◌, ◌^◌, ◌≤◌, ◌<◌, ◌≡◌, refl, none, ltb, lt→ltb, le→ltb, arith,
}
use atomic_queue_rs.Program.{ret, Profile, ok}
use atomic_queue_rs.Program.Threads.{System, Reach, NoJob}
use atomic_queue_rs.Program.Still.{Returns, Still, Still->>=, Still-if, Reach-Returns}
use atomic_queue_rs.AtomicQueue.{Queue, new, ops, push, try_pop}
use atomic_queue_rs.AtomicQueue.Value.{Element, size_of, Shared}
use atomic_queue_rs.Examples.{receiver, sender, throughput}
use atomic_queue_rs.Examples.Blank.{Blank, new-Blank, try_pop-Still, push_narrow-Still}

module _ (p : Profile) (self : Queue) (T : Element) (wait fuel messages n : ℕ) where
  receiver-Still :
      (rounds asked : ℕ)
      → 0 < asked
      → Still Blank (λ _. ⊥) (receiver (ops p self T wait) rounds asked 0)
  unfolding receiver ops
  receiver-Still zero asked more = tt
  receiver-Still (suc rounds) asked more = rw (lt→ltb 0 asked more) (
      Still->>= Blank (λ o. o ≡ none) (λ _. ⊥) (try_pop p self T wait) _
        (try_pop-Still p self T wait) (λ o e. rw e (receiver-Still rounds asked more)))

  sender-Still :
      (sent i : ℕ)
      → size_of T < 8
      → 0 < sent
      → Still Blank (λ _. ⊥) (sender (ops p self T wait) sent i)
  unfolding sender ops
  sender-Still zero i narrow more = absurd (omega (arith, more))
  sender-Still (suc sent) i narrow more =
      Still->>= Blank (λ _. ⊥) (λ _. ⊥) (push p self T (i % 2 ^ 32)) _
        (push_narrow-Still p self T (i % 2 ^ 32) narrow) (λ _ stuck. absurd stuck)

  throughput-Still :
      (i : ℕ)
      → size_of T < 8
      → n ≤ messages
      → i < n + n
      → Still Blank (λ _. ⊥) (throughput (ops p self T wait) fuel messages n i)
  unfolding throughput
  throughput-Still i narrow enough below =
      Still-if Blank (λ _. ⊥) (ltb i n) _ _
        (λ _.
          receiver-Still fuel (messages * n / n)
            (rw (mul-div_cancel messages {n = n} (omega arith)) (omega arith)))
        (λ _. rw (lt→ltb i (n + n) below) (
          sender-Still (messages / n) 0 narrow
            ((le-div_iff_mul-le {k = n} {x = 1} {y = messages} (omega arith)).1 (omega arith))))

  throughput-beyond : (j : ℕ) → n + n ≤ j → throughput (ops p self T wait) fuel messages n j ≡ ret 0
  unfolding throughput
  throughput-beyond j beyond = rw (le→ltb j n (omega arith), le→ltb j (n + n) beyond) refl

  -- In a throughput benchmark of at least as many messages as there are producers, on a new
  -- AtomicQueue of elements of fewer than eight bytes, no producer or consumer ever returns, in any
  -- run and whatever the fuel.
  pub throughput_stalls :
      (padded size : ℕ) (m : Shared) {k : ℕ} {t : System Shared ℕ}
      → size_of T < 8
      → n ≤ messages
      → new p padded size ≡ ok (self, m)
      → Reach NoJob
          (record { memory = m; thread = throughput (ops p self T wait) fuel messages n })
          k
          t
      → (i : ℕ) → i < n + n
      → Returns (λ count. ⊥) (t.thread i)
  throughput_stalls padded size m narrow enough made run i below =
      Reach-Returns Blank (λ _ _. ⊥) (n + n) (new-Blank p padded size self m made)
        (λ j. throughput-Still j narrow enough) (λ j beyond. (0, throughput-beyond j beyond)) run i
        below
