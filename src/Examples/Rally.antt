-- ===== src/Examples/Rally.antt =====
-- The ping-pong of examples/benchmark.rs on the queues of src/atomic_queue2.rs.
use mathlib.Core.Path.{subst}
use atomic_queue_rs.Base.{ℕ, zero, suc, ◌+◌, ◌%◌, ◌^◌, ◌<◌, ◌≡◌, Bool, [], arith}
use atomic_queue_rs.Program.{ret, run, done, ◌>>=◌, ◌>>◌, Profile}
use atomic_queue_rs.Program.Threads.{NoJob, System, Reach, here}
use atomic_queue_rs.Program.Duo.{pair}
use atomic_queue_rs.Program.Turns.{run-left, run-right}
use atomic_queue_rs.Program.Sides.{on_left, on_right, run-on_left, run-on_right}
use atomic_queue_rs.Common.{AtomicQueueOps}
use atomic_queue_rs.AtomicQueue2.{push, pop, ops}
use atomic_queue_rs.AtomicQueue2.Slots.{Shared}
use atomic_queue_rs.AtomicQueue2.Types.{Queue2, fresh}
use atomic_queue_rs.AtomicQueue2.Valid.{IsQueue}
use atomic_queue_rs.AtomicQueue2.Holds.{Holds}
use atomic_queue_rs.AtomicQueue2.New.{fresh-Holds}
use atomic_queue_rs.AtomicQueue2.Run.{push_enqueues, pop_dequeues}
use atomic_queue_rs.Examples.{ping, pong}

module _ (p : Profile) (periodic : Bool) (self : Queue2) (q : IsQueue periodic self) where
  -- An element goes through an empty queue.
  through :
      (fuel k n : ℕ) (m : Shared ℕ) (x : ℕ)
      → k ≡ suc (suc n)
      → Holds p periodic self k m []
      → (m1 : Shared ℕ) × (m2 : Shared ℕ) × (run (push p self (suc fuel) x) m ≡ done m1 tt)
        × (run (pop p self (suc fuel)) m1 ≡ done m2 x)
        × Holds p periodic self n m2 []
  through fuel k n m x e h =
      let (m1, pushes, h1) =
        push_enqueues p q fuel (suc n) m [] x (subst (λ j. Holds p periodic self j m []) e h)
          (omega (arith, q.pos)) in
      let (m2, pops, h2) = pop_dequeues p q fuel n m1 x [] h1 in (m1, m2, pushes, pops, h2)

module _ (p : Profile) {periodic1 periodic2 : Bool} {self1 self2 : Queue2}
    (q1 : IsQueue periodic1 self1) (q2 : IsQueue periodic2 self2) (fuel : ℕ) where
  -- Both queues are empty, and `n` more accesses of each do not overflow its counters.
  pub record Rested (n : ℕ) (m : Shared ℕ × Shared ℕ) : Type 0 where
    pub first : Holds p periodic1 self1 n m.0 []
    pub second : Holds p periodic2 self2 n m.1 []

  abbrev ops1 : AtomicQueueOps (Shared ℕ) ℕ
  ops1 = ops p self1 (suc fuel)

  abbrev ops2 : AtomicQueueOps (Shared ℕ) ℕ
  ops2 = ops p self2 (suc fuel)

  rally :
      {s : System (Shared ℕ × Shared ℕ) (Unit {0})} (rounds i : ℕ) (m : Shared ℕ × Shared ℕ) (n : ℕ)
      → Rested (rounds + rounds) m
      → Reach NoJob s n (pair m (ping ops1 ops2 rounds i) (pong ops1 ops2 rounds) tt)
      → (n' : ℕ) × (m' : Shared ℕ × Shared ℕ) × Rested 0 m'
        × Reach NoJob s n' (pair m' (ret tt) (ret tt) tt)
  unfolding ping pong ops
  rally zero i m n h r = (n, m, h, r)
  rally (suc rounds) i m n h r =
      let x = i % 2 ^ 32 in
      let (a1, a2, pushes1, pops1, h1) =
        through p periodic1 self1 q1 fuel (suc rounds + suc rounds) (rounds + rounds) m.0 x
          (omega arith) h.first in
      let (b1, b2, pushes2, pops2, h2) =
        through p periodic2 self2 q2 fuel (suc rounds + suc rounds) (rounds + rounds) m.1 x
          (omega arith) h.second in
      let (n1, r1) =
        run-left tt (on_left (ops1.push x))
          (λ _. do _ ← on_right ops2.pop; ping ops1 ops2 rounds (suc i)) _ m (a1, m.1) tt n
          (run-on_left (ops1.push x) m.0 a1 m.1 tt pushes1) r in
      let (n2, r2) =
        run-right tt (on_left ops1.pop) (λ val. on_right (ops2.push val) >> pong ops1 ops2 rounds) _
          (a1, m.1) (a2, m.1) x n1 (run-on_left ops1.pop a1 a2 m.1 x pops1) r1 in
      let (n3, r3) =
        run-right tt (on_right (ops2.push x)) (λ _. pong ops1 ops2 rounds) _ (a2, m.1) (a2, b1) tt
          n2 (run-on_right (ops2.push x) m.1 b1 a2 tt pushes2) r2 in
      let (n4, r4) =
        run-left tt (on_right ops2.pop) (λ _. ping ops1 ops2 rounds (suc i)) _ (a2, b1) (a2, b2) x
          n3 (run-on_right ops2.pop b1 b2 a2 x pops2) r3 in
      rally rounds (suc i) (a2, b2) n4 (record { first = h1; second = h2 }) r4

  -- In the ping-pong benchmark on two new AtomicQueue2 or AtomicQueueB2 queues, in any modes, both
  -- threads can return: for every number of rounds whose double is below 2^64 there is a schedule
  -- at whose end both have returned and both queues are empty, with one round of each wait loop.
  pub round_trips_complete :
      (rounds : ℕ)
      → rounds + rounds < 2 ^ 64
      → (n : ℕ) × (m : Shared ℕ × Shared ℕ) × Rested 0 m
        × Reach NoJob
            (pair
              (fresh self1.capacity, fresh self2.capacity)
              (ping ops1 ops2 rounds 0)
              (pong ops1 ops2 rounds)
              tt)
            n
            (pair m (ret tt) (ret tt) tt)
  round_trips_complete rounds small =
      rally rounds 0 (fresh self1.capacity, fresh self2.capacity) 0
        (record {
          first = fresh-Holds p periodic1 self1 (rounds + rounds) small;
          second = fresh-Holds p periodic2 self2 (rounds + rounds) small;
        })
        here
