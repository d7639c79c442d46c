-- ===== src/Examples/PingPong.antt =====
-- The ping-pong of examples/benchmark.rs on the queues of src/atomic_queue.rs.
use atomic_queue_rs.Base.{ℕ, suc, ◌≡◌}
use atomic_queue_rs.Program.{Profile, ok}
use atomic_queue_rs.Program.Threads.{System, Reach, NoJob}
use atomic_queue_rs.Program.Duo.{pair}
use atomic_queue_rs.Program.Still.{Returns, Still, Still->>=, pair-Returns}
use atomic_queue_rs.Program.Sides.{on_left, on_right, Still-on_left, Still-on_right}
use atomic_queue_rs.AtomicQueue.{Queue, new, ops, push, pop}
use atomic_queue_rs.AtomicQueue.Value.{Element, Shared}
use atomic_queue_rs.Examples.{ping, pong}
use atomic_queue_rs.Examples.Blank.{Blank, new-Blank, pop-Still, push_zero-Still}

abbrev Blanks : Shared × Shared → Type 0
Blanks m = Blank m.0 × Blank m.1

module _ (p : Profile) (self1 self2 : Queue) (T : Element) (wait rounds : ℕ) where
  ping-Still : Still Blanks (λ _. ⊥) (ping (ops p self1 T wait) (ops p self2 T wait) (suc rounds) 0)
  unfolding ping ops
  ping-Still =
      Still->>= Blanks (λ _. Unit) (λ _. ⊥) (on_left (push p self1 T 0)) _
        (Still-on_left Blank Blank (λ _. Unit) (push p self1 T 0) (push_zero-Still p self1 T))
        (λ _ _.
          Still->>= Blanks (λ _. ⊥) (λ _. ⊥) (on_right (pop p self2 T wait)) _
            (Still-on_right Blank Blank (λ _. ⊥) (pop p self2 T wait) (pop-Still p self2 T wait))
            (λ _ stuck. absurd stuck))

  pong-Still : Still Blanks (λ _. ⊥) (pong (ops p self1 T wait) (ops p self2 T wait) (suc rounds))
  unfolding pong ops
  pong-Still =
      Still->>= Blanks (λ _. ⊥) (λ _. ⊥) (on_left (pop p self1 T wait)) _
        (Still-on_left Blank Blank (λ _. ⊥) (pop p self1 T wait) (pop-Still p self1 T wait))
        (λ _ stuck. absurd stuck)

  -- In the ping-pong benchmark with at least one round, on two new AtomicQueues of any elements,
  -- neither thread ever returns, in any run and whatever the fuel: the first element is 0, the mark
  -- of an empty slot.
  pub round_trips_stall :
      (padded size : ℕ) (m1 m2 : Shared) {k : ℕ} {t : System (Shared × Shared) (Unit {0})}
      → new p padded size ≡ ok (self1, m1)
      → new p padded size ≡ ok (self2, m2)
      → Reach NoJob
          (pair
            (m1, m2)
            (ping (ops p self1 T wait) (ops p self2 T wait) (suc rounds) 0)
            (pong (ops p self1 T wait) (ops p self2 T wait) (suc rounds))
            tt)
          k
          t
      → Returns (λ u. ⊥) (t.thread 0) × Returns (λ u. ⊥) (t.thread 1)
  round_trips_stall padded size m1 m2 made1 made2 run =
      pair-Returns Blanks (λ _. ⊥) (m1, m2)
        (ping (ops p self1 T wait) (ops p self2 T wait) (suc rounds) 0)
        (pong (ops p self1 T wait) (ops p self2 T wait) (suc rounds)) tt
        (new-Blank p padded size self1 m1 made1, new-Blank p padded size self2 m2 made2) ping-Still
        pong-Still run
