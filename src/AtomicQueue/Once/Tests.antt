-- ===== src/AtomicQueue/Once/Tests.antt =====
-- A schedule of one producer and one consumer, and what holds at its end.
use atomic_queue_rs.Base.{ℕ, ◌≡◌, ◌≤◌, refl, arith, List, [], ◌∷◌, length, take}
use atomic_queue_rs.Program.{ret, debug, sub_usize}
use atomic_queue_rs.Program.Threads.{NoJob, System, Reach, here, step, Step}
use atomic_queue_rs.Program.Duo.{pair, Ends}
use atomic_queue_rs.Program.Streams.{produce, consume}
use atomic_queue_rs.AtomicQueue.{fresh, push, pop, take_value, get_element}
use atomic_queue_rs.AtomicQueue.Value.{u64, Shared, load_value, store_value, transmute_copy}
use atomic_queue_rs.AtomicQueue.Tests.{four, four-IsQueue}
use atomic_queue_rs.AtomicQueue.Once.Fifo.{once_fifo}

start : System Shared (List ℕ)
start =
    pair (fresh four.beyond 4).1 (produce (push debug four u64) (5 ∷ 6 ∷ []))
      (consume (pop debug four u64 2) 1) []

-- The consumer looks once before the first element is there, and is done while the producer is in its
-- second push.
overlapping : (t : System Shared (List ℕ)) × Reach NoJob start 7 t × (t.thread 1 ≡ ret (5 ∷ []))
unfolding start native.Mathlib.Decide.ℕ_discrete produce consume push pop take_value get_element
    load_value store_value transmute_copy sub_usize
overlapping = (
  _,
  step
      (step
        (step
          (step
            (step (step (step here (Step.access 0 refl)) (Step.access 1 refl)) (Step.access 1 refl))
            (Step.access 0 refl))
          (Step.access 1 refl))
        (Step.access 0 refl))
      (Step.access 1 refl),
  refl,
)

once_fifo_example :
    Ends
      (λ ys. (ys ≡ take 1 (5 ∷ 6 ∷ [])) × (1 ≤ length {A = ℕ} (5 ∷ 6 ∷ [])))
      (overlapping.0.thread 1)
    × Ends (λ ys. Unit) (overlapping.0.thread 0)
unfolding start
once_fifo_example =
    once_fifo debug four-IsQueue u64 refl 2 (5 ∷ 6 ∷ [])
      ((omega arith, omega arith), ((omega arith, omega arith), tt)) (omega arith) 1 (omega arith)
      overlapping.1
