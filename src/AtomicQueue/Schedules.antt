-- ===== src/AtomicQueue/Schedules.antt =====
-- Schedules of two threads that call the methods of src/atomic_queue.rs.
use atomic_queue_rs.Base.{ℕ, ◌≡◌, refl, true, false, some, arith}
use atomic_queue_rs.Program.{run, done, stop, ret, debug, release, panic, add_usize, sub_usize}
use atomic_queue_rs.Common.{was_size, set_tail}
use atomic_queue_rs.Fifo.{Call, answer, Reply}
use atomic_queue_rs.AtomicQueue.{get_element, try_push, try_pop, take_value, pop, ops}
use atomic_queue_rs.AtomicQueue.Value.{u64, Shared, load_value, store_value, transmute_copy}
use atomic_queue_rs.Program.Threads.{System, Reach, here, step, Step, interrupted, resumed}
use atomic_queue_rs.Common.Tickets.{Bounded}
use atomic_queue_rs.AtomicQueue.Threads.{Job, job, threads-Bounded}
use atomic_queue_rs.AtomicQueue.Tests.{four, empty, full, four-IsQueue, empty-IsValid, full-IsValid}
use atomic_queue_rs.AtomicQueue.Races.{slot_reused, try_push-behind_pop}

idle : System Shared (Reply ℕ)
idle = record { memory = empty; thread = λ i. ret (answer true) }

-- One thread pushes, and another one asks for the size between its accesses.
interleaved : (t : System Shared (Reply ℕ)) × Reach (Job debug four u64 1) idle 6 t
unfolding idle native.Mathlib.Decide.ℕ_discrete ops try_push sub_usize add_usize was_size
interleaved = (
  _,
  step
      (step
        (step
          (step
            (step (step here (Step.start 0 refl (job 0 (Call.try_push 5))))
              (Step.start 1 refl (job 1 Call.was_size)))
            (Step.access 0 refl))
          (Step.access 0 refl))
        (Step.access 0 refl))
      (Step.access 1 refl),
)

threads-Bounded_example : Bounded 4 6 interleaved.0.memory
unfolding idle
threads-Bounded_example =
    threads-Bounded debug four u64 1 6 idle interleaved.0 refl (λ i. (answer true, refl))
      interleaved.1 (omega arith)

-- A thread that asks for the size has loaded `head`, and before it loads `tail` another one pushes and
-- pops: in a debug build the difference of the counters panics.
was_size_panics :
    (t : System Shared (Reply ℕ)) × Reach (Job debug four u64 1) idle 14 t
    × (t.thread 0 ≡ stop panic)
unfolding idle native.Mathlib.Decide.ℕ_discrete ops try_push try_pop take_value get_element
    load_value store_value transmute_copy sub_usize add_usize was_size
was_size_panics = (
  _,
  step
      (step
        (step
          (step
            (step
              (step
                (step
                  (step
                    (step
                      (step
                        (step
                          (step
                            (step (step here (Step.start 0 refl (job 0 Call.was_size)))
                              (Step.access 0 refl))
                            (Step.start 1 refl (job 1 (Call.try_push 5))))
                          (Step.access 1 refl))
                        (Step.access 1 refl))
                      (Step.access 1 refl))
                    (Step.access 1 refl))
                  (Step.start 1 refl (job 1 Call.try_pop)))
                (Step.access 1 refl))
              (Step.access 1 refl))
            (Step.access 1 refl))
          (Step.access 1 refl))
        (Step.access 1 refl))
      (Step.access 0 refl),
  refl,
)

slot_reused_example :
    (m1 : Shared) × (m2 : Shared) × (run
        (try_push debug four u64 9)
        (interrupted 3 (try_pop debug four u64 1) full)
      ≡ done m1 true)
    × (run (resumed 3 (try_pop debug four u64 1) full) m1 ≡ done m2 (some 9))
slot_reused_example =
    slot_reused debug four-IsQueue u64 full 0 full-IsValid (omega arith) refl 9 0 refl (omega arith)

try_push-behind_pop_example :
    run (try_push release four u64 9) (interrupted 1 (pop release four u64 1) empty)
    ≡ done (set_tail 1 empty) false
try_push-behind_pop_example =
    try_push-behind_pop release four-IsQueue u64 empty 0 1 9 empty-IsValid tt refl
