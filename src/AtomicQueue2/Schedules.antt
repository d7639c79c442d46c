-- ===== src/AtomicQueue2/Schedules.antt =====
-- Schedules of two threads that call the methods of src/atomic_queue2.rs.
use atomic_queue_rs.Base.{ℕ, inl, ◌≡◌, refl, true, false, arith, [], ◌∷◌, wrapping_add}
use atomic_queue_rs.Program.{
  rem_usize, run, done, failed, panic, ret, stop, debug, undefined, spinning, add_usize, sub_usize,
}
use atomic_queue_rs.Program.Threads.{System, Reach, here, step, Step, interrupted, resumed}
use atomic_queue_rs.Arch.{remap_index}
use atomic_queue_rs.Common.{set_tail}
use atomic_queue_rs.Fifo.{Call, Reply, answer}
use atomic_queue_rs.Common.Tickets.{Bounded}
use atomic_queue_rs.AtomicQueue2.{claim_head, claim_tail, try_push, try_pop, push, pop, ops}
use atomic_queue_rs.AtomicQueue2.Slots.{Shared, state}
use atomic_queue_rs.AtomicQueue2.Types.{at_compile_time, Queue2, fresh}
use atomic_queue_rs.AtomicQueue2.Access.{
  reduce_index, get_slot, push_mpmc, do_push_any, pop_mpmc, do_pop_any,
}
use atomic_queue_rs.AtomicQueue2.Valid.{IsQueue}
use atomic_queue_rs.AtomicQueue2.Holds.{Holds}
use atomic_queue_rs.AtomicQueue2.Unordered.{two_use_one_slot}
use atomic_queue_rs.AtomicQueue2.New.{fresh-Holds}
use atomic_queue_rs.AtomicQueue2.Races.{reads_uninitialized, try_push2-behind_pop}
use atomic_queue_rs.AtomicQueue2.Threads.{Job, job, total_order-Bounded}

abbrev ordered : Queue2
ordered = record {
  variant = at_compile_time;
  maximize_throughput = true;
  total_order = true;
  spsc = false;
  capacity = 4;
  allocated = 4;
  shuffle_bits = 0;
}

abbrev unordered : Queue2
unordered = record ordered { total_order = false }

idle : System (Shared ℕ) (Reply ℕ)
idle = record { memory = fresh 4; thread = λ i. ret (answer true) }

-- Two threads push at once, and one of them loses its ticket.
contended : (t : System (Shared ℕ) (Reply ℕ)) × Reach (Job debug ordered 1) idle 9 t
unfolding idle native.Mathlib.Decide.ℕ_discrete ops try_push try_pop claim_head claim_tail get_slot
    reduce_index rem_usize remap_index do_push_any push_mpmc do_pop_any pop_mpmc sub_usize add_usize
contended = (
  _,
  step
      (step
        (step
          (step
            (step
              (step
                (step
                  (step (step here (Step.start 0 refl (job 0 (Call.try_push 5))))
                    (Step.start 1 refl (job 1 (Call.try_push 6))))
                  (Step.access 0 refl))
                (Step.access 0 refl))
              (Step.access 1 refl))
            (Step.access 1 refl))
          (Step.access 0 refl))
        (Step.access 1 refl))
      (Step.access 0 refl),
)

total_order-Bounded_example : Bounded 4 9 contended.0.memory
unfolding idle
total_order-Bounded_example =
    total_order-Bounded debug ordered refl 1 9 idle contended.0 refl (λ i. (answer true, refl))
      contended.1 (omega arith)

-- A producer has marked its slot FULL and not yet written the element, when a consumer reads it.
consumer_reads_first :
    (t : System (Shared ℕ) (Reply ℕ)) × Reach (Job debug ordered 1) idle 11 t
    × (t.thread 1 ≡ stop undefined)
unfolding idle native.Mathlib.Decide.ℕ_discrete ops try_push try_pop claim_head claim_tail get_slot
    reduce_index rem_usize remap_index do_push_any push_mpmc do_pop_any pop_mpmc sub_usize add_usize
consumer_reads_first = (
  _,
  step
      (step
        (step
          (step
            (step
              (step
                (step
                  (step
                    (step
                      (step (step here (Step.start 0 refl (job 0 (Call.try_push 5))))
                        (Step.access 0 refl))
                      (Step.access 0 refl))
                    (Step.access 0 refl))
                  (Step.access 0 refl))
                (Step.start 1 refl (job 1 Call.try_pop)))
              (Step.access 1 refl))
            (Step.access 1 refl))
          (Step.access 1 refl))
        (Step.access 1 refl))
      (Step.access 1 refl),
  refl,
)

-- Without `TOTAL_ORDER` two producers that have loaded the same `head` use the same slot: `head` counts
-- both, the second one waits for the slot of the first, and the next slot stays empty.
share_a_slot :
    (t : System (Shared ℕ) (Reply ℕ)) × Reach (Job debug unordered 1) idle 11 t
    × (t.memory.common.head ≡ 2)
    × (t.thread 1 ≡ stop spinning)
    × (state 1 t.memory ≡ 0)
unfolding idle native.Mathlib.Decide.ℕ_discrete ops try_push try_pop claim_head claim_tail get_slot
    reduce_index rem_usize remap_index do_push_any push_mpmc do_pop_any pop_mpmc sub_usize add_usize
share_a_slot = (
  _,
  step
      (step
        (step
          (step
            (step
              (step
                (step
                  (step
                    (step
                      (step (step here (Step.start 0 refl (job 0 (Call.try_push 5))))
                        (Step.start 1 refl (job 1 (Call.try_push 6))))
                      (Step.access 0 refl))
                    (Step.access 0 refl))
                  (Step.access 1 refl))
                (Step.access 1 refl))
              (Step.access 0 refl))
            (Step.access 0 refl))
          (Step.access 0 refl))
        (Step.access 1 refl))
      (Step.access 1 refl),
  refl,
  refl,
  refl,
)

ordered-IsQueue : IsQueue true ordered
ordered-IsQueue = record {
  pos = omega arith;
  small = omega arith;
  all = refl;
  power = λ e. (2, refl, omega arith);
  masked = λ e. cc;
  shuffled = inl refl;
}

reads_uninitialized_example :
    (m : Shared ℕ) × (run (pop debug ordered 1) (interrupted 2 (push debug ordered 1 5) (fresh 4))
      ≡ failed m undefined)
unfolding remap_index
reads_uninitialized_example =
    reads_uninitialized {A = ℕ} debug ordered-IsQueue refl 1 0 0 (fresh 4) 5
      (fresh-Holds debug true ordered 2 (omega arith)) refl

try_push2-behind_pop_example :
    run (try_push debug ordered 1 5) (interrupted 1 (pop debug ordered 1) (fresh 4))
    ≡ failed (set_tail 1 (fresh {A = ℕ} 4)) panic
try_push2-behind_pop_example =
    try_push2-behind_pop debug ordered-IsQueue 1 1 1 (fresh 4) 5
      (fresh-Holds debug true ordered 2 (omega arith))

unordered-IsQueue : IsQueue true unordered
unordered-IsQueue = record {
  pos = omega arith;
  small = omega arith;
  all = refl;
  power = λ e. (2, refl, omega arith);
  masked = λ e. cc;
  shuffled = inl refl;
}

two_use_one_slot_example :
    (m1 : Shared ℕ) × (m2 : Shared ℕ) × (run
        (try_push debug unordered 1 6)
        (interrupted 2 (try_push debug unordered 3 5) (fresh 4))
      ≡ done m1 true)
    × Holds debug true unordered 1 m1 (6 ∷ [])
    × (run (resumed 2 (try_push debug unordered 3 5) (fresh 4)) m1 ≡ failed m2 spinning)
    × (m2.common.head ≡ wrapping_add m1.common.head 1)
    × (m2.storage ≡ m1.storage)
two_use_one_slot_example =
    two_use_one_slot {A = ℕ} debug unordered-IsQueue refl 1 (fresh 4) []
      (fresh-Holds debug true unordered 2 (omega arith)) (omega arith) 3 0 5 6
