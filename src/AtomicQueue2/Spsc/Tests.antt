-- ===== src/AtomicQueue2/Spsc/Tests.antt =====
-- A schedule of one producer and one consumer, and what holds at its end.
use atomic_queue_rs.Base.{
  ℕ, inl, ◌≡◌, refl, true, false, arith, List, [], ◌∷◌, ◌≤◌, ◌+◌, length, take, skip,
}
use mathlib.Core.List.{Perm}
use atomic_queue_rs.AtomicQueue2.Drop.{drop}
use atomic_queue_rs.AtomicQueue2.Spsc.Rest.{rest_dropped}
use atomic_queue_rs.Program.{run, done, ret, stop, debug, spinning, rem_usize, sub_usize}
use atomic_queue_rs.Program.Threads.{NoJob, System, Reach, here, step, Step}
use atomic_queue_rs.Program.Duo.{pair, Ends}
use atomic_queue_rs.Arch.{remap_index}
use atomic_queue_rs.Common.Optimist.{optimist_push, optimist_pop}
use atomic_queue_rs.AtomicQueue2.{push, pop, ops, try_push, try_pop, claim_head, claim_tail}
use atomic_queue_rs.AtomicQueue2.Spsc.Optimist.{optimist_fifo}
use atomic_queue_rs.AtomicQueue2.Slots.{Shared}
use atomic_queue_rs.AtomicQueue2.Types.{at_compile_time, Queue2, fresh}
use atomic_queue_rs.AtomicQueue2.Access.{
  reduce_index, get_slot, push_spsc, do_push_any, pop_spsc, do_pop_any,
}
use atomic_queue_rs.AtomicQueue2.Valid.{IsQueue}
use atomic_queue_rs.Program.Streams.{produce, consume}
use atomic_queue_rs.AtomicQueue2.Spsc.Turns.{spsc_completes}
use atomic_queue_rs.AtomicQueue2.Spsc.Fifo.{spsc_fifo}

abbrev single : Queue2
single = record {
  variant = at_compile_time;
  maximize_throughput = false;
  total_order = false;
  spsc = true;
  capacity = 3;
  allocated = 3;
  shuffle_bits = 0;
}

single-IsQueue : IsQueue false single
single-IsQueue = record {
  pos = omega arith;
  small = omega arith;
  all = refl;
  power = λ e. cc;
  masked = λ e. cc;
  shuffled = inl refl;
}

start : System (Shared ℕ) (List ℕ)
start =
    pair (fresh 3) (produce (push debug single 1) (5 ∷ 6 ∷ [])) (consume (pop debug single 1) 1) []

-- The consumer is done, and the producer is in its second push.
overlapping : (t : System (Shared ℕ) (List ℕ)) × Reach NoJob start 9 t × (t.thread 1 ≡ ret (5 ∷ []))
unfolding start native.Mathlib.Decide.ℕ_discrete produce consume push pop get_slot reduce_index
    rem_usize remap_index do_push_any push_spsc do_pop_any pop_spsc
overlapping = (
  _,
  step
      (step
        (step
          (step
            (step
              (step
                (step (step (step here (Step.access 0 refl)) (Step.access 1 refl))
                  (Step.access 0 refl))
                (Step.access 0 refl))
              (Step.access 0 refl))
            (Step.access 1 refl))
          (Step.access 1 refl))
        (Step.access 0 refl))
      (Step.access 1 refl),
  refl,
)

spsc_fifo_example :
    Ends
      (λ ys. (ys ≡ take 1 (5 ∷ 6 ∷ [])) × (1 ≤ length {A = ℕ} (5 ∷ 6 ∷ [])))
      (overlapping.0.thread 1)
    × Ends (λ ys. Unit) (overlapping.0.thread 0)
unfolding start
spsc_fifo_example =
    spsc_fifo debug single-IsQueue refl 1 (5 ∷ 6 ∷ []) 1 (omega arith) (omega arith) overlapping.1

-- Here the consumer comes first, and gives up.
impatient : (t : System (Shared ℕ) (List ℕ)) × Reach NoJob start 2 t × (t.thread 1 ≡ stop spinning)
unfolding start native.Mathlib.Decide.ℕ_discrete produce consume push pop get_slot reduce_index
    rem_usize remap_index do_push_any push_spsc do_pop_any pop_spsc
impatient = (_, step (step here (Step.access 1 refl)) (Step.access 1 refl), refl)

spsc_completes_example :
    (n : ℕ) × (t : System (Shared ℕ) (List ℕ)) × Reach NoJob start n t
    × (t.thread 1 ≡ ret (take 1 (5 ∷ 6 ∷ [])))
unfolding start
spsc_completes_example =
    spsc_completes debug single-IsQueue 0 1 (5 ∷ 6 ∷ []) (omega arith) (omega arith)

trying : System (Shared ℕ) (List ℕ)
trying =
    pair (fresh 3) (produce (optimist_push (ops debug single 1) 2) (5 ∷ 6 ∷ []))
      (consume (optimist_pop (ops debug single 1) 2) 1) []

-- The first try of the consumer fails, and its second one succeeds.
retried : (t : System (Shared ℕ) (List ℕ)) × Reach NoJob trying 14 t × (t.thread 1 ≡ ret (5 ∷ []))
unfolding trying native.Mathlib.Decide.ℕ_discrete produce consume optimist_push optimist_pop ops
    try_push try_pop claim_head claim_tail get_slot reduce_index rem_usize remap_index do_push_any
    push_spsc do_pop_any pop_spsc sub_usize
retried = (
  _,
  step
      (step
        (step
          (step
            (step
              (step
                (step
                  (step
                    (step
                      (step
                        (step
                          (step (step (step here (Step.access 1 refl)) (Step.access 0 refl))
                            (Step.access 0 refl))
                          (Step.access 1 refl))
                        (Step.access 0 refl))
                      (Step.access 0 refl))
                    (Step.access 1 refl))
                  (Step.access 1 refl))
                (Step.access 0 refl))
              (Step.access 0 refl))
            (Step.access 1 refl))
          (Step.access 1 refl))
        (Step.access 1 refl))
      (Step.access 1 refl),
  refl,
)

optimist_fifo_example :
    (retried.0.memory.common.tail ≤ retried.0.memory.common.head)
    × (retried.0.memory.common.head ≤ retried.0.memory.common.tail + 3)
    × Ends
        (λ ys. (ys ≡ take 1 (5 ∷ 6 ∷ [])) × (1 ≤ length {A = ℕ} (5 ∷ 6 ∷ [])))
        (retried.0.thread 1)
    × Ends (λ ys. Unit) (retried.0.thread 0)
unfolding trying
optimist_fifo_example =
    optimist_fifo debug single-IsQueue refl 1 2 (5 ∷ 6 ∷ []) 1 (omega arith) (omega arith) retried.1

-- Both threads are done, and one element is left.
finished :
    (t : System (Shared ℕ) (List ℕ)) × Reach NoJob trying 18 t
    × (t.thread 0 ≡ ret [])
    × (t.thread 1 ≡ ret (5 ∷ []))
unfolding trying native.Mathlib.Decide.ℕ_discrete produce consume optimist_push optimist_pop ops
    try_push try_pop claim_head claim_tail get_slot reduce_index rem_usize remap_index do_push_any
    push_spsc do_pop_any pop_spsc sub_usize
finished = (
  _,
  step
      (step
        (step
          (step
            (step
              (step
                (step
                  (step
                    (step
                      (step
                        (step
                          (step
                            (step
                              (step
                                (step
                                  (step (step (step here (Step.access 0 refl)) (Step.access 0 refl))
                                    (Step.access 0 refl))
                                  (Step.access 0 refl))
                                (Step.access 0 refl))
                              (Step.access 0 refl))
                            (Step.access 1 refl))
                          (Step.access 1 refl))
                        (Step.access 1 refl))
                      (Step.access 1 refl))
                    (Step.access 1 refl))
                  (Step.access 1 refl))
                (Step.access 0 refl))
              (Step.access 0 refl))
            (Step.access 0 refl))
          (Step.access 0 refl))
        (Step.access 0 refl))
      (Step.access 0 refl),
  refl,
  refl,
)

rest_dropped_example :
    (m : Shared ℕ) × (dropped : List ℕ) × (run (drop debug single) finished.0.memory
      ≡ done m dropped)
    × Perm dropped (skip 1 (5 ∷ 6 ∷ []))
unfolding trying
rest_dropped_example =
    rest_dropped debug single-IsQueue refl 1 2 (5 ∷ 6 ∷ []) 1 (omega arith) (omega arith) finished.1
      [] (5 ∷ []) finished.2 finished.3
