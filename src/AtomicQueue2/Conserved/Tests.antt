-- ===== src/AtomicQueue2/Conserved/Tests.antt =====
-- Schedules of two and of three threads on a queue in MPMC mode.
use atomic_queue_rs.Base.{ℕ, zero, suc, ◌+◌, ◌≤◌, ◌≡◌, refl, length, false, arith, List, [], ◌∷◌}
use atomic_queue_rs.Program.{ret, debug, rem_usize}
use atomic_queue_rs.Program.Threads.{NoJob, System, Reach, here, step, Step}
use atomic_queue_rs.Program.Still.{Returns}
use atomic_queue_rs.Arch.{remap_index}
use atomic_queue_rs.Common.Traffic.{Action, sends, perform}
use atomic_queue_rs.AtomicQueue2.{push, pop, ops}
use atomic_queue_rs.AtomicQueue2.Slots.{Shared}
use atomic_queue_rs.AtomicQueue2.Types.{at_compile_time, Queue2}
use atomic_queue_rs.AtomicQueue2.Access.{
  reduce_index, get_slot, push_mpmc, do_push_any, pop_mpmc, do_pop_any,
}
use atomic_queue_rs.AtomicQueue2.Conserved.Weights.{count_full, total}
use atomic_queue_rs.AtomicQueue2.Conserved.Outcome.{crew, all_conserved}

abbrev two : Queue2
two = record {
  variant = at_compile_time;
  maximize_throughput = false;
  total_order = false;
  spsc = false;
  capacity = 2;
  allocated = 2;
  shuffle_bits = 0;
}

abbrev jobs : ℕ → List (Action ℕ)
jobs zero = Action.push 5 ∷ Action.push 6 ∷ []
jobs (suc zero) = Action.pop ∷ []
jobs (suc (suc i)) = []

jobs-beyond : (i : ℕ) → 2 ≤ i → jobs i ≡ []
jobs-beyond zero le = absurd (omega arith)
jobs-beyond (suc zero) le = absurd (omega arith)
jobs-beyond (suc (suc i)) le = refl

begin : System (Shared ℕ) (List ℕ × List ℕ)
begin = crew debug two 1 jobs

-- Thread 0 pushes 5, and thread 1 pops it.
passed :
    (t : System (Shared ℕ) (List ℕ × List ℕ)) × Reach NoJob begin 6 t
    × (t.thread 1 ≡ ret ([], 5 ∷ []))
unfolding begin native.Mathlib.Decide.ℕ_discrete perform ops push pop get_slot reduce_index
    rem_usize remap_index do_push_any push_mpmc do_pop_any pop_mpmc
passed = (
  _,
  step
      (step
        (step
          (step (step (step here (Step.access 0 refl)) (Step.access 0 refl)) (Step.access 0 refl))
          (Step.access 1 refl))
        (Step.access 1 refl))
      (Step.access 1 refl),
  refl,
)

all_conserved_example :
    (sents : ℕ → ℕ) × (receiveds : ℕ → ℕ) × (total receiveds 2
        + count_full passed.0.memory.storage.states
      ≤ total sents 2)
    × ((i : ℕ) → sents i ≤ length (sends (jobs i)))
    × ((i : ℕ)
        → Returns (λ r. (length r.0 ≡ sents i) × (length r.1 ≡ receiveds i)) (passed.0.thread i))
unfolding begin
all_conserved_example = all_conserved debug two refl 1 2 jobs jobs-beyond passed.1

abbrev one : Queue2
one = record two { capacity = 1; allocated = 1 }

abbrev calls : ℕ → List (Action ℕ)
calls zero = Action.push 5 ∷ Action.push 6 ∷ []
calls (suc zero) = Action.pop ∷ []
calls (suc (suc zero)) = Action.pop ∷ []
calls (suc (suc (suc i))) = []

racing : System (Shared ℕ) (List ℕ × List ℕ)
racing = crew debug one 1 calls

-- Both consumers receive 5: the slot is FULL for the second push before its element is written, and
-- the first consumer has not yet read.
received_twice :
    (t : System (Shared ℕ) (List ℕ × List ℕ)) × Reach NoJob racing 11 t
    × (t.thread 1 ≡ ret ([], 5 ∷ []))
    × (t.thread 2 ≡ ret ([], 5 ∷ []))
unfolding racing native.Mathlib.Decide.ℕ_discrete perform ops push pop get_slot reduce_index
    rem_usize remap_index do_push_any push_mpmc do_pop_any pop_mpmc
received_twice = (
  _,
  step
      (step
        (step
          (step
            (step
              (step
                (step
                  (step
                    (step (step (step here (Step.access 0 refl)) (Step.access 0 refl))
                      (Step.access 0 refl))
                    (Step.access 1 refl))
                  (Step.access 1 refl))
                (Step.access 0 refl))
              (Step.access 0 refl))
            (Step.access 2 refl))
          (Step.access 2 refl))
        (Step.access 2 refl))
      (Step.access 1 refl),
  refl,
  refl,
)
