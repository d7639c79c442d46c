-- ===== src/AtomicQueue/History/Tests.antt =====
-- A schedule of three threads, and what holds at its end.
use atomic_queue_rs.Base.{ℕ, zero, suc, ◌-◌, ◌*◌, ◌≡◌, ◌≤◌, refl, arith, List, [], ◌∷◌}
use atomic_queue_rs.Program.{ret, debug, sub_usize, add_usize}
use atomic_queue_rs.Program.Threads.{NoJob, System, Reach, here, step, Step}
use atomic_queue_rs.Program.Within.{Within, accesses}
use atomic_queue_rs.AtomicQueue.WaitFree.{sends_are_wait_free}
use atomic_queue_rs.Common.Traffic.{Action, AllSend, perform}
use atomic_queue_rs.AtomicQueue.{ops, push, pop, try_push, try_pop, take_value, get_element}
use atomic_queue_rs.AtomicQueue.Value.{u64, Shared, load_value, store_value, transmute_copy}
use atomic_queue_rs.AtomicQueue.Valid.{IsElement}
use atomic_queue_rs.AtomicQueue.Tests.{four, four-IsQueue}
use atomic_queue_rs.AtomicQueue.History.Outcome.{team, Accounts, all_accounted}

abbrev jobs : ℕ → List (Action ℕ)
jobs zero = Action.push 5 ∷ []
jobs (suc zero) = Action.try_push 6 ∷ Action.try_push 7 ∷ []
jobs (suc (suc zero)) = Action.try_pop ∷ Action.pop ∷ []
jobs (suc (suc (suc i))) = []

jobs-AllSend : (i : ℕ) → AllSend IsElement (jobs i)
jobs-AllSend zero = omega arith
jobs-AllSend (suc zero) = omega arith
jobs-AllSend (suc (suc zero)) = tt
jobs-AllSend (suc (suc (suc i))) = tt

start : System Shared (List ℕ × List ℕ)
start = team debug four-IsQueue u64 refl 2 jobs

-- The first try of thread 1 loses its ticket to thread 0, and thread 2 waits for the element of
-- thread 0, which is slow.
contended :
    (t : System Shared (List ℕ × List ℕ)) × Reach NoJob start 18 t
    × (t.memory.common.head ≡ 2)
    × (t.memory.common.tail ≡ 2)
    × (t.thread 2 ≡ ret ([], 5 ∷ 7 ∷ []))
unfolding start native.Mathlib.Decide.ℕ_discrete perform ops push pop try_push try_pop take_value
    get_element load_value store_value transmute_copy sub_usize add_usize
contended = (
  _,
  step
      (step
        (step
          (step
            (step
              (step
                (step
                  (step
                    (step
                      (step
                        (step
                          (step
                            (step
                              (step
                                (step
                                  (step (step (step here (Step.access 1 refl)) (Step.access 1 refl))
                                    (Step.access 0 refl))
                                  (Step.access 1 refl))
                                (Step.access 2 refl))
                              (Step.access 2 refl))
                            (Step.access 2 refl))
                          (Step.access 2 refl))
                        (Step.access 1 refl))
                      (Step.access 1 refl))
                    (Step.access 1 refl))
                  (Step.access 1 refl))
                (Step.access 0 refl))
              (Step.access 2 refl))
            (Step.access 2 refl))
          (Step.access 2 refl))
        (Step.access 2 refl))
      (Step.access 2 refl),
  refl,
  refl,
  refl,
)

all_accounted_example :
    (log : ℕ → ℕ) × (pusher : ℕ → ℕ) × (popper : ℕ → ℕ) × ((i : ℕ)
      → Accounts log pusher popper contended.0.memory.common.head contended.0.memory.common.tail i
          (contended.0.thread i))
unfolding start
all_accounted_example =
    all_accounted debug four-IsQueue u64 refl 2 jobs jobs-AllSend contended.1 (omega arith)
      (omega (arith, contended.2)) (omega (arith, contended.3))

-- Thread 1 makes six accesses for two calls.
sends_are_wait_free_example :
    (accesses 1 contended.1 ≤ 4 * 2)
    × Within (4 * 2 - accesses 1 contended.1) (contended.0.thread 1)
unfolding start
sends_are_wait_free_example = sends_are_wait_free debug four u64 2 1 (jobs 1) tt refl contended.1
