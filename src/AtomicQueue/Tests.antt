-- ===== src/AtomicQueue/Tests.antt =====
-- The tests of src/atomic_queue.rs, and the theorems about it at concrete inputs.
use atomic_queue_rs.Base.{
  ℕ, ◌+◌, ◌-◌, ◌^◌, ◌%◌, ◌≡◌, refl, true, false, List, [], ◌∷◌, some, arith, max,
}
use atomic_queue_rs.Program.{
  ret, run, done, failed, ◌>>=◌, debug, release, panic, spinning, add_usize, sub_usize,
}
use atomic_queue_rs.Common.{was_size, was_empty, was_full, set_tail}
use atomic_queue_rs.Common.Client.{run_calls}
use atomic_queue_rs.Fifo.{Call, accepted, popped, size, answer, replies}
use atomic_queue_rs.AtomicQueue.{
  Queue, new, new_b, get_element, try_push, try_pop, take_value, push, pop, ops,
}
use atomic_queue_rs.AtomicQueue.Value.{u64, Shared, load_value, store_value, transmute_copy}
use atomic_queue_rs.AtomicQueue.Valid.{slot, contents, IsQueue, IsValid, get_element_lem}
use atomic_queue_rs.AtomicQueue.Run.{Holds, ops-Implements, run_refines}
use atomic_queue_rs.Common.Optimist.{optimist_push, optimist_pop}
use atomic_queue_rs.Common.Waiting.{optimist_push-full_waits, optimist_pop-empty_waits}
use atomic_queue_rs.AtomicQueue.Waiting.{pop_takes_oldest, push-full_overwrites}
use atomic_queue_rs.AtomicQueue.New.{IsBuilt, queues_are_new}
use atomic_queue_rs.AtomicQueue.Hazards.{zero_blocks}

abbrev pub four : Queue
four = record { capacity = 4; allocated = 4; beyond = panic }

-- 7, 8 and 9, with counters that are about to wrap and one that has.
abbrev wrapped : Shared
wrapped = record { common = record { head = 1; tail = 2 ^ 64 - 2 }; storage = 9 ∷ 0 ∷ 7 ∷ 8 ∷ [] }

abbrev pub empty : Shared
empty = record { common = record { head = 0; tail = 0 }; storage = 0 ∷ 0 ∷ 0 ∷ 0 ∷ [] }

abbrev pub full : Shared
full = record { common = record { head = 4; tail = 0 }; storage = 1 ∷ 2 ∷ 3 ∷ 4 ∷ [] }

pub four-IsQueue : IsQueue four
four-IsQueue = record { log = 2; power = refl; log_small = omega arith; all = refl }

wrapped-IsValid : IsValid four wrapped
wrapped-IsValid = omega arith

pub empty-IsValid : IsValid four empty
empty-IsValid = omega arith

pub full-IsValid : IsValid four full
full-IsValid = omega arith

-- `test_atomic_queue_full`, with four-byte elements replaced by eight-byte ones
abbrev script : List (Call ℕ)
script =
    Call.try_push 1
    ∷ Call.try_push 2
    ∷ Call.was_size
    ∷ Call.was_full
    ∷ Call.try_pop
    ∷ Call.try_pop
    ∷ Call.was_empty
    ∷ []

runs :
    run_calls (ops debug four u64 1) script empty
    ≡ accepted true
      ∷ accepted true
      ∷ size 2
      ∷ answer false
      ∷ popped (some 1)
      ∷ popped (some 2)
      ∷ answer true
      ∷ []
unfolding run_calls ops try_push try_pop take_value get_element was_size was_empty was_full
    load_value store_value transmute_copy add_usize sub_usize
runs = refl

run_refines_example :
    run_calls (ops release four u64 1) script wrapped ≡ replies 4 script (7 ∷ 8 ∷ 9 ∷ [])
run_refines_example =
    run_refines release u64 0 four-IsQueue refl script wrapped (omega arith) wrapped-IsValid tt

pop_takes_oldest_example :
    (m : Shared) × (x : ℕ) × (run (pop release four u64 1) wrapped ≡ done m x)
    × (7 ∷ 8 ∷ 9 ∷ [] ≡ x ∷ contents four m)
    × IsValid four m
pop_takes_oldest_example =
    pop_takes_oldest release four-IsQueue u64 refl wrapped 0 wrapped-IsValid (omega arith)

push-full_overwrites_example :
    (m : Shared) × (run (push debug four u64 5 >>= λ _. try_pop debug four u64 1) full
      ≡ done m (some 5))
push-full_overwrites_example =
    push-full_overwrites debug four-IsQueue u64 refl full 0 5 0 full-IsValid (omega arith)
      (omega arith) (omega arith)

zero_blocks_example :
    (m : Shared) × (run (try_push release four u64 0) empty ≡ done m true)
    × (run (try_pop release four u64 9) m
        ≡ failed (set_tail ((m.common.tail + 1) % 2 ^ 64) m) spinning)
zero_blocks_example = zero_blocks release four-IsQueue u64 empty 0 9 refl empty-IsValid tt refl

get_element_lem_example : get_element debug four 6 ≡ ret (slot four 6)
get_element_lem_example = get_element_lem debug four-IsQueue 6

wrapped-Holds : Holds release four 1 wrapped (7 ∷ 8 ∷ 9 ∷ [])
wrapped-Holds = record { valid = wrapped-IsValid; fits = tt; elements = refl }

full-Holds : Holds release four 5 full (1 ∷ 2 ∷ 3 ∷ 4 ∷ [])
full-Holds = record { valid = full-IsValid; fits = tt; elements = refl }

empty-Holds : Holds release four 5 empty []
empty-Holds = record { valid = empty-IsValid; fits = tt; elements = refl }

optimist_push-full_waits_example :
    (m : Shared) × (run (optimist_push (ops release four u64 1) 5 6) full ≡ failed m spinning)
    × Holds release four 0 m (1 ∷ 2 ∷ 3 ∷ 4 ∷ [])
unfolding ops
optimist_push-full_waits_example =
    optimist_push-full_waits (ops-Implements release u64 0 four-IsQueue refl) 5 full
      (1 ∷ 2 ∷ 3 ∷ 4 ∷ []) 6 full-Holds (omega arith) (omega arith)

optimist_pop-empty_waits_example :
    (m : Shared) × (run (optimist_pop (ops release four u64 1) 5) empty ≡ failed m spinning)
    × Holds release four 0 m []
optimist_pop-empty_waits_example =
    optimist_pop-empty_waits (ops-Implements release u64 0 four-IsQueue refl) 5 empty empty-Holds

queues_are_new_example : IsBuilt 128 3 (new debug 128 3) × IsBuilt 128 (max 3 2) (new_b debug 128 3)
queues_are_new_example = queues_are_new debug 128 3 (omega arith)
