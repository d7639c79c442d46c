-- ===== src/AtomicQueue2/Tests.antt =====
-- The tests of src/atomic_queue2.rs, and the theorems about it at concrete inputs.
use atomic_queue_rs.Base.{ℕ, ◌≡◌, refl, true, false, List, [], ◌∷◌, ◌++◌, none, some, arith, inl}
use atomic_queue_rs.Program.{rem_usize, ret, run, done, debug, release, add_usize, sub_usize}
use atomic_queue_rs.Arch.{x86, remap_index}
use atomic_queue_rs.Arch.RoundUp.{IsLeastPower}
use atomic_queue_rs.Common.{was_size, was_empty, was_full}
use atomic_queue_rs.Common.Client.{run_calls}
use atomic_queue_rs.Fifo.{Call, accepted, popped, size, answer, replies}
use atomic_queue_rs.AtomicQueue2.{claim_head, claim_tail, try_push, try_pop, push, pop, ops}
use atomic_queue_rs.AtomicQueue2.Slots.{Shared}
use atomic_queue_rs.AtomicQueue2.Types.{at_compile_time, Queue2, new, new_b2, fresh}
use atomic_queue_rs.AtomicQueue2.Access.{
  reduce_index, get_slot, push_mpmc, do_push_any, pop_mpmc, do_pop_any,
}
use atomic_queue_rs.AtomicQueue2.Valid.{slot, IsQueue, get_slot_lem}
use atomic_queue_rs.AtomicQueue2.Holds.{Holds}
use atomic_queue_rs.AtomicQueue2.Run.{run_calls_refines, push_enqueues, pop_dequeues}
use mathlib.Core.List.{Perm}
use atomic_queue_rs.AtomicQueue2.Drop.{drop, drop_from, drop_index, drop_slot}
use atomic_queue_rs.AtomicQueue2.Drop.Laws.{drop-perm}
use atomic_queue_rs.AtomicQueue2.New.{IsBuilt, queues2_are_new}

-- Five slots, so the capacity is no power of two.
abbrev five : Queue2
five = record {
  variant = at_compile_time;
  maximize_throughput = true;
  total_order = false;
  spsc = false;
  capacity = 5;
  allocated = 5;
  shuffle_bits = 0;
}

five-IsQueue : IsQueue false five
five-IsQueue = record {
  pos = omega arith;
  small = omega arith;
  all = refl;
  power = λ e. cc;
  masked = λ e. cc;
  shuffled = inl refl;
}

-- 7 and 8, in the last slot and the first
abbrev two : Shared ℕ
two = record {
  common = record { head = 11; tail = 9 };
  storage = record {
    states = 1 ∷ 0 ∷ 0 ∷ 0 ∷ 1 ∷ [];
    elements = some 8 ∷ none ∷ none ∷ none ∷ some 7 ∷ [];
  };
}

two-Holds : Holds debug false five 7 two (7 ∷ 8 ∷ [])
unfolding remap_index
two-Holds = record {
  states_sized = refl;
  elements_sized = refl;
  counts = record { head_word = omega arith; tail_word = omega arith; within = omega arith };
  fits = (omega arith, omega arith);
  stored = refl;
  full = refl;
  free = refl;
}

-- `test_i32_queue_operations` of tests/equivalence_test.rs, but for its two waiting calls
abbrev script : List (Call ℕ)
script =
    Call.was_empty
    ∷ Call.try_push 1
    ∷ Call.was_size
    ∷ Call.try_push 2
    ∷ Call.try_pop
    ∷ Call.try_pop
    ∷ Call.try_pop
    ∷ []

runs :
    run_calls (ops debug five 1) script (fresh 5)
    ≡ answer true
      ∷ accepted true
      ∷ size 1
      ∷ accepted true
      ∷ popped (some 1)
      ∷ popped (some 2)
      ∷ popped none
      ∷ []
unfolding run_calls ops try_push try_pop claim_head claim_tail get_slot reduce_index do_push_any
    push_mpmc do_pop_any pop_mpmc was_size was_empty was_full rem_usize add_usize sub_usize
    remap_index
runs = refl

run_calls_refines_example : run_calls (ops debug five 1) script two ≡ replies 5 script (7 ∷ 8 ∷ [])
run_calls_refines_example =
    run_calls_refines debug 0 five-IsQueue script two (7 ∷ 8 ∷ []) (omega arith) two-Holds

push_enqueues_example :
    (m : Shared ℕ) × (run (push debug five 1 9) two ≡ done m tt)
    × Holds debug false five 6 m ((7 ∷ 8 ∷ []) ++ 9 ∷ [])
push_enqueues_example =
    push_enqueues debug five-IsQueue 0 6 two (7 ∷ 8 ∷ []) 9 two-Holds (omega arith)

pop_dequeues_example :
    (m : Shared ℕ) × (run (pop debug five 1) two ≡ done m 7) × Holds debug false five 6 m (8 ∷ [])
pop_dequeues_example = pop_dequeues debug five-IsQueue 0 6 two 7 (8 ∷ []) two-Holds

get_slot_lem_example : get_slot debug five {A = ℕ} 9 ≡ ret (slot five 9)
get_slot_lem_example = get_slot_lem five-IsQueue debug 9

dropped : (m : Shared ℕ) × (run (drop debug five) two ≡ done m (8 ∷ 7 ∷ []))
unfolding drop drop_from drop_index drop_slot remap_index
dropped = (_, refl)

drop-perm_example :
    (m : Shared ℕ) × (ds : List ℕ) × (run (drop debug five) two ≡ done m ds) × Perm ds (7 ∷ 8 ∷ [])
drop-perm_example = drop-perm debug five-IsQueue 7 two (7 ∷ 8 ∷ []) two-Holds

queues2_are_new_example :
    IsBuilt {A = ℕ} release true
      (IsLeastPower 1000)
      128
      4
      (new release x86 128 4 1000 true true false false)
    × IsBuilt {A = ℕ} release false
        (λ c. c ≡ 1000)
        128
        4
        (new release x86 128 4 1000 false true false false)
    × IsBuilt {A = ℕ} release true
        (IsLeastPower 1000)
        128
        4
        (new_b2 release x86 128 4 1000 true false false)
queues2_are_new_example =
    queues2_are_new release x86 128 4 1000 true false false (omega arith) (omega arith)
      (omega arith)
