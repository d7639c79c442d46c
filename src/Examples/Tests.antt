-- ===== src/Examples/Tests.antt =====
-- Runs of the examples, and the theorems about them.
use atomic_queue_rs.Base.{ℕ, ◌<◌, ◌≡◌, refl, inl, false, arith}
use atomic_queue_rs.Program.{
  ret, debug, ok, undefined, panic, rem_usize, array_layout, sub_usize, add_usize,
}
use atomic_queue_rs.Program.Threads.{NoJob, System, Reach, here, step, Step}
use atomic_queue_rs.Program.Duo.{pair}
use atomic_queue_rs.Program.Still.{Returns}
use atomic_queue_rs.Arch.{round_up_to_power_of_2, smear, remap_index}
use atomic_queue_rs.AtomicQueue.{
  fresh, build, new, new_b, ops, ops_b, push, pop, try_pop, take_value, get_element,
}
use atomic_queue_rs.AtomicQueue.Value.{u32, u64, Shared, load_value, store_value, transmute_copy}
use atomic_queue_rs.AtomicQueue2.{ops as ops2}
use atomic_queue_rs.AtomicQueue2.Slots.{Shared as Shared2}
use atomic_queue_rs.AtomicQueue2.Types.{Queue2, fresh as fresh2, at_compile_time}
use atomic_queue_rs.AtomicQueue2.Valid.{IsQueue}
use atomic_queue_rs.Examples.{consumer, producer, spawned, receiver, sender, throughput, ping, pong}
use atomic_queue_rs.Examples.BasicUsage.{basic_usage_fails}
use atomic_queue_rs.Examples.PingPong.{round_trips_stall}
use atomic_queue_rs.Examples.Shortage.{consumers_starve}
use atomic_queue_rs.Examples.Rally.{Rested, round_trips_complete}

made_b : new_b debug 128 1 ≡ ok (fresh undefined 2)
unfolding new_b build array_layout round_up_to_power_of_2 smear sub_usize add_usize
made_b = refl

made : new debug 128 2 ≡ ok (fresh panic 2)
unfolding new build array_layout round_up_to_power_of_2 smear sub_usize add_usize
made = refl

-- One consumer, one producer of one element.
usage : System Shared ℕ
usage = record {
  memory = (fresh undefined 2).1;
  thread = spawned (ops_b debug (fresh undefined 2).0 u32 1) debug 1 1 1 1;
}

-- The producer has its fault, and the consumer returns.
used : (t : System Shared ℕ) × Reach NoJob usage 3 t × (t.thread 0 ≡ ret 0)
unfolding usage native.Mathlib.Decide.ℕ_discrete spawned consumer producer ops_b ops push try_pop
    take_value get_element load_value store_value transmute_copy sub_usize add_usize
used = (
  _,
  step (step (step here (Step.access 0 refl)) (Step.access 0 refl)) (Step.access 1 refl),
  refl,
)

basic_usage_fails_example : Returns (λ sum. (0 < 1) × (sum ≡ 0)) (used.0.thread 0)
unfolding usage
basic_usage_fails_example =
    basic_usage_fails debug (fresh undefined 2).0 u32 1 1 1 1 0 128 1 (fresh undefined 2).1
      (omega arith) made_b used.1 0 (omega arith)

latency : System (Shared × Shared) (Unit {0})
latency =
    pair ((fresh panic 2).1, (fresh panic 2).1)
      (ping (ops debug (fresh panic 2).0 u64 1) (ops debug (fresh panic 2).0 u64 1) 1 0)
      (pong (ops debug (fresh panic 2).0 u64 1) (ops debug (fresh panic 2).0 u64 1) 1) tt

sent : (t : System (Shared × Shared) (Unit {0})) × Reach NoJob latency 4 t
unfolding latency native.Mathlib.Decide.ℕ_discrete ping pong ops push pop take_value get_element
    load_value store_value transmute_copy sub_usize add_usize
sent = (
  _,
  step (step (step (step here (Step.access 0 refl)) (Step.access 0 refl)) (Step.access 1 refl))
      (Step.access 1 refl),
)

round_trips_stall_example : Returns (λ u. ⊥) (sent.0.thread 0) × Returns (λ u. ⊥) (sent.0.thread 1)
unfolding latency
round_trips_stall_example =
    round_trips_stall debug (fresh panic 2).0 (fresh panic 2).0 u64 1 0 128 2 (fresh panic 2).1
      (fresh panic 2).1 made made sent.1

abbrev three : Queue2
three = record {
  variant = at_compile_time;
  maximize_throughput = false;
  total_order = false;
  spsc = false;
  capacity = 3;
  allocated = 3;
  shuffle_bits = 0;
}

three-IsQueue : IsQueue false three
three-IsQueue = record {
  pos = omega arith;
  small = omega arith;
  all = refl;
  power = λ e. cc;
  masked = λ e. cc;
  shuffled = inl refl;
}

round_trips_complete_example :
    (n : ℕ) × (m : Shared2 ℕ × Shared2 ℕ) × Rested debug three-IsQueue three-IsQueue 0 0 m
    × Reach NoJob
        (pair
          (fresh2 3, fresh2 3)
          (ping (ops2 debug three 1) (ops2 debug three 1) 2 0)
          (pong (ops2 debug three 1) (ops2 debug three 1) 2)
          tt)
        n
        (pair m (ret tt) (ret tt) tt)
round_trips_complete_example =
    round_trips_complete debug three-IsQueue three-IsQueue 0 2 (omega arith)

-- Two producers of one element each, and two consumers that wait for two.
crowd : System (Shared2 ℕ) ℕ
crowd = record { memory = fresh2 3; thread = throughput (ops2 debug three 2) 2 2 2 }

crowded : (t : System (Shared2 ℕ) ℕ) × Reach NoJob crowd 3 t × (t.thread 2 ≡ ret 0)
unfolding crowd native.Mathlib.Decide.ℕ_discrete throughput receiver sender ops2
    atomic_queue_rs.AtomicQueue2.push atomic_queue_rs.AtomicQueue2.Access.get_slot
    atomic_queue_rs.AtomicQueue2.Access.do_push_any atomic_queue_rs.AtomicQueue2.Access.push_mpmc
    atomic_queue_rs.AtomicQueue2.Access.reduce_index rem_usize remap_index
crowded = (
  _,
  step (step (step here (Step.access 2 refl)) (Step.access 2 refl)) (Step.access 2 refl),
  refl,
)

consumers_starve_example : ¬ ((i : ℕ) → (r : ℕ) × (crowded.0.thread i ≡ ret r))
unfolding crowd
consumers_starve_example =
    consumers_starve debug three refl 2 2 2 2 (omega arith) (omega arith) crowded.1
