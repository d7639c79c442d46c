-- ===== src/AtomicQueue2/Types.antt =====
-- The types `AtomicQueue2` and `AtomicQueueB2` of src/atomic_queue2.rs, and their constructors.
use atomic_queue_rs.Base.{ℕ, ◌/◌, Bool, true, none, if◌then◌else◌, replicate}
use atomic_queue_rs.Program.{Profile, Fault, panic, undefined, Result, ok, fault, array_layout}
use atomic_queue_rs.Arch.{Target, cache_line_size, round_up_to_power_of_2, get_index_shuffle_bits}
use atomic_queue_rs.Common.{new_common}
use atomic_queue_rs.AtomicQueue2.Slots.{Shared, empty_mark}

-- The two types of queue.
pub data Variant : Type 0 where
  at_compile_time : Variant
  at_run_time : Variant

-- The parameters and fields of a queue that no method changes. `allocated` is the length of both
-- arrays.
pub record Queue2 : Type 0 where
  pub variant : Variant
  pub maximize_throughput : Bool
  pub total_order : Bool
  pub spsc : Bool
  pub capacity : ℕ
  pub allocated : ℕ
  pub shuffle_bits : ℕ

-- `AtomicQueueB2` has the same fields; its arrays are raw pointers, and it always minimizes contention.
abbrev pub QueueB2 : Type 0
QueueB2 = Queue2

-- What an access beyond the arrays does: a slice panics, a raw pointer is undefined.
abbrev pub beyond : Variant → Fault
beyond at_compile_time = panic
beyond at_run_time = undefined

module _ {A : Type 0} where
  -- The arrays of a new queue: every state EMPTY, every element uninitialized.
  abbrev pub fresh : ℕ → Shared A
  fresh capacity = record {
    common = new_common;
    storage = record { states = replicate capacity empty_mark; elements = replicate capacity none };
  }

-- A queue on the two arrays, if there may be arrays of that size. `padded` is
-- `size_of::<CachePadded<AtomicU8>>()`, and `bytes` the size of an element, which is not 0.
unfoldable pub build : {A : Type 0} → (padded bytes : ℕ) → Queue2 → Result (Queue2 × Shared A)
build padded bytes self = elim (array_layout padded self.capacity) [
  | ok states ↦ elim (array_layout bytes self.capacity) [
    | ok elements ↦ ok (self, fresh self.capacity)
    | fault e ↦ fault e
  ]
  | fault e ↦ fault e
]

module _ (p : Profile) (target : Target) where
  -- `AtomicQueue2::new`
  unfoldable pub new :
      {A : Type 0} (padded bytes size : ℕ)
      (minimize_contention maximize_throughput total_order spsc : Bool)
      → Result (Queue2 × Shared A)
  unfolding build
  new padded bytes size minimize_contention maximize_throughput total_order spsc =
      elim (if minimize_contention then round_up_to_power_of_2 p size else ok size) [
        | ok capacity ↦
            let elements_per_cache_line = cache_line_size target / padded in
            build padded bytes (record {
              variant = at_compile_time;
              maximize_throughput = maximize_throughput;
              total_order = total_order;
              spsc = spsc;
              capacity = capacity;
              allocated = capacity;
              shuffle_bits =
                  get_index_shuffle_bits minimize_contention capacity elements_per_cache_line;
            })
        | fault e ↦ fault e
      ]

  -- `AtomicQueueB2::new`
  unfoldable pub new_b2 :
      {A : Type 0} (padded bytes size : ℕ) (maximize_throughput total_order spsc : Bool)
      → Result (Queue2 × Shared A)
  unfolding build
  new_b2 padded bytes size maximize_throughput total_order spsc =
      elim (round_up_to_power_of_2 p size) [
        | ok capacity ↦
            let elements_per_cache_line = cache_line_size target / padded in
            build padded bytes (record {
              variant = at_run_time;
              maximize_throughput = maximize_throughput;
              total_order = total_order;
              spsc = spsc;
              capacity = capacity;
              allocated = capacity;
              shuffle_bits = get_index_shuffle_bits true capacity elements_per_cache_line;
            })
        | fault e ↦ fault e
      ]
