-- ===== src/AtomicQueue.antt =====
-- src/atomic_queue.rs: the queues of elements that fit an atomic word. The methods of `AtomicQueue` and
-- `AtomicQueueB` have the same text, but for the access to a slot.
pub mod Value
pub mod Valid
pub mod Refine
pub mod Contents
pub mod Run
pub mod Waiting
pub mod New
pub mod Hazards
pub mod Races
pub mod Threads
pub mod Once
pub mod History
pub mod WaitFree
mod Tests
mod Schedules
use atomic_queue_rs.Base.{
  ℕ, zero, suc, Bool, true, false, not, Option, none, some, ltb, leb, ◌==◌, if◌then◌else◌, bit_and,
  replicate, max,
}
use atomic_queue_rs.Program.{
  Program, ret, stop, ◌>>=◌, ◌>>◌, lift, Profile, Fault, panic, undefined, spinning, Result, ok,
  fault, add_usize, sub_usize, array_layout,
}
use atomic_queue_rs.Arch.{spin_loop_pause, round_up_to_power_of_2}
use atomic_queue_rs.Common.{
  AtomicQueueOps, new_common, load_head, load_tail, fetch_add_head, fetch_add_tail,
  compare_exchange_head, compare_exchange_tail, was_size, was_empty, was_full,
}
use Value.{Element, Shared, load_value, store_value}

-- The fields of a queue that no method changes: `capacity`, the number of elements allocated for
-- `elements`, and what an access beyond them does (a slice panics, a raw pointer is undefined).
pub record Queue : Type 0 where
  pub capacity : ℕ
  pub allocated : ℕ
  pub beyond : Fault

-- `AtomicQueueB` has the same fields; its `elements` is a raw pointer.
abbrev pub QueueB : Type 0
QueueB = Queue

-- A queue as its constructor leaves it, beside what its threads will share.
abbrev pub fresh : Fault → ℕ → Queue × Shared
fresh beyond capacity = (
  record { capacity = capacity; allocated = capacity; beyond = beyond },
  record { common = new_common; storage = replicate capacity 0 },
)

-- A queue of the given capacity, if there may be an array of that size.
unfoldable pub build : Fault → (padded capacity : ℕ) → Result (Queue × Shared)
build beyond padded capacity = elim (array_layout padded capacity) [
  | ok room ↦ ok (fresh beyond capacity)
  | fault e ↦ fault e
]

module _ (p : Profile) where
  -- `AtomicQueue::<T, SIZE>::new`; `padded` is `size_of::<CachePadded<AtomicValue<T>>>()`.
  unfoldable pub new : (padded size : ℕ) → Result (Queue × Shared)
  unfolding build
  new padded size = elim (round_up_to_power_of_2 p size) [
    | ok capacity ↦ build panic padded capacity
    | fault e ↦ fault e
  ]

  -- `AtomicQueueB::<T>::new`
  unfoldable pub new_b : (padded size : ℕ) → Result (Queue × Shared)
  unfolding build
  new_b padded size = elim (round_up_to_power_of_2 p (max size 2)) [
    | ok capacity ↦ build undefined padded capacity
    | fault e ↦ fault e
  ]

  module _ (self : Queue) where
    -- The slot for an index.
    unfoldable pub get_element : ℕ → Program Shared ℕ
    get_element index = do
      mask ← lift (sub_usize p self.capacity 1)
      let idx = bit_and index mask
      if ltb idx self.allocated then ret idx else stop self.beyond

    -- The same of `AtomicQueueB`, where the slot is reached by pointer arithmetic.
    unfoldable pub get_element_b : ℕ → Program Shared ℕ
    get_element_b = get_element

    module _ (T : Element) where
      unfoldable pub try_push : ℕ → Program Shared Bool
      try_push element = do
        head ← load_head
        tail ← load_tail
        size ← lift (sub_usize p head tail)
        if leb self.capacity size then ret false else do
          next ← lift (add_usize p head 1)
          won ← compare_exchange_head head next
          if not won
              then ret false
              else do slot ← get_element head; store_value T slot element; ret true

      -- The loop of `try_pop` and `pop`; the fuel bounds its rounds.
      unfoldable pub take_value : ℕ → ℕ → Program Shared ℕ
      take_value zero slot = stop spinning
      take_value (suc fuel) slot = do
        current ← load_value T slot
        let again = spin_loop_pause >> take_value fuel slot
        let taken = store_value T slot 0 >> ret current
        if current == 0 then again else taken

      unfoldable pub try_pop : ℕ → Program Shared (Option ℕ)
      try_pop fuel = do
        tail ← load_tail
        head ← load_head
        if tail == head then ret none else do
          next ← lift (add_usize p tail 1)
          won ← compare_exchange_tail tail next
          if not won
              then ret none
              else do slot ← get_element tail; current ← take_value fuel slot; ret (some current)

      unfoldable pub push : ℕ → Program Shared (Unit {0})
      push element = do head ← fetch_add_head 1; slot ← get_element head; store_value T slot element

      unfoldable pub pop : ℕ → Program Shared ℕ
      pop fuel = do tail ← fetch_add_tail 1; slot ← get_element tail; take_value fuel slot

      -- `impl AtomicQueueOps<T> for AtomicQueue<T, SIZE>`; a wait loop makes at most `fuel` rounds.
      unfoldable pub ops : ℕ → AtomicQueueOps Shared ℕ
      ops fuel = record {
        try_push = try_push;
        try_pop = try_pop fuel;
        push = push;
        pop = pop fuel;
        capacity = self.capacity;
        was_size = was_size p;
        was_empty = was_empty;
        was_full = was_full p self.capacity;
      }

      -- `impl AtomicQueueOps<T> for AtomicQueueB<T>` has the same text.
      unfoldable pub ops_b : ℕ → AtomicQueueOps Shared ℕ
      unfolding ops
      ops_b = ops

module _ (self : Queue) where
  -- The loop of `AtomicQueueB::drop`, from slot `i` on, with `k` rounds to go. To drop an `AtomicValue`
  -- has no effect, since an `Element` is `Copy`.
  unfoldable pub drop_b_from : (k i : ℕ) → Program Shared (Unit {0})
  drop_b_from zero i = ret tt
  drop_b_from (suc k) i = do
    (if ltb i self.allocated then ret tt else stop self.beyond)
    drop_b_from k (suc i)

  -- `AtomicQueueB::drop`, but for the deallocation.
  unfoldable pub drop_b : Program Shared (Unit {0})
  drop_b = drop_b_from self.capacity 0
