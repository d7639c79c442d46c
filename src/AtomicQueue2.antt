-- ===== src/AtomicQueue2.antt =====
-- src/atomic_queue2.rs: the queues of arbitrary elements, each slot with a state beside its element.
-- The methods of `AtomicQueue2` and `AtomicQueueB2` have the same text, but for the slot of an index.
pub mod Slots
pub mod Types
pub mod Access
pub mod Valid
pub mod Holds
pub mod Refine
pub mod Take
pub mod Run
pub mod New
pub mod Quiet
pub mod Waits
pub mod Threads
pub mod Races
pub mod Unordered
pub mod Drop
pub mod Spsc
pub mod Conserved
mod Tests
mod Schedules
use atomic_queue_rs.Base.{ℕ, Bool, true, false, not, Option, none, some, leb, ◌==◌, if◌then◌else◌}
use atomic_queue_rs.Program.{Program, ret, ◌>>=◌, ◌>>◌, lift, Profile, add_usize, sub_usize}
use atomic_queue_rs.Common.{
  AtomicQueueOps, load_head, load_tail, fetch_add_head, fetch_add_tail, compare_exchange_head,
  compare_exchange_tail, was_size, was_empty, was_full,
}
use Slots.{Shared}
use Types.{Queue2}
use Access.{get_slot, do_pop_any, do_push_any}

module _ (p : Profile) (self : Queue2) where
  -- The step of `try_push` and `try_pop` that takes a ticket; `false` for a lost compare-exchange.
  unfoldable pub claim_head : {A : Type 0} → ℕ → Program (Shared A) Bool
  claim_head head =
      if self.total_order
      then (do next ← lift (add_usize p head 1); compare_exchange_head head next)
      else (do _ ← fetch_add_head 1; ret true)

  unfoldable pub claim_tail : {A : Type 0} → ℕ → Program (Shared A) Bool
  claim_tail tail =
      if self.total_order
      then (do next ← lift (add_usize p tail 1); compare_exchange_tail tail next)
      else (do _ ← fetch_add_tail 1; ret true)

module _ (p : Profile) {A : Type 0} (self : Queue2) (fuel : ℕ) where
  unfoldable pub try_push : A → Program (Shared A) Bool
  try_push value = do
    head ← load_head
    tail ← load_tail
    size ← lift (sub_usize p head tail)
    if leb self.capacity size then ret false else do
      claimed ← claim_head p self head
      if not claimed
          then ret false
          else do slot ← get_slot p self head; do_push_any self fuel value slot; ret true

  unfoldable pub try_pop : Program (Shared A) (Option A)
  try_pop = do
    tail ← load_tail
    head ← load_head
    if tail == head then ret none else do
      claimed ← claim_tail p self tail
      if not claimed
          then ret none
          else do slot ← get_slot p self tail; value ← do_pop_any self fuel slot; ret (some value)

  -- `TOTAL_ORDER` chooses only the memory ordering here.
  unfoldable pub push : A → Program (Shared A) (Unit {0})
  push value = do
    head ← fetch_add_head 1
    slot ← get_slot p self head
    do_push_any self fuel value slot

  unfoldable pub pop : Program (Shared A) A
  pop = do tail ← fetch_add_tail 1; slot ← get_slot p self tail; do_pop_any self fuel slot

  -- `impl AtomicQueueOps<T> for AtomicQueue2<T, …>`
  unfoldable pub ops : AtomicQueueOps (Shared A) A
  ops = record {
    try_push = try_push;
    try_pop = try_pop;
    push = push;
    pop = pop;
    capacity = self.capacity;
    was_size = was_size p;
    was_empty = was_empty;
    was_full = was_full p self.capacity;
  }

  -- `impl AtomicQueueOps<T> for AtomicQueueB2<T, …>` has the same text.
  unfoldable pub ops_b2 : AtomicQueueOps (Shared A) A
  unfolding ops
  ops_b2 = ops
