-- ===== src/AtomicQueue2/Access.antt =====
-- `get_slot`, `do_pop_any` and `do_push_any` of src/atomic_queue2.rs. The fuel of a loop bounds its
-- rounds.
use atomic_queue_rs.Base.{ℕ, zero, suc, not, ltb, ◌==◌, if◌then◌else◌, bit_and}
use atomic_queue_rs.Program.{
  rem_usize, Program, ret, stop, ◌>>=◌, ◌>>◌, lift, Profile, spinning, Result, ok, fault, sub_usize,
}
use atomic_queue_rs.Arch.{spin_loop_pause, remap_index}
use atomic_queue_rs.AtomicQueue2.Slots.{
  Shared, empty_mark, full_mark, load_state, store_state, compare_exchange_state, read_element,
  write_element,
}
use atomic_queue_rs.AtomicQueue2.Types.{Variant, at_compile_time, at_run_time, Queue2, beyond}

module _ (p : Profile) (self : Queue2) where
  -- `get_slot`: the state and the element have the same index. `AtomicQueue2` reduces the index by
  -- `%`, `AtomicQueueB2` by a mask.
  unfoldable pub reduce_index : Variant → ℕ → Result ℕ
  reduce_index at_compile_time index = rem_usize index self.capacity
  reduce_index at_run_time index = elim (sub_usize p self.capacity 1) [
    | ok mask ↦ ok (bit_and index mask)
    | fault e ↦ fault e
  ]

  unfoldable pub get_slot : {A : Type 0} → ℕ → Program (Shared A) ℕ
  get_slot index = do
    reduced ← lift (reduce_index self.variant index)
    let remapped_index = remap_index reduced self.shuffle_bits
    if ltb remapped_index self.allocated then ret remapped_index else stop (beyond self.variant)

module _ {A : Type 0} (self : Queue2) where
  -- The pause of a wait loop.
  abbrev pub pause : Program (Shared A) (Unit {0})
  pause = if self.maximize_throughput then spin_loop_pause else ret tt

  -- The SPSC loop of `do_pop_any`.
  unfoldable pub pop_spsc : ℕ → ℕ → Program (Shared A) A
  pop_spsc zero slot = stop spinning
  pop_spsc (suc fuel) slot = do
    s ← load_state slot
    let again = pause >> pop_spsc fuel slot
    if s == full_mark
        then (do value ← read_element slot; store_state slot empty_mark; ret value)
        else again

  -- The inner loop of speculative loads.
  unfoldable pub await_state : ℕ → ℕ → Program (Shared A) (Unit {0})
  await_state zero slot = stop spinning
  await_state (suc fuel) slot = do
    s ← load_state slot
    let again = spin_loop_pause >> await_state fuel slot
    if s == empty_mark then again else ret tt

  -- The MPMC loop of `do_pop_any`.
  unfoldable pub pop_mpmc : ℕ → ℕ → Program (Shared A) A
  pop_mpmc zero slot = stop spinning
  pop_mpmc (suc fuel) slot = do
    won ← compare_exchange_state slot full_mark empty_mark
    let again = pop_mpmc fuel slot
    let retry = (if self.maximize_throughput then await_state fuel slot else ret tt) >> again
    if won then read_element slot else retry

  unfoldable pub do_pop_any : ℕ → ℕ → Program (Shared A) A
  do_pop_any fuel slot = if self.spsc then pop_spsc fuel slot else pop_mpmc fuel slot

  -- The SPSC loop of `do_push_any`.
  unfoldable pub push_spsc : ℕ → A → ℕ → Program (Shared A) (Unit {0})
  push_spsc zero value slot = stop spinning
  push_spsc (suc fuel) value slot = do
    s ← load_state slot
    let again = pause >> push_spsc fuel value slot
    if not (s == empty_mark) then again else do write_element slot value; store_state slot full_mark

  -- The MPMC loop of `do_push_any`: the state is set before the element is written.
  unfoldable pub push_mpmc : ℕ → A → ℕ → Program (Shared A) (Unit {0})
  push_mpmc zero value slot = stop spinning
  push_mpmc (suc fuel) value slot = do
    won ← compare_exchange_state slot empty_mark full_mark
    let again = pause >> push_mpmc fuel value slot
    if won then write_element slot value else again

  unfoldable pub do_push_any : ℕ → A → ℕ → Program (Shared A) (Unit {0})
  do_push_any fuel value slot =
      if self.spsc then push_spsc fuel value slot else push_mpmc fuel value slot

-- `AtomicQueueB2` has these methods too: `get_slot` for the variant `at_run_time`, and the same text of
-- the other two.
unfoldable pub get_slot_b2 : Profile → Queue2 → {A : Type 0} → ℕ → Program (Shared A) ℕ
unfolding get_slot
get_slot_b2 p self = get_slot p self

module _ {A : Type 0} (self : Queue2) where
  unfoldable pub do_pop_any_b2 : ℕ → ℕ → Program (Shared A) A
  unfolding do_pop_any
  do_pop_any_b2 = do_pop_any self

  unfoldable pub do_push_any_b2 : ℕ → A → ℕ → Program (Shared A) (Unit {0})
  unfolding do_push_any
  do_push_any_b2 = do_push_any self
