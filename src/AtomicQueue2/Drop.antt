-- ===== src/AtomicQueue2/Drop.antt =====
-- `impl Drop for AtomicQueue2` and `impl Drop for AtomicQueueB2` of src/atomic_queue2.rs. No other
-- thread has the queue then. To drop an atomic state has no effect, and the memory is freed after all.
pub mod Loop
pub mod Laws
use atomic_queue_rs.Base.{ℕ, zero, suc, ltb, ◌==◌, if◌then◌else◌, bit_and, List, [], ◌∷◌, ◌++◌}
use atomic_queue_rs.Program.{Program, ret, stop, ◌>>=◌, lift, Profile, Result, ok, fault, sub_usize}
use atomic_queue_rs.Arch.{remap_index}
use atomic_queue_rs.AtomicQueue2.Slots.{Shared, full_mark, load_state, read_element}
use atomic_queue_rs.AtomicQueue2.Types.{Queue2, Variant, at_compile_time, at_run_time, beyond}

module _ {A : Type 0} where
  -- `if state.load(Relaxed) == FULL { drop_in_place(element) }`; it returns the value that is dropped.
  unfoldable pub drop_slot : ℕ → Program (Shared A) (List A)
  drop_slot slot = do
    s ← load_state slot
    if s == full_mark then (do value ← read_element slot; ret (value ∷ [])) else ret []

module _ (p : Profile) (self : Queue2) where
  -- The index that is remapped: `AtomicQueueB2` masks it.
  unfoldable pub drop_index : Variant → ℕ → Result ℕ
  drop_index at_compile_time i = ok i
  drop_index at_run_time i = elim (sub_usize p self.capacity 1) [
    | ok mask ↦ ok (bit_and i mask)
    | fault e ↦ fault e
  ]

  module _ {A : Type 0} where
    -- The loop, from `i` on, with `k` rounds to go.
    unfoldable pub drop_from : (k i : ℕ) → Program (Shared A) (List A)
    drop_from zero i = ret []
    drop_from (suc k) i = do
      reduced ← lift (drop_index self.variant i)
      let remapped_index = remap_index reduced self.shuffle_bits
      if ltb remapped_index self.allocated
          then (do
            dropped ← drop_slot remapped_index
            rest ← drop_from k (suc i)
            ret (dropped ++ rest))
          else stop (beyond self.variant)

    -- The values that `drop` drops, in their order.
    unfoldable pub drop : Program (Shared A) (List A)
    drop = drop_from self.capacity 0
