-- ===== src/Common/Optimist.antt =====
-- The trait `OptimistAtomicQueueOps` of src/common.rs: its two methods wait by calling a try method
-- again. The fuel bounds the number of calls.
use atomic_queue_rs.Base.{ℕ, zero, suc, none, some, if◌then◌else◌, not}
use atomic_queue_rs.Program.{Program, ret, stop, spinning, ◌>>=◌, ◌>>◌}
use atomic_queue_rs.Arch.{spin_loop_pause}
use atomic_queue_rs.Common.{AtomicQueueOps}

module _ {M T : Type 0} (ops : AtomicQueueOps M T) where
  unfoldable pub optimist_push : ℕ → T → Program M (Unit {0})
  optimist_push zero element = stop spinning
  optimist_push (suc fuel) element = do
    pushed ← ops.try_push element
    let again = spin_loop_pause >> optimist_push fuel element
    if not pushed then again else ret tt

  unfoldable pub optimist_pop : ℕ → Program M T
  optimist_pop zero = stop spinning
  optimist_pop (suc fuel) = do
    popped ← ops.try_pop
    let again = spin_loop_pause >> optimist_pop fuel
    elim popped [ some element ↦ ret element | none ↦ again ]
