-- ===== src/Common/Client.antt =====
-- A client that makes calls one after the other, with no other thread at work.
use atomic_queue_rs.Base.{List, [], ◌∷◌}
use atomic_queue_rs.Program.{Program, ret, ◌>>=◌, run, done, failed}
use atomic_queue_rs.Common.{AtomicQueueOps}
use atomic_queue_rs.Fifo.{
  Call, Reply, try_push, try_pop, was_size, was_empty, was_full, accepted, popped, size, answer,
}

module _ {M A : Type 0} (ops : AtomicQueueOps M A) where
  abbrev pub call : Call A → Program M (Reply A)
  call (try_push x) = do b ← ops.try_push x; ret (accepted b)
  call try_pop = do o ← ops.try_pop; ret (popped o)
  call was_size = do n ← ops.was_size; ret (size n)
  call was_empty = do b ← ops.was_empty; ret (answer b)
  call was_full = do b ← ops.was_full; ret (answer b)

  -- The replies, up to the first call that faults.
  unfoldable pub run_calls : List (Call A) → M → List (Reply A)
  run_calls [] m = []
  run_calls (c ∷ cs) m = elim (run (call c) m) [
    | done m' r ↦ r ∷ run_calls cs m'
    | failed m' e ↦ []
  ]
