-- ===== src/Common/Waiting.antt =====
-- The waiting methods of the trait `OptimistAtomicQueueOps` of src/common.rs, over any queue that keeps
-- the contract of the trait `AtomicQueueOps`.
use mathlib.Core.Path.{subst}
use atomic_queue_rs.Base.{ℕ, zero, suc, Bool, ◌∙◌, ◌≤◌, ◌≡◌, refl, List, [], length, false, le→leb}
use atomic_queue_rs.Program.{failed, run, spinning}
use atomic_queue_rs.Program.Laws.{run-done}
use atomic_queue_rs.Fifo.{enqueue}
use atomic_queue_rs.Common.{AtomicQueueOps}
use atomic_queue_rs.Common.Optimist.{optimist_push, optimist_pop}
use atomic_queue_rs.Common.Sequential.{Answered, Implements}

module _ {M A : Type 0} {ops : AtomicQueueOps M A} {Takes : A → Type 0}
    {Valid : ℕ → M → List A → Type 0} (i : Implements ops Takes Valid) where
  try_push-refused :
      (n : ℕ) (m : M) (l : List A) (x : A)
      → Valid (suc n) m l
      → Takes x
      → ops.capacity ≤ length l
      → Answered Valid n (run (ops.try_push x) m) false l
  try_push-refused n m l x v t full =
      subst (λ (q : Bool × List A). Answered Valid n (run (ops.try_push x) m) q.0 q.1)
        (let e : enqueue ops.capacity l x ≡ (false, l) =
            rw (le→leb ops.capacity (length l) full) refl in
          e)
        (i.pushing n m l x v t)

  -- On a full queue that keeps the contract of AtomicQueueOps, optimist_push of an element that it
  -- takes is still waiting after any number of tries, while the counters fit as many, and the queue
  -- holds what it held.
  pub optimist_push-full_waits :
      (fuel : ℕ) (m : M) (l : List A) (x : A)
      → Valid fuel m l
      → Takes x
      → ops.capacity ≤ length l
      → (m' : M) × (run (optimist_push ops fuel x) m ≡ failed m' spinning) × Valid zero m' l
  unfolding optimist_push
  optimist_push-full_waits zero m l x v t full = (m, refl, v)
  optimist_push-full_waits (suc fuel) m l x v t full =
      let a = try_push-refused fuel m l x v t full in
      let (m', waits, v') = optimist_push-full_waits fuel a.memory l x a.valid t full in
      (m', run-done (ops.try_push x) _ m a.ran ∙ waits, v')

  -- On an empty queue that keeps the contract of AtomicQueueOps, optimist_pop is still waiting
  -- after any number of tries, while the counters fit as many, and the queue is still empty.
  pub optimist_pop-empty_waits :
      (fuel : ℕ) (m : M)
      → Valid fuel m []
      → (m' : M) × (run (optimist_pop ops fuel) m ≡ failed m' spinning) × Valid zero m' []
  unfolding optimist_pop
  optimist_pop-empty_waits zero m v = (m, refl, v)
  optimist_pop-empty_waits (suc fuel) m v =
      let a = i.popping fuel m [] v in
      let (m', waits, v') = optimist_pop-empty_waits fuel a.memory a.valid in
      (m', run-done ops.try_pop _ m a.ran ∙ waits, v')
