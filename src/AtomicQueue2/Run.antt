-- ===== src/AtomicQueue2/Run.antt =====
-- A client alone with an `AtomicQueue2` or `AtomicQueueB2` sees the bounded first-in first-out queue.
use native.Mathlib.Decide.{dec_le}
use atomic_queue_rs.Base.{
  ℕ, suc, ◌<◌, ◌≡◌, sym, Bool, List, [], ◌∷◌, ◌++◌, length, arith, ◌==◌, le→leb, lt→leb,
}
use atomic_queue_rs.Program.{run, done, Profile}
use atomic_queue_rs.Fifo.{Call, enqueue, dequeue, replies}
use atomic_queue_rs.Common.{was_size, was_empty, was_full}
use atomic_queue_rs.Common.Client.{run_calls}
use atomic_queue_rs.Common.Sequential.{Answered, Implements, AllTakes, run_calls-eq-replies}
use atomic_queue_rs.Ring.{head-sub-tail, Fits-idle, size}
use atomic_queue_rs.AtomicQueue2.{ops, try_push, try_pop, push, pop}
use atomic_queue_rs.AtomicQueue2.Slots.{Shared}
use atomic_queue_rs.AtomicQueue2.Types.{Queue2}
use atomic_queue_rs.AtomicQueue2.Valid.{IsQueue}
use atomic_queue_rs.AtomicQueue2.Refine.{
  pushed, popped, try_push-full, try_push-room, try_pop-empty, try_pop-some, push-run, pop-run,
}
use atomic_queue_rs.AtomicQueue2.Holds.{Holds, length-held, head_free, pushed-Holds}
use atomic_queue_rs.AtomicQueue2.Take.{some_stored, oldest_full, oldest_there, popped-Holds}

module _ {A : Type 0} (p : Profile) {periodic : Bool} {self : Queue2} (q : IsQueue periodic self)
    (fuel n : ℕ) (m : Shared A) where
  module _ (l : List A) (h : Holds p periodic self (suc n) m l) where
    open h use {counts, fits}

    length-elements : length l ≡ size m.common
    length-elements = length-held p q n m l h

    stays : Holds p periodic self n m l
    stays = record {
      states_sized = h.states_sized;
      elements_sized = h.elements_sized;
      counts = counts;
      fits = Fits-idle counts p periodic n fits;
      stored = h.stored;
      full = h.full;
      free = h.free;
    }

    answer_push :
        (x : A)
        → Answered
            (Holds p periodic self)
            n
            (run (try_push p self (suc fuel) x) m)
            (enqueue self.capacity l x).0
            (enqueue self.capacity l x).1
    answer_push x = elim (dec_le self.capacity (size m.common)) [
      | yes full ↦
          rw (length-elements, le→leb self.capacity (size m.common) full)
            (record {
              memory = m;
              ran = try_push-full p q m n counts fits (suc fuel) x full;
              valid = stays;
            })
      | no free ↦
          let room : size m.common < self.capacity = omega arith in
          rw (length-elements, lt→leb self.capacity (size m.common) room)
            (record {
              memory = pushed self m x;
              ran = try_push-room p q m n counts fits fuel x room (head_free p q n m l h x room);
              valid = pushed-Holds p q n m l h x room;
            })
    ]

    answer_size : Answered (Holds p periodic self) n (run (was_size p) m) (length l) l
    unfolding was_size
    answer_size = record {
      memory = m;
      ran = ground (arith, head-sub-tail counts p periodic (suc n) fits, length-elements);
      valid = stays;
    }

    answer_empty : Answered (Holds p periodic self) n (run was_empty m) (length l == 0) l
    unfolding was_empty
    answer_empty = record {
      memory = m;
      ran = ground (arith, length-elements, counts.head_word, counts.tail_word);
      valid = stays;
    }

    answer_full :
        Answered
          (Holds p periodic self)
          n
          (run (was_full p self.capacity) m)
          (length l == self.capacity)
          l
    unfolding was_full
    answer_full = record {
      memory = m;
      ran = ground (arith, head-sub-tail counts p periodic (suc n) fits, length-elements);
      valid = stays;
    }

  answer_pop :
      (l : List A)
      → Holds p periodic self (suc n) m l
      → Answered
          (Holds p periodic self)
          n
          (run (try_pop p self (suc fuel)) m)
          (dequeue l).0
          (dequeue l).1
  answer_pop [] h = record {
    memory = m;
    ran = try_pop-empty p q m n h.counts h.fits (suc fuel) (sym (length-elements [] h));
    valid = stays [] h;
  }
  answer_pop (x ∷ r) h = record {
    memory = popped self m;
    ran =
        try_pop-some p q m n h.counts h.fits fuel x (oldest_full p q n m x r h)
          (oldest_there p q n m x r h) (some_stored p q n m x r h);
    valid = popped-Holds p q n m x r h;
  }

  -- On a valid AtomicQueue2 or AtomicQueueB2 that is not full and whose counters do not overflow
  -- (in a release build with a power-of-two capacity they may), push returns in the first round of
  -- its loop, and the queue then holds its elements and the new one behind them.
  pub push_enqueues :
      (l : List A) (x : A)
      → Holds p periodic self (suc n) m l
      → length l < self.capacity
      → (m' : Shared A) × (run (push p self (suc fuel) x) m ≡ done m' tt)
        × Holds p periodic self n m' (l ++ x ∷ [])
  push_enqueues l x h room =
      let free : size m.common < self.capacity = omega (arith, length-elements l h) in
      (
        pushed self m x,
        push-run p q m n h.counts h.fits fuel x (head_free p q n m l h x free),
        pushed-Holds p q n m l h x free,
      )

  -- On a valid AtomicQueue2 or AtomicQueueB2 that is not empty and whose counters do not overflow
  -- (in a release build with a power-of-two capacity they may), pop returns the oldest element in
  -- the first round of its loop, and the queue then holds the others.
  pub pop_dequeues :
      (x : A) (r : List A)
      → Holds p periodic self (suc n) m (x ∷ r)
      → (m' : Shared A) × (run (pop p self (suc fuel)) m ≡ done m' x) × Holds p periodic self n m' r
  pop_dequeues x r h = (
    popped self m,
    pop-run p q m n h.counts h.fits fuel x (oldest_full p q n m x r h) (oldest_there p q n m x r h),
    popped-Holds p q n m x r h,
  )

-- The methods keep the contract of a bounded queue, in every mode and for both types.
pub ops-Implements :
    {A : Type 0} (p : Profile) {periodic : Bool} {self : Queue2} (fuel : ℕ)
    → IsQueue periodic self
    → Implements (ops p {A = A} self (suc fuel)) (λ _. Unit) (Holds p periodic self)
unfolding ops
ops-Implements p fuel q = record {
  pushing = λ n m l x h e. answer_push p q fuel n m l h x;
  popping = answer_pop p q fuel;
  sizing = answer_size p q fuel;
  emptying = answer_empty p q fuel;
  filling = answer_full p q fuel;
}

-- A client alone with a valid AtomicQueue2 or AtomicQueueB2, in any mode, gets from any sequence of
-- calls that do not wait the replies of the bounded first-in first-out queue with the same elements
-- and capacity; no call faults or reads an uninitialized element, and wait loops need one round,
-- while the counters do not overflow (in a release build with a power-of-two capacity they may).
pub run_calls_refines :
    {A : Type 0} (p : Profile) {periodic : Bool} {self : Queue2} (fuel : ℕ)
    → IsQueue periodic self
    → (cs : List (Call A)) (m : Shared A) (l : List A) → AllTakes (λ _. Unit) cs
    → Holds p periodic self (length cs) m l
    → run_calls (ops p self (suc fuel)) cs m ≡ replies self.capacity cs l
unfolding ops
run_calls_refines p fuel q cs m l t h = run_calls-eq-replies (ops-Implements p fuel q) cs m l h t
