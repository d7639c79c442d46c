-- ===== src/AtomicQueue/Run.antt =====
-- A client alone with an `AtomicQueue` sees the bounded first-in first-out queue of its contents.
use native.Mathlib.Decide.{dec_le}
use atomic_queue_rs.Base.{
  ℕ, suc, ◌<◌, ◌≡◌, refl, ap, ◌∙◌, true, List, [], ◌∷◌, ◌++◌, length, arith, ◌==◌, le→leb, lt→leb,
}
use atomic_queue_rs.Program.{run, Profile}
use atomic_queue_rs.Fifo.{Call, enqueue, dequeue, replies}
use atomic_queue_rs.Common.{was_size, was_empty, was_full}
use atomic_queue_rs.Common.Client.{run_calls}
use atomic_queue_rs.Common.Sequential.{Answered, Implements, AllTakes, run_calls-eq-replies}
use atomic_queue_rs.Ring.{Fits, head-sub-tail, Fits-push, Fits-pop, Fits-idle, size, window}
use atomic_queue_rs.AtomicQueue.{Queue, ops, try_push, try_pop}
use atomic_queue_rs.AtomicQueue.Value.{Element, size_of, Shared}
use atomic_queue_rs.AtomicQueue.Valid.{slot, contents, IsElement, IsQueue, IsValid, pushed, popped}
use atomic_queue_rs.AtomicQueue.Refine.{try_push-full, try_push-room, try_pop-empty, try_pop-some}
use atomic_queue_rs.AtomicQueue.Contents.{
  length-contents, contents-pushed, pushed-IsValid, contents-popped, oldest-IsElement,
  popped-IsValid,
}

-- A valid memory that holds the elements `l` and whose counters fit `n` more calls.
pub record Holds (p : Profile) (self : Queue) (n : ℕ) (m : Shared) (l : List ℕ) : Type 0 where
  pub valid : IsValid self m
  pub fits : Fits p true n m.common
  pub elements : contents self m ≡ l

module _ (p : Profile) {self : Queue} (q : IsQueue self) (T : Element) (wide : size_of T ≡ 8)
    (fuel n : ℕ) (m : Shared) (l : List ℕ) (h : Holds p self (suc n) m l) where
  open h use {valid, fits, elements}
  open valid use {counts}

  length-elements : length l ≡ size m.common
  length-elements = rw (← elements) (length-contents self m)

  stays : Holds p self n m l
  stays = record { valid = valid; fits = Fits-idle counts p true n fits; elements = elements }

  answer_push :
      (x : ℕ)
      → IsElement x
      → Answered
          (Holds p self)
          n
          (run (try_push p self T x) m)
          (enqueue self.capacity l x).0
          (enqueue self.capacity l x).1
  answer_push x e = elim (dec_le self.capacity (size m.common)) [
    | yes full ↦
        rw (length-elements, le→leb self.capacity (size m.common) full)
          (record {
            memory = m;
            ran = try_push-full p q T wide m n counts fits x full;
            valid = stays;
          })
    | no free ↦
        let room : size m.common < self.capacity = omega arith in
        rw (length-elements, lt→leb self.capacity (size m.common) room)
          (record {
            memory = pushed self m x;
            ran = try_push-room p q T wide m n counts fits x e.1 room;
            valid = record {
              valid = pushed-IsValid q valid p (suc n) x fits room e;
              fits = Fits-push counts p true n fits;
              elements =
                  contents-pushed q valid p (suc n) x fits room ∙ ap (λ t. t ++ x ∷ []) elements;
            };
          })
  ]

  answer_pop :
      Answered (Holds p self) n (run (try_pop p self T (suc fuel)) m) (dequeue l).0 (dequeue l).1
  answer_pop = elim (dec_le 1 (size m.common)) [
    | yes stored ↦
        rw (← elements, contents-popped q valid stored)
          (record {
            memory = popped self m;
            ran =
                try_pop-some p q T wide m n counts fits fuel stored
                  (oldest-IsElement q valid stored);
            valid = record {
              valid = popped-IsValid q valid stored;
              fits = Fits-pop counts p true n fits stored;
              elements = refl;
            };
          })
    | no none_left ↦
        let empty : size m.common ≡ 0 = omega arith in
        let nothing : contents self m ≡ [] =
          ap (window 0 (slot self) m.storage m.common.tail) empty in
        rw (← elements, nothing)
          (record {
            memory = m;
            ran = try_pop-empty p q T wide m n counts fits (suc fuel) empty;
            valid = record {
              valid = valid;
              fits = Fits-idle counts p true n fits;
              elements = nothing;
            };
          })
  ]

  answer_size : Answered (Holds p self) n (run (was_size p) m) (length l) l
  unfolding was_size
  answer_size = record {
    memory = m;
    ran = ground (arith, head-sub-tail counts p true (suc n) fits, length-elements);
    valid = stays;
  }

  answer_empty : Answered (Holds p self) n (run was_empty m) (length l == 0) l
  unfolding was_empty
  answer_empty = record {
    memory = m;
    ran = ground (arith, length-elements, counts.head_word, counts.tail_word);
    valid = stays;
  }

  answer_full :
      Answered (Holds p self) n (run (was_full p self.capacity) m) (length l == self.capacity) l
  unfolding was_full
  answer_full = record {
    memory = m;
    ran = ground (arith, head-sub-tail counts p true (suc n) fits, length-elements);
    valid = stays;
  }

-- The methods keep the contract of a bounded queue, whatever fuel their loops have, if it is not 0.
pub ops-Implements :
    (p : Profile) {self : Queue} (T : Element) (fuel : ℕ)
    → IsQueue self
    → size_of T ≡ 8
    → Implements (ops p self T (suc fuel)) IsElement (Holds p self)
unfolding ops
ops-Implements p T fuel q wide = record {
  pushing = λ n m l x h e. answer_push p q T wide fuel n m l h x e;
  popping = answer_pop p q T wide fuel;
  sizing = answer_size p q T wide fuel;
  emptying = answer_empty p q T wide fuel;
  filling = answer_full p q T wide fuel;
}

-- A client alone with a valid AtomicQueue of eight-byte elements gets from any sequence of calls
-- that do not wait, pushing elements other than 0, the replies of the bounded first-in first-out
-- queue with the same elements and capacity; no call faults and wait loops need one round, while
-- the counters do not overflow (in a release build they may).
pub run_refines :
    (p : Profile) {self : Queue} (T : Element) (fuel : ℕ)
    → IsQueue self
    → size_of T ≡ 8
    → (cs : List (Call ℕ)) (m : Shared) → AllTakes IsElement cs
    → IsValid self m
    → Fits p true (length cs) m.common
    → run_calls (ops p self T (suc fuel)) cs m ≡ replies self.capacity cs (contents self m)
unfolding ops
run_refines p {self} T fuel q wide cs m t v f =
    run_calls-eq-replies (ops-Implements p T fuel q wide) cs m (contents self m)
      (record { valid = v; fits = f; elements = refl }) t
