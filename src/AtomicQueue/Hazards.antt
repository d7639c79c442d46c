-- ===== src/AtomicQueue/Hazards.antt =====
-- Where an `AtomicQueue` does not do what its trait promises, or needs a condition to do it.
use atomic_queue_rs.Base.{
  ℕ, zero, suc, ◌+◌, ◌<◌, ◌≡◌, ◌≢◌, refl, true, some, arith, wrapping_add, get_or-set_self,
}
use atomic_queue_rs.Program.{Program, ret, run, done, failed, ◌>>=◌, Profile, undefined, spinning}
use atomic_queue_rs.Common.{set_head, set_tail}
use atomic_queue_rs.Ring.{
  Counts, size, Fits, head-sub-tail, head-add-one, tail-add-one, Fits-push, size-push,
}
use atomic_queue_rs.AtomicQueue.{Queue, try_push, try_pop, take_value}
use atomic_queue_rs.AtomicQueue.Value.{
  Element, size_of, Shared, transmute_copy, raw, load_value, store_value,
}
use atomic_queue_rs.AtomicQueue.Valid.{slot, IsQueue, IsValid, get_element_lem, pushed, slot-IsRing}
use atomic_queue_rs.AtomicQueue.Refine.{try_push-room}

module _ (p : Profile) {self : Queue} (q : IsQueue self) (T : Element) where
  take_value-spins :
      {B : Type 0} (fuel i : ℕ) (f : ℕ → Program Shared B) (m : Shared)
      → size_of T ≡ 8
      → raw i m ≡ 0
      → run (take_value p self T fuel i >>= f) m ≡ failed m spinning
  unfolding take_value load_value transmute_copy
  take_value-spins zero i f m wide marked = refl
  take_value-spins (suc fuel) i f m wide marked =
      ground (arith, take_value-spins fuel i f m wide marked)

  -- A consumer that meets a 0 in a slot that a producer has filled waits for ever: no number of rounds
  -- is enough, and the ticket is spent.
  try_pop-spins :
      (m : Shared) (n fuel : ℕ)
      → size_of T ≡ 8
      → Counts self.capacity m.common
      → Fits p true n m.common
      → 0 < size m.common
      → raw (slot self m.common.tail) m ≡ 0
      → run (try_pop p self T fuel) m ≡ failed (set_tail (wrapping_add m.common.tail 1) m) spinning
  unfolding try_pop
  try_pop-spins m n fuel wide k fits stored marked =
      let apart : m.common.tail ≢ m.common.head = omega (arith, k.head_word, k.tail_word) in
      ground (
        arith,
        tail-add-one k p true n fits stored,
        get_element_lem p q m.common.tail,
        take_value-spins fuel (slot self m.common.tail) (λ x. ret (some x))
            (set_tail (wrapping_add m.common.tail 1) m) wide,
      )

  -- Storing an element of fewer than eight bytes faults after the ticket is taken.
  try_push-narrow :
      (m : Shared) (n x : ℕ)
      → size_of T < 8
      → Counts self.capacity m.common
      → Fits p true (suc n) m.common
      → size m.common < self.capacity
      → run (try_push p self T x) m ≡ failed (set_head (wrapping_add m.common.head 1) m) undefined
  unfolding try_push store_value transmute_copy
  try_push-narrow m n x narrow k fits room = ground (
    arith,
    head-sub-tail k p true (suc n) fits,
    head-add-one k p true n fits,
    get_element_lem p q m.common.head,
  )

module _ (p : Profile) {self : Queue} (q : IsQueue self) (T : Element) where
  -- On a valid empty AtomicQueue of eight-byte elements, whose counters do not overflow in a debug
  -- build, try_push accepts a 0, and then try_pop never returns: after any number of rounds its
  -- loop is still waiting, and its ticket is spent.
  pub zero_blocks :
      (m : Shared) (n fuel : ℕ)
      → size_of T ≡ 8
      → IsValid self m
      → Fits p true (suc (suc n)) m.common
      → size m.common ≡ 0
      → (m' : Shared) × (run (try_push p self T 0) m ≡ done m' true)
        × (run (try_pop p self T fuel) m'
            ≡ failed (set_tail (wrapping_add m'.common.tail 1) m') spinning)
  zero_blocks m n fuel wide v f empty = (
    pushed self m 0,
    try_push-room p q T wide m (suc n) v.counts f 0 (omega arith)
        (omega (arith, (slot-IsRing q).pos)),
    try_pop-spins p q T (pushed self m 0) (suc n) fuel wide counted
        (Fits-push v.counts p true (suc n) f) (omega (arith, counted_one)) marked,
  )
    where
      counted_one : size (pushed self m 0).common ≡ 1
      counted_one = omega (arith, v.counts.head_word, v.counts.tail_word)

      counted : Counts self.capacity (pushed self m 0).common
      counted = record {
        head_word = omega arith;
        tail_word = v.counts.tail_word;
        within = omega (arith, counted_one, (slot-IsRing q).pos);
      }

      same : m.common.head ≡ m.common.tail
      same = omega (arith, v.counts.head_word, v.counts.tail_word)

      marked : raw (slot self m.common.tail) (pushed self m 0) ≡ 0
      marked = rw same (
          get_or-set_self m.storage (slot self m.common.tail) 0 0
            (rw v.sized ((slot-IsRing q).in_range m.common.tail)))

  -- An element of fewer than eight bytes cannot be pushed on a valid AtomicQueue with room, whose
  -- counters do not overflow in a debug build: try_push faults in its store, when head already
  -- counts the ticket, and no slot has been written.
  pub narrow_push_faults :
      (m : Shared) (n x : ℕ)
      → size_of T < 8
      → IsValid self m
      → Fits p true (suc n) m.common
      → size m.common < self.capacity
      → (m' : Shared) × (run (try_push p self T x) m ≡ failed m' undefined)
        × (size m'.common ≡ size m.common + 1)
        × (m'.storage ≡ m.storage)
  narrow_push_faults m n x narrow v f room = (
    set_head (wrapping_add m.common.head 1) m,
    try_push-narrow p q T m n x narrow v.counts f room,
    size-push (slot-IsRing q).small v.counts room,
    refl,
  )
