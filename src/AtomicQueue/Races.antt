-- ===== src/AtomicQueue/Races.antt =====
-- Where src/atomic_queue.rs does not keep two threads apart.
use atomic_queue_rs.Base.{
  ℕ, suc, ◌+◌, ◌<◌, ◌≡◌, ◌≢◌, ap, ◌∙◌, true, some, arith, wrapping_add, get_or-set_self,
}
use atomic_queue_rs.Program.{ret, ◌>>=◌, run, done, Profile}
use atomic_queue_rs.Program.Laws.{run-done}
use atomic_queue_rs.Program.Threads.{interrupted, resumed}
use atomic_queue_rs.Common.{set_tail}
use atomic_queue_rs.Ring.{
  Counts, size, Fits, head-slot, tail-add-one, Fits-pop, size-pop, refused, sub_usize-passed,
}
use atomic_queue_rs.AtomicQueue.{Queue, try_push, try_pop, pop, take_value}
use atomic_queue_rs.AtomicQueue.Value.{Element, size_of, Shared, raw, set_raw}
use atomic_queue_rs.AtomicQueue.Valid.{
  slot, IsElement, IsQueue, IsValid, get_element_lem, pushed, slot-IsRing,
}
use atomic_queue_rs.AtomicQueue.Refine.{try_push-room, take_value-found}

module _ (p : Profile) {self : Queue} (q : IsQueue self) (T : Element) where
  -- The memory when a consumer has taken the ticket of the oldest element.
  abbrev claimed : Shared → Shared
  claimed m = set_tail (wrapping_add m.common.tail 1) m

  module _ (m : Shared) (n : ℕ) (v : IsValid self m) (f : Fits p true (suc (suc n)) m.common)
      (full : size m.common ≡ self.capacity) where
    stored : 0 < size m.common
    stored = omega (arith, full, (slot-IsRing q).pos)

    try_pop-interrupted : (fuel : ℕ) → interrupted 3 (try_pop p self T fuel) m ≡ claimed m
    unfolding try_pop
    try_pop-interrupted fuel =
        let apart : m.common.tail ≢ m.common.head =
          omega (arith, stored, v.counts.head_word, v.counts.tail_word) in
        ground (arith, tail-add-one v.counts p true (suc (suc n)) f stored)

    try_pop-resumed :
        (fuel : ℕ)
        → resumed 3 (try_pop p self T fuel) m
          ≡ (take_value p self T fuel (slot self m.common.tail) >>= λ x. ret (some x))
    unfolding try_pop
    try_pop-resumed fuel =
        let apart : m.common.tail ≢ m.common.head =
          omega (arith, stored, v.counts.head_word, v.counts.tail_word) in
        ground (
          arith,
          tail-add-one v.counts p true (suc (suc n)) f stored,
          get_element_lem p q m.common.tail,
        )

    -- On a valid full AtomicQueue of eight-byte elements, whose counters do not overflow in a debug
    -- build, a try_push that runs after the first three accesses of a try_pop is accepted, and the
    -- try_pop then returns the pushed element in place of the oldest one.
    pub slot_reused :
        (x fuel : ℕ)
        → size_of T ≡ 8
        → IsElement x
        → (m1 : Shared) × (m2 : Shared) × (run
              (try_push p self T x)
              (interrupted 3 (try_pop p self T (suc fuel)) m)
            ≡ done m1 true)
          × (run (resumed 3 (try_pop p self T (suc fuel)) m) m1 ≡ done m2 (some x))
    slot_reused x fuel wide e = (
      after,
      set_raw (slot self m.common.tail) 0 after,
      rw (try_pop-interrupted (suc fuel)) (
          try_push-room p q T wide (claimed m) n counted (Fits-pop v.counts p true (suc n) f stored)
            x e.1 (omega (arith, shorter))),
      rw (try_pop-resumed (suc fuel)) (
          run-done (take_value p self T (suc fuel) (slot self m.common.tail)) (λ y. ret (some y))
            after (take_value-found p q T wide fuel (slot self m.common.tail) after (rw newest e))
          ∙ ap (λ y. done (set_raw (slot self m.common.tail) 0 after) (some y)) newest),
    )
      where
        after : Shared
        after = pushed self (claimed m) x

        same_slot : slot self m.common.head ≡ slot self m.common.tail
        same_slot =
            head-slot m.common p true (slot-IsRing q) (suc (suc n)) v.counts f
            ∙ ap (λ k. slot self (m.common.tail + k)) full
            ∙ (slot-IsRing q).round m.common.tail

        shorter : size (claimed m).common + 1 ≡ self.capacity
        shorter = size-pop (slot-IsRing q).small v.counts stored ∙ full

        counted : Counts self.capacity (claimed m).common
        counted = record {
          head_word = v.counts.head_word;
          tail_word = omega arith;
          within = omega (arith, shorter);
        }

        newest : raw (slot self m.common.tail) after ≡ x
        newest = rw (← same_slot) (
            get_or-set_self m.storage (slot self m.common.head) x 0
              (rw v.sized ((slot-IsRing q).in_range m.common.head)))

  -- On a valid empty AtomicQueue, whose counters do not overflow in a debug build, a try_push that
  -- runs after the first access of a pop panics in a debug build, and in a release build returns
  -- false as if the queue were full.
  pub try_push-behind_pop :
      (m : Shared) (n fuel x : ℕ)
      → IsValid self m
      → Fits p true (suc n) m.common
      → size m.common ≡ 0
      → run (try_push p self T x) (interrupted 1 (pop p self T fuel) m) ≡ refused p (claimed m)
  unfolding try_push pop
  try_push-behind_pop m n fuel x v f empty =
      ground (arith, sub_usize-passed v.counts p true n f empty, (slot-IsRing q).small)
