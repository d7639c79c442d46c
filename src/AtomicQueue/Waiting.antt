-- ===== src/AtomicQueue/Waiting.antt =====
-- `push` and `pop`, which make no test before they take a ticket.
use atomic_queue_rs.Base.{
  ℕ, suc, ◌+◌, ◌^◌, ◌<◌, ◌≡◌, ap, ◌∙◌, true, some, [], ◌∷◌, ◌++◌, arith, wrapping_add,
  get_or-set_self,
}
use atomic_queue_rs.Program.{run, done, ◌>>=◌, Profile}
use atomic_queue_rs.Program.Laws.{run-done}
use atomic_queue_rs.Common.{set_tail}
use atomic_queue_rs.Ring.{Counts, size, Fits, head-slot, Fits-push}
use atomic_queue_rs.AtomicQueue.{Queue, push, pop, try_pop}
use atomic_queue_rs.AtomicQueue.Value.{Element, size_of, Shared, raw}
use atomic_queue_rs.AtomicQueue.Valid.{
  slot, contents, IsElement, IsQueue, IsValid, get_element_lem, pushed, popped, slot-IsRing,
}
use atomic_queue_rs.AtomicQueue.Refine.{store_word, take_value-found, try_pop-some}
use atomic_queue_rs.AtomicQueue.Contents.{
  contents-pushed, pushed-IsValid, contents-popped, oldest-IsElement, popped-IsValid,
}

module _ (p : Profile) {self : Queue} (q : IsQueue self) (T : Element) (wide : size_of T ≡ 8) where
  -- `push` writes the slot of its ticket, whatever the queue holds.
  pub push-writes :
      (m : Shared) (x : ℕ) → x < 2 ^ 64 → run (push p self T x) m ≡ done (pushed self m x) tt
  unfolding push
  push-writes m x word =
      ground (
        arith,
        get_element_lem p q m.common.head,
        store_word T (slot self m.common.head) x wide word,
      )

  pop-takes :
      (m : Shared) (fuel : ℕ)
      → IsElement (raw (slot self m.common.tail) m)
      → run (pop p self T (suc fuel)) m ≡ done (popped self m) (raw (slot self m.common.tail) m)
  unfolding pop
  pop-takes m fuel e = ground (
    arith,
    get_element_lem p q m.common.tail,
    take_value-found p q T wide fuel (slot self m.common.tail)
        (set_tail (wrapping_add m.common.tail 1) m) e,
  )

  -- On a valid AtomicQueue of eight-byte elements that is not full, whose counters do not overflow
  -- in a debug build, push of an element other than 0 returns, appends it, and keeps the queue
  -- valid.
  pub push_appends :
      (m : Shared) (n x : ℕ)
      → IsValid self m
      → Fits p true n m.common
      → size m.common < self.capacity
      → IsElement x
      → (m' : Shared) × (run (push p self T x) m ≡ done m' tt)
        × (contents self m' ≡ contents self m ++ x ∷ [])
        × IsValid self m'
  push_appends m n x v f room e = (
    pushed self m x,
    push-writes m x e.1,
    contents-pushed q v p n x f room,
    pushed-IsValid q v p n x f room e,
  )

  -- On a valid AtomicQueue of eight-byte elements that is not empty, whose counters do not overflow
  -- in a debug build, pop returns the oldest element in the first round of its loop, takes it out,
  -- and keeps the queue valid.
  pub pop_takes_oldest :
      (m : Shared) (fuel : ℕ)
      → IsValid self m
      → 0 < size m.common
      → (m' : Shared) × (x : ℕ) × (run (pop p self T (suc fuel)) m ≡ done m' x)
        × (contents self m ≡ x ∷ contents self m')
        × IsValid self m'
  pop_takes_oldest m fuel v stored = (
    popped self m,
    raw (slot self m.common.tail) m,
    pop-takes m fuel (oldest-IsElement q v stored),
    contents-popped q v stored,
    popped-IsValid q v stored,
  )

  -- On a valid full AtomicQueue of eight-byte elements, whose counters do not overflow in a debug
  -- build, push of an element other than 0 does not wait: it returns, and a pop that follows gets
  -- the pushed element in place of the oldest one.
  pub push-full_overwrites :
      (m : Shared) (n x fuel : ℕ)
      → IsValid self m
      → Fits p true (suc (suc n)) m.common
      → size m.common ≡ self.capacity
      → IsElement x
      → (m' : Shared) × (run (push p self T x >>= λ _. try_pop p self T (suc fuel)) m
          ≡ done m' (some x))
  push-full_overwrites m n x fuel v f full e = (
    popped self after,
    run-done (push p self T x) (λ _. try_pop p self T (suc fuel)) m (push-writes m x e.1)
        ∙ try_pop-some p q T wide after n counted (Fits-push v.counts p true (suc n) f) fuel
            some_stored (rw newest e)
        ∙ ap (λ y. done (popped self after) (some y)) newest,
  )
    where
      after : Shared
      after = pushed self m x

      same_slot : slot self m.common.head ≡ slot self m.common.tail
      same_slot =
          head-slot m.common p true (slot-IsRing q) (suc (suc n)) v.counts f
          ∙ ap (λ k. slot self (m.common.tail + k)) full
          ∙ (slot-IsRing q).round m.common.tail

      longer : size after.common ≡ self.capacity + 1
      longer = omega (arith, v.counts.head_word, v.counts.tail_word, (slot-IsRing q).small)

      counted : Counts (self.capacity + 1) after.common
      counted = record {
        head_word = omega arith;
        tail_word = v.counts.tail_word;
        within = omega (arith, longer);
      }

      some_stored : 0 < size after.common
      some_stored = omega (arith, longer)

      newest : raw (slot self m.common.tail) after ≡ x
      newest = rw same_slot (
          get_or-set_self m.storage (slot self m.common.tail) x 0
            (rw v.sized ((slot-IsRing q).in_range m.common.tail)))
