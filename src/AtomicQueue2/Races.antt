-- ===== src/AtomicQueue2/Races.antt =====
-- Where src/atomic_queue2.rs does not keep its threads apart: the MPMC mode marks a slot FULL before it
-- writes the element.
use atomic_queue_rs.Base.{
  ℕ, suc, ◌≡◌, sym, Bool, false, none, [], arith, wrapping_add, get_or-set_self,
}
use atomic_queue_rs.Program.{run, failed, Profile, undefined}
use atomic_queue_rs.Program.Threads.{interrupted}
use atomic_queue_rs.Common.{set_head, set_tail}
use atomic_queue_rs.Ring.{size, refused, sub_usize-passed}
use atomic_queue_rs.AtomicQueue2.{try_push, push, pop}
use atomic_queue_rs.AtomicQueue2.Slots.{Shared, state, element, set_state, empty_mark, full_mark}
use atomic_queue_rs.AtomicQueue2.Types.{Queue2}
use atomic_queue_rs.AtomicQueue2.Access.{do_push_any, push_mpmc, do_pop_any, pop_mpmc}
use atomic_queue_rs.AtomicQueue2.Valid.{slot, IsQueue, get_slot_lem, slot-IsRing}
use atomic_queue_rs.AtomicQueue2.Holds.{Holds, length-held, head_free}

module _ {A : Type 0} (p : Profile) {periodic : Bool} {self : Queue2} (q : IsQueue periodic self)
    (mpmc : self.spsc ≡ false) where
  -- A producer between its two accesses to a slot.
  abbrev marked : Shared A → Shared A
  marked m =
      set_state (slot self m.common.head) full_mark (set_head (wrapping_add m.common.head 1) m)

  push-interrupted :
      (fuel : ℕ) (x : A) (m : Shared A)
      → state (slot self m.common.head) m ≡ empty_mark
      → interrupted 2 (push p self (suc fuel) x) m ≡ marked m
  unfolding push do_push_any push_mpmc
  push-interrupted fuel x m free = ground (arith, get_slot_lem q p {A = A} m.common.head)

  pop_mpmc-empty :
      (fuel i : ℕ) (m : Shared A)
      → state i m ≡ full_mark
      → element i m ≡ none
      → run (do_pop_any self (suc fuel) i) m ≡ failed (set_state i empty_mark m) undefined
  unfolding do_pop_any pop_mpmc
  pop_mpmc-empty fuel i m full hole = ground arith

  -- On a valid empty AtomicQueue2 or AtomicQueueB2 without SPSC, whose next slot holds no value and
  -- whose counters do not overflow (in a release build with a power-of-two capacity they may), pop
  -- reads uninitialized memory if it runs after the first two accesses of a push: the slot is FULL
  -- before its element is written.
  pub reads_uninitialized :
      (n fuel rounds : ℕ) (m : Shared A) (x : A)
      → Holds p periodic self (suc n) m []
      → element (slot self m.common.head) m ≡ none
      → (m' : Shared A) × (run
            (pop p self (suc fuel))
            (interrupted 2 (push p self (suc rounds) x) m)
          ≡ failed m' undefined)
  unfolding pop
  reads_uninitialized n fuel rounds m x h hole = (
    set_state (slot self m.common.tail) empty_mark
        (set_tail (wrapping_add m.common.tail 1) (marked m)),
    rw (push-interrupted rounds x m free)
        (ground (arith, get_slot_lem q p {A = A} m.common.tail, reads)),
  )
    where
      nothing : size m.common ≡ 0
      nothing = sym (length-held p q n m [] h)

      free : state (slot self m.common.head) m ≡ empty_mark
      free = head_free p q n m [] h x (omega (arith, q.pos, nothing))

      same : m.common.head ≡ m.common.tail
      same = omega (arith, nothing, h.counts.head_word, h.counts.tail_word)

      reads :
          run
            (do_pop_any self (suc fuel) (slot self m.common.tail))
            (set_tail (wrapping_add m.common.tail 1) (marked m))
          ≡ failed
              (set_state
                (slot self m.common.tail)
                empty_mark
                (set_tail (wrapping_add m.common.tail 1) (marked m)))
              undefined
      reads =
          pop_mpmc-empty fuel (slot self m.common.tail)
            (set_tail (wrapping_add m.common.tail 1) (marked m))
            (rw (← same) (
              get_or-set_self m.storage.states (slot self m.common.head) full_mark empty_mark
                (rw h.states_sized ((slot-IsRing q).in_range m.common.head))))
            (rw (← same) hole)

module _ {A : Type 0} (p : Profile) {periodic : Bool} {self : Queue2}
    (q : IsQueue periodic self) where
  -- On a valid empty AtomicQueue2 or AtomicQueueB2 in any mode, whose counters do not overflow (in
  -- a release build with a power-of-two capacity they may), a try_push that runs after the first
  -- access of a pop panics in a debug build, and in a release build returns false as if the queue
  -- were full.
  pub try_push2-behind_pop :
      (n fuel rounds : ℕ) (m : Shared A) (x : A)
      → Holds p periodic self (suc n) m []
      → run (try_push p self rounds x) (interrupted 1 (pop p self fuel) m)
        ≡ refused p (set_tail (wrapping_add m.common.tail 1) m)
  unfolding try_push pop
  try_push2-behind_pop n fuel rounds m x h = ground (
    arith,
    sub_usize-passed h.counts p periodic n h.fits
        (let e : size m.common ≡ 0 = sym (length-held p q n m [] h) in e),
    q.small,
  )
