-- ===== src/AtomicQueue2/Unordered.antt =====
-- Two producers of src/atomic_queue2.rs without TOTAL_ORDER: `try_push` goes on with the `head` that it
-- has loaded, whatever `fetch_add` returns.
use atomic_queue_rs.Base.{
  ℕ, zero, suc, ◌<◌, ◌≡◌, refl, Bool, true, false, List, [], ◌∷◌, ◌++◌, length, arith, wrapping_add,
  get_or-set_self, lt→leb, if◌then◌else◌,
}
use atomic_queue_rs.Program.{
  Program, ret, atomic, lift, add_usize, run, done, failed, Profile, spinning, ◌>>=◌, ◌>>◌,
}
use atomic_queue_rs.Program.Laws.{run-failed}
use atomic_queue_rs.Program.Threads.{interrupted, resumed}
use atomic_queue_rs.Common.{set_head, compare_exchange_head, fetch_add_head}
use atomic_queue_rs.Ring.{size, head-sub-tail}
use atomic_queue_rs.AtomicQueue2.{try_push, claim_head}
use atomic_queue_rs.AtomicQueue2.Slots.{Shared, state, full_mark, empty_mark}
use atomic_queue_rs.AtomicQueue2.Types.{Queue2}
use atomic_queue_rs.AtomicQueue2.Access.{pause, push_spsc, push_mpmc, do_push_any}
use atomic_queue_rs.AtomicQueue2.Valid.{slot, IsQueue, get_slot_lem, slot-IsRing}
use atomic_queue_rs.AtomicQueue2.Refine.{pushed, claimed_push, try_push-room}
use atomic_queue_rs.AtomicQueue2.Holds.{Holds, length-held, head_free, pushed-Holds}

module _ {A : Type 0} (self : Queue2) where
  pause-run :
      {B : Type 0} (f : Program (Shared A) B) (m : Shared A) → run (pause self >> f) m ≡ run f m
  pause-run f m =
      elim self.maximize_throughput
        as (λ b. run ((if b then ret tt else ret tt) >> f) m ≡ run f m) [
          | true ↦ refl
          | false ↦ refl
        ]

  push_spsc-waits :
      (fuel : ℕ) (x : A) (i : ℕ) (m : Shared A)
      → state i m ≡ full_mark
      → run (push_spsc self fuel x i) m ≡ failed m spinning
  unfolding push_spsc
  push_spsc-waits zero x i m full = refl
  push_spsc-waits (suc fuel) x i m full =
      ground (arith, full, pause-run (push_spsc self fuel x i) m, push_spsc-waits fuel x i m full)

  push_mpmc-waits :
      (fuel : ℕ) (x : A) (i : ℕ) (m : Shared A)
      → state i m ≡ full_mark
      → run (push_mpmc self fuel x i) m ≡ failed m spinning
  unfolding push_mpmc
  push_mpmc-waits zero x i m full = refl
  push_mpmc-waits (suc fuel) x i m full =
      ground (arith, full, pause-run (push_mpmc self fuel x i) m, push_mpmc-waits fuel x i m full)

  do_push_any-waits :
      (fuel : ℕ) (x : A) (i : ℕ) (m : Shared A)
      → state i m ≡ full_mark
      → run (do_push_any self fuel x i) m ≡ failed m spinning
  unfolding do_push_any
  do_push_any-waits fuel x i m full =
      ground (arith, push_spsc-waits fuel x i m full, push_mpmc-waits fuel x i m full)

if-false : {B : Type 0} {b : Bool} → b ≡ false → (x y : B) → (if b then x else y) ≡ y
if-false e x y = rw e

module _ {A : Type 0} (p : Profile) {periodic : Bool} {self : Queue2} (q : IsQueue periodic self)
    (unordered : self.total_order ≡ false) (n : ℕ) (m : Shared A) (l : List A)
    (h : Holds p periodic self (suc n) m l) (room : length l < self.capacity) where
  free : size m.common < self.capacity
  free = omega (arith, length-held p q n m l h)

  -- A try_push that has loaded both counters goes on to claim a ticket.
  try_push-resumed :
      (fuel : ℕ) (x : A)
      → resumed 2 (try_push p self fuel x) m
        ≡ atomic
            (λ m. set_head (wrapping_add m.common.head 1) m)
            (λ _. claimed_push p self fuel x m.common.head true)
  unfolding try_push claim_head
  try_push-resumed fuel x =
      rw
        (
          head-sub-tail h.counts p periodic (suc n) h.fits,
          lt→leb self.capacity (size m.common) free,
          if-false unordered
              (do
                next ← lift (add_usize p m.common.head 1)
                compare_exchange_head m.common.head next)
              (do _ ← fetch_add_head 1; ret true),
        )
        refl

  overlapped :
      (fuel : ℕ) (x : A) (m1 : Shared A)
      → state (slot self m.common.head) m1 ≡ full_mark
      → run (resumed 2 (try_push p self fuel x) m) m1
        ≡ failed (set_head (wrapping_add m1.common.head 1) m1) spinning
  overlapped fuel x m1 full =
      rw (try_push-resumed fuel x, get_slot_lem q p {A = A} m.common.head)
        (run-failed (do_push_any self fuel x (slot self m.common.head)) (λ _. ret true)
          (set_head (wrapping_add m1.common.head 1) m1)
          (do_push_any-waits self fuel x (slot self m.common.head)
            (set_head (wrapping_add m1.common.head 1) m1) full))

  -- On a valid AtomicQueue2 or AtomicQueueB2 without TOTAL_ORDER that is not full and whose
  -- counters do not overflow (in a release build with a power-of-two capacity they may), a try_push
  -- of y that runs after the first two accesses of a try_push of x is accepted and appends y; the
  -- try_push of x then moves head once more, but waits for the slot of y, stores nothing, and runs
  -- out of any fuel.
  pub two_use_one_slot :
      (fuel rounds : ℕ) (x y : A)
      → (m1 : Shared A) × (m2 : Shared A) × (run
            (try_push p self (suc rounds) y)
            (interrupted 2 (try_push p self fuel x) m)
          ≡ done m1 true)
        × Holds p periodic self n m1 (l ++ y ∷ [])
        × (run (resumed 2 (try_push p self fuel x) m) m1 ≡ failed m2 spinning)
        × (m2.common.head ≡ wrapping_add m1.common.head 1)
        × (m2.storage ≡ m1.storage)
  unfolding try_push
  two_use_one_slot fuel rounds x y = (
    pushed self m y,
    set_head (wrapping_add (pushed self m y).common.head 1) (pushed self m y),
    try_push-room p q m n h.counts h.fits rounds y free (head_free p q n m l h y free),
    pushed-Holds p q n m l h y free,
    overlapped fuel x (pushed self m y) (
        get_or-set_self m.storage.states (slot self m.common.head) full_mark empty_mark
          (rw h.states_sized ((slot-IsRing q).in_range m.common.head))),
    refl,
    refl,
  )
