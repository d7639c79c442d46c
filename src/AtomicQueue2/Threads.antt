-- ===== src/AtomicQueue2/Threads.antt =====
-- Any number of threads that call the try methods and the queries of one `AtomicQueue2` whose
-- `TOTAL_ORDER` is true.
use atomic_queue_rs.Base.{
  ℕ, ◌≤◌, ◌<◌, ◌≡◌, ap, true, false, not, some, arith, leb, ◌==◌, leb→lt, false→ne, ◌≢◌,
}
use atomic_queue_rs.Program.{Program, ret, ◌>>=◌, ◌>>◌, Profile, ok, add_usize, sub_usize}
use atomic_queue_rs.Program.Threads.{System, Reach}
use atomic_queue_rs.Program.Rely.{Safe, Safe-lift, Safe-if, Safe->>=, Reach-Inv}
use atomic_queue_rs.Fifo.{Call, Reply}
use atomic_queue_rs.Common.{AtomicQueueCommon, new_common, was_size, was_empty, was_full}
use atomic_queue_rs.Common.Tickets.{
  Bounded, protocol, limit, next_ticket, difference, exchange_head, exchange_tail, was_size-Safe,
  was_empty-Safe, was_full-Safe,
}
use atomic_queue_rs.Common.Client.{call}
use atomic_queue_rs.AtomicQueue2.{claim_head, claim_tail, try_push, try_pop, ops}
use atomic_queue_rs.AtomicQueue2.Waits.{get_slot-Safe, do_pop_any-Safe, do_push_any-Safe}
use atomic_queue_rs.AtomicQueue2.Slots.{Shared}
use atomic_queue_rs.AtomicQueue2.Types.{Queue2}
use atomic_queue_rs.AtomicQueue2.Access.{get_slot, do_pop_any, do_push_any}

module _ {A : Type 0} (p : Profile) (self : Queue2) (total : self.total_order ≡ true) where
  claim_head-Safe :
      (h d : ℕ) (m : Shared A)
      → h < limit
      → m.common.tail ≤ m.common.head
      → h ≤ m.common.head
      → sub_usize p h m.common.tail ≡ ok d
      → leb self.capacity d ≡ false
      → Safe (protocol self.capacity) limit (claim_head p self {A = A} h) m
  unfolding claim_head
  claim_head-Safe h d m small ordered old e room =
      Safe-if (protocol self.capacity) limit self.total_order _ _ m
        (λ _. Safe-lift (protocol self.capacity) limit (add_usize p h 1) _ m (λ next e'.
          λ n m' s c inv.
            let (inv', change) = exchange_head self.capacity n h next m' inv (λ same.
              let one = next_ticket p h next small e' in
              let apart = difference p h m.common.tail d (omega arith) small e in
              let free = leb→lt self.capacity d room in (one, omega arith)) in
            (inv', change, tt)))
        (λ partial. absurd cc)

  claim_tail-Safe :
      (t : ℕ) (m : Shared A)
      → t < limit
      → t ≢ m.common.head
      → t ≤ m.common.head
      → Safe (protocol self.capacity) limit (claim_tail p self {A = A} t) m
  unfolding claim_tail
  claim_tail-Safe t m small stored old =
      Safe-if (protocol self.capacity) limit self.total_order _ _ m
        (λ _. Safe-lift (protocol self.capacity) limit (add_usize p t 1) _ m (λ next e'.
          λ n m' s c inv.
            let (inv', change) =
              exchange_tail self.capacity n t next m' inv
                (λ same. let one = next_ticket p t next small e' in (one, omega arith)) in
            (inv', change, tt)))
        (λ partial. absurd cc)

  module _ (fuel : ℕ) where
    store-Safe :
        (h : ℕ) (v : A) (m : Shared A)
        → Safe
            (protocol self.capacity)
            limit
            (do slot ← get_slot p self h; do_push_any self fuel v slot; ret true)
            m
    store-Safe h v m =
        Safe->>= (protocol self.capacity) limit (get_slot p self h) _ m (get_slot-Safe self p h m)
          (λ slot m' c.
            Safe->>= (protocol self.capacity) limit (do_push_any self fuel v slot) _ m'
              (do_push_any-Safe self fuel v slot m') (λ _ m'' c'. tt))

    take-Safe :
        (t : ℕ) (m : Shared A)
        → Safe
            (protocol self.capacity)
            limit
            (do slot ← get_slot p self t; value ← do_pop_any self fuel slot; ret (some value))
            m
    take-Safe t m =
        Safe->>= (protocol self.capacity) limit (get_slot p self t) _ m (get_slot-Safe self p t m)
          (λ slot m' c.
            Safe->>= (protocol self.capacity) limit (do_pop_any self fuel slot) _ m'
              (do_pop_any-Safe self fuel slot m') (λ _ m'' c'. tt))

    try_push-Safe :
        (v : A) (m : Shared A) → Safe (protocol self.capacity) limit (try_push p self fuel v) m
    unfolding try_push
    try_push-Safe v m = λ n1 m1 s1 c1 i1. (
      omega arith,
      omega arith,
      λ n2 m2 s2 c2 i2. (
        omega arith,
        omega arith,
        Safe-lift (protocol self.capacity) limit (sub_usize p m1.common.head m2.common.tail) _ m2
            (λ size e.
              Safe-if (protocol self.capacity) limit (leb self.capacity size) _ _ m2 (λ _. tt)
                (λ room.
                  Safe->>= (protocol self.capacity) limit (claim_head p self m1.common.head) _ m2
                    (claim_head-Safe m1.common.head size m2 (omega arith) (omega arith)
                      (omega arith) e room)
                    (λ claimed m3 c3.
                      Safe-if (protocol self.capacity) limit (not claimed) _ _ m3 (λ _. tt)
                        (λ _. store-Safe m1.common.head v m3)))),
      ),
    )

    try_pop-Safe :
        (m : Shared A) → Safe (protocol self.capacity) limit (try_pop p {A = A} self fuel) m
    unfolding try_pop
    try_pop-Safe m = λ n1 m1 s1 c1 i1. (
      omega arith,
      omega arith,
      λ n2 m2 s2 c2 i2. (
        omega arith,
        omega arith,
        Safe-if (protocol self.capacity) limit (m1.common.tail == m2.common.head) _ _ m2 (λ _. tt)
            (λ stored.
              Safe->>= (protocol self.capacity) limit (claim_tail p self m1.common.tail) _ m2
                (claim_tail-Safe m1.common.tail m2 (omega arith)
                  (false→ne m1.common.tail m2.common.head stored) (omega arith))
                (λ claimed m3 c3.
                  Safe-if (protocol self.capacity) limit (not claimed) _ _ m3 (λ _. tt)
                    (λ _. take-Safe m1.common.tail m3))),
      ),
    )

    call-Safe :
        (c : Call A) (m : Shared A)
        → Safe (protocol self.capacity) limit (call (ops p {A = A} self fuel) c) m
    unfolding ops
    call-Safe (Call.try_push v) m =
        Safe->>= (protocol self.capacity) limit (try_push p self fuel v) _ m (try_push-Safe v m)
          (λ _ m' c. tt)
    call-Safe Call.try_pop m =
        Safe->>= (protocol self.capacity) limit (try_pop p self fuel) _ m (try_pop-Safe m)
          (λ _ m' c. tt)
    call-Safe Call.was_size m =
        Safe->>= (protocol self.capacity) limit (was_size p) _ m (was_size-Safe self.capacity p m)
          (λ _ m' c. tt)
    call-Safe Call.was_empty m =
        Safe->>= (protocol self.capacity) limit was_empty _ m (was_empty-Safe self.capacity m)
          (λ _ m' c. tt)
    call-Safe Call.was_full m =
        Safe->>= (protocol self.capacity) limit (was_full p self.capacity) _ m
          (was_full-Safe self.capacity p m) (λ _ m' c. tt)

-- Every thread makes calls that do not wait for room or for an element, one after the other.
pub data Job {A : Type 0} (p : Profile) (self : Queue2) (fuel : ℕ)
    : ℕ → Program (Shared A) (Reply A) → Type 0 where
  job : (i : ℕ) (c : Call A) → Job p self fuel i (call (ops p {A = A} self fuel) c)

module _ {A : Type 0} (p : Profile) (self : Queue2) (total : self.total_order ≡ true)
    (fuel : ℕ) where
  job-Safe :
      (i : ℕ) (q : Program (Shared A) (Reply A))
      → Job p self fuel i q
      → (m : Shared A) → Safe (protocol self.capacity) limit q m
  job-Safe i q (job _ c) m = call-Safe p self total fuel c m

  -- In every run of at most 2^64 - 1 steps of any number of threads that call try_push, try_pop and
  -- the queries of one AtomicQueue2 or AtomicQueueB2 with TOTAL_ORDER, in every other mode, from
  -- idle threads and counters at 0, tail never passes head, and head is never more than the
  -- capacity ahead of tail.
  pub total_order-Bounded :
      (n : ℕ) (s t : System (Shared A) (Reply A))
      → (s.memory.common ≡ new_common)
      → ((i : ℕ) → (a : Reply A) × (s.thread i ≡ ret a))
      → Reach (Job p self fuel) s n t
      → n ≤ limit
      → Bounded self.capacity n t.memory
  total_order-Bounded n s t new idle reached small =
      Reach-Inv (protocol self.capacity) limit (Job p self fuel) job-Safe s t start idle reached
        small
    where
      start : Bounded self.capacity 0 s.memory
      start =
          let h = ap (λ (c : AtomicQueueCommon). c.head) new in
          let t = ap (λ (c : AtomicQueueCommon). c.tail) new in omega arith
