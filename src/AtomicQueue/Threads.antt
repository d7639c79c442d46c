-- ===== src/AtomicQueue/Threads.antt =====
-- Any number of threads that call the try methods and the queries of one `AtomicQueue`.
use atomic_queue_rs.Base.{
  ℕ, zero, suc, ◌≤◌, ◌≡◌, true, not, some, arith, leb, ltb, ◌==◌, bit_and, leb→lt, false→ne, ap,
}
use atomic_queue_rs.Program.{Program, ret, ◌>>=◌, ◌>>◌, lift, Profile, add_usize, sub_usize}
use atomic_queue_rs.Program.Threads.{System, Reach}
use atomic_queue_rs.Program.Rely.{Safe, Safe-lift, Safe-if, Safe->>=, Reach-Inv}
use atomic_queue_rs.Fifo.{Call, Reply}
use atomic_queue_rs.Common.{AtomicQueueCommon, new_common, was_size, was_empty, was_full}
use atomic_queue_rs.Common.Tickets.{
  Bounded, protocol, limit, Safe-result, next_ticket, difference, exchange_head, exchange_tail,
  was_size-Safe, was_empty-Safe, was_full-Safe,
}
use atomic_queue_rs.Common.Client.{call}
use atomic_queue_rs.AtomicQueue.{Queue, get_element, try_push, try_pop, take_value, ops}
use atomic_queue_rs.AtomicQueue.Value.{
  Element, Shared, size_of, transmute_copy, load_value, store_value,
}

module _ (p : Profile) (self : Queue) where
  get_element-Safe :
      (i : ℕ) (m : Shared) → Safe (protocol self.capacity) limit (get_element p self i) m
  unfolding get_element
  get_element-Safe i m =
      Safe-lift (protocol self.capacity) limit (sub_usize p self.capacity 1) _ m (λ mask e.
        Safe-if (protocol self.capacity) limit (ltb (bit_and i mask) self.allocated) _ _ m (λ _. tt)
          (λ _. tt))

  store_value-Safe :
      (T : Element) (i v : ℕ) (m : Shared)
      → Safe (protocol self.capacity) limit (store_value T i v) m
  unfolding store_value
  store_value-Safe T i v m =
      Safe-lift (protocol self.capacity) limit (transmute_copy (size_of T) 8 v) _ m
        (λ w e n m' small c inv. (omega arith, omega arith, tt))

  take_value-Safe :
      (T : Element) (fuel i : ℕ) (m : Shared)
      → Safe (protocol self.capacity) limit (take_value p self T fuel i) m
  unfolding take_value load_value
  take_value-Safe T zero i m = tt
  take_value-Safe T (suc fuel) i m = λ n m' small c inv. (
    omega arith,
    omega arith,
    Safe->>= (protocol self.capacity) limit (lift (transmute_copy 8 (size_of T) _)) _ m'
        (Safe-result self.capacity (transmute_copy 8 (size_of T) _) m')
        (λ current m'' c'.
          Safe-if (protocol self.capacity) limit (current == 0) _ _ m''
            (λ _. take_value-Safe T fuel i m'')
            (λ _.
              Safe->>= (protocol self.capacity) limit (store_value T i 0) _ m''
                (store_value-Safe T i 0 m'') (λ _ m3 c3. tt))),
  )

  module _ (T : Element) where
    store-Safe :
        (h v : ℕ) (m : Shared)
        → Safe
            (protocol self.capacity)
            limit
            (do slot ← get_element p self h; store_value T slot v; ret true)
            m
    store-Safe h v m =
        Safe->>= (protocol self.capacity) limit (get_element p self h) _ m (get_element-Safe h m)
          (λ slot m' c.
            Safe->>= (protocol self.capacity) limit (store_value T slot v) _ m'
              (store_value-Safe T slot v m') (λ _ m'' c'. tt))

    try_push-Safe :
        (v : ℕ) (m : Shared) → Safe (protocol self.capacity) limit (try_push p self T v) m
    unfolding try_push
    try_push-Safe v m = λ n1 m1 s1 c1 i1. (
      omega arith,
      omega arith,
      λ n2 m2 s2 c2 i2. (
        omega arith,
        omega arith,
        Safe-lift (protocol self.capacity) limit (sub_usize p m1.common.head m2.common.tail) _ m2
            (λ size e.
              Safe-if (protocol self.capacity) limit (leb self.capacity size) _ _ m2 (λ _. tt)
                (λ room.
                  Safe-lift (protocol self.capacity) limit (add_usize p m1.common.head 1) _ m2
                    (λ next e'. λ n3 m3 s3 c3 i3.
                      let (inv, change) =
                        exchange_head self.capacity n3 m1.common.head next m3 i3 (λ same.
                          let one = next_ticket p m1.common.head next (omega arith) e' in
                          let d =
                            difference p m1.common.head m2.common.tail size (omega arith)
                              (omega arith) e in
                          let small = leb→lt self.capacity size room in (one, omega arith)) in
                      (
                        inv,
                        change,
                        Safe-if (protocol self.capacity) limit
                            (not (m3.common.head == m1.common.head)) _ _ _ (λ _. tt)
                            (λ _. store-Safe m1.common.head v _),
                      )))),
      ),
    )

    take-Safe :
        (fuel t : ℕ) (m : Shared)
        → Safe
            (protocol self.capacity)
            limit
            (do
              slot ← get_element p self t
              current ← take_value p self T fuel slot
              ret (some current))
            m
    take-Safe fuel t m =
        Safe->>= (protocol self.capacity) limit (get_element p self t) _ m (get_element-Safe t m)
          (λ slot m' c.
            Safe->>= (protocol self.capacity) limit (take_value p self T fuel slot) _ m'
              (take_value-Safe T fuel slot m') (λ _ m'' c'. tt))

    try_pop-Safe :
        (fuel : ℕ) (m : Shared) → Safe (protocol self.capacity) limit (try_pop p self T fuel) m
    unfolding try_pop
    try_pop-Safe fuel m = λ n1 m1 s1 c1 i1. (
      omega arith,
      omega arith,
      λ n2 m2 s2 c2 i2. (
        omega arith,
        omega arith,
        Safe-if (protocol self.capacity) limit (m1.common.tail == m2.common.head) _ _ m2 (λ _. tt)
            (λ some.
              Safe-lift (protocol self.capacity) limit (add_usize p m1.common.tail 1) _ m2
                (λ next e. λ n3 m3 s3 c3 i3.
                  let one = next_ticket p m1.common.tail next (omega arith) e in
                  let differ = false→ne m1.common.tail m2.common.head some in
                  let (inv, change) =
                    exchange_tail self.capacity n3 m1.common.tail next m3 i3
                      (λ same. (one, omega arith)) in
                  (
                    inv,
                    change,
                    Safe-if (protocol self.capacity) limit (not (m3.common.tail == m1.common.tail))
                        _ _ _ (λ _. tt) (λ _. take-Safe fuel m1.common.tail _),
                  ))),
      ),
    )

  call-Safe :
      (T : Element) (fuel : ℕ) (c : Call ℕ) (m : Shared)
      → Safe (protocol self.capacity) limit (call (ops p self T fuel) c) m
  unfolding ops
  call-Safe T fuel (Call.try_push v) m =
      Safe->>= (protocol self.capacity) limit (try_push p self T v) _ m (try_push-Safe T v m)
        (λ _ m' c. tt)
  call-Safe T fuel Call.try_pop m =
      Safe->>= (protocol self.capacity) limit (try_pop p self T fuel) _ m (try_pop-Safe T fuel m)
        (λ _ m' c. tt)
  call-Safe T fuel Call.was_size m =
      Safe->>= (protocol self.capacity) limit (was_size p) _ m (was_size-Safe self.capacity p m)
        (λ _ m' c. tt)
  call-Safe T fuel Call.was_empty m =
      Safe->>= (protocol self.capacity) limit was_empty _ m (was_empty-Safe self.capacity m)
        (λ _ m' c. tt)
  call-Safe T fuel Call.was_full m =
      Safe->>= (protocol self.capacity) limit (was_full p self.capacity) _ m
        (was_full-Safe self.capacity p m) (λ _ m' c. tt)

  -- Every thread makes calls that do not wait for others, one after the other.
  pub data Job (T : Element) (fuel : ℕ) : ℕ → Program Shared (Reply ℕ) → Type 0 where
    job : (i : ℕ) (c : Call ℕ) → Job T fuel i (call (ops p self T fuel) c)

  job-Safe :
      (T : Element) (fuel i : ℕ) (q : Program Shared (Reply ℕ))
      → Job T fuel i q
      → (m : Shared) → Safe (protocol self.capacity) limit q m
  job-Safe T fuel i q (job _ c) m = call-Safe T fuel c m

  -- In every run of at most 2^64 - 1 steps of any number of threads that call try_push, try_pop and
  -- the queries of one AtomicQueue, from idle threads and counters at 0, under both profiles, tail
  -- never passes head, and head is never more than the capacity ahead of tail.
  pub threads-Bounded :
      (T : Element) (fuel n : ℕ) (s t : System Shared (Reply ℕ))
      → (s.memory.common ≡ new_common)
      → ((i : ℕ) → (a : Reply ℕ) × (s.thread i ≡ ret a))
      → Reach (Job T fuel) s n t
      → n ≤ limit
      → Bounded self.capacity n t.memory
  threads-Bounded T fuel n s t new idle r small =
      Reach-Inv (protocol self.capacity) limit (Job T fuel) (job-Safe T fuel) s t start idle r small
    where
      start : Bounded self.capacity 0 s.memory
      start =
          let h = ap (λ (c : AtomicQueueCommon). c.head) new in
          let t = ap (λ (c : AtomicQueueCommon). c.tail) new in omega arith
