-- ===== src/AtomicQueue/Refine.antt =====
-- A call that no other thread disturbs: what it returns, and the memory that it leaves.
use atomic_queue_rs.Base.{
  ℕ, suc, ◌%◌, ◌^◌, ◌≤◌, ◌<◌, ◌≡◌, ◌≢◌, ap, true, false, none, some, arith, wrapping_add,
}
use atomic_queue_rs.Program.{Program, ret, ◌>>=◌, run, done, store, Profile}
use atomic_queue_rs.Program.Laws.{run-done}
use atomic_queue_rs.Common.{set_tail}
use atomic_queue_rs.Ring.{Counts, size, Fits, head-sub-tail, head-add-one, tail-add-one}
use atomic_queue_rs.AtomicQueue.{Queue, try_push, try_pop, take_value}
use atomic_queue_rs.AtomicQueue.Value.{
  Element, size_of, Shared, transmute_copy, set_raw, raw, load_value, store_value,
}
use atomic_queue_rs.AtomicQueue.Valid.{slot, IsElement, IsQueue, get_element_lem, pushed, popped}

-- A value of eight bytes is stored and loaded unchanged.
pub store_word :
    (T : Element) (i v : ℕ) → size_of T ≡ 8 → v < 2 ^ 64 → store_value T i v ≡ store (set_raw i v)
unfolding store_value transmute_copy
store_word T i v wide word = rw wide (ap (λ w. store (set_raw i w)) (omega arith))

load_word :
    (T : Element) (i : ℕ) {B : Type 0} (f : ℕ → Program Shared B) (m : Shared)
    → size_of T ≡ 8
    → raw i m < 2 ^ 64
    → run (load_value T i >>= f) m ≡ run (f (raw i m)) m
unfolding load_value transmute_copy
load_word T i f m wide word =
    rw wide (ap (λ w. run (f w) m) (let e : raw i m % 2 ^ 64 ≡ raw i m = omega arith in e))

module _ (p : Profile) {self : Queue} (q : IsQueue self) (T : Element) (wide : size_of T ≡ 8) where
  module _ {cap : ℕ} (m : Shared) (n : ℕ) (k : Counts cap m.common)
      (fits : Fits p true (suc n) m.common) where
    pub try_push-full :
        (x : ℕ) → self.capacity ≤ size m.common → run (try_push p self T x) m ≡ done m false
    unfolding try_push
    try_push-full x full = ground (arith, head-sub-tail k p true (suc n) fits)

    pub try_push-room :
        (x : ℕ)
        → x < 2 ^ 64
        → size m.common < self.capacity
        → run (try_push p self T x) m ≡ done (pushed self m x) true
    unfolding try_push
    try_push-room x word room = ground (
      arith,
      head-sub-tail k p true (suc n) fits,
      head-add-one k p true n fits,
      get_element_lem p q m.common.head,
      store_word T (slot self m.common.head) x wide word,
    )

    pub try_pop-empty : (fuel : ℕ) → size m.common ≡ 0 → run (try_pop p self T fuel) m ≡ done m none
    unfolding try_pop
    try_pop-empty fuel empty =
        let e : m.common.tail ≡ m.common.head = omega (arith, k.head_word, k.tail_word) in
        ground arith

  -- The wait loop takes a value that is there in its first round, and leaves the mark for empty.
  pub take_value-found :
      (fuel i : ℕ) (m : Shared)
      → IsElement (raw i m)
      → run (take_value p self T (suc fuel) i) m ≡ done (set_raw i 0 m) (raw i m)
  unfolding take_value load_value transmute_copy
  take_value-found fuel i m e =
      let same : raw i m % 2 ^ 64 ≡ raw i m = omega arith in ground (arith, store_word T i 0 wide)

  module _ {cap : ℕ} (m : Shared) (n : ℕ) (k : Counts cap m.common)
      (fits : Fits p true (suc n) m.common) where
    pub try_pop-some :
        (fuel : ℕ)
        → 0 < size m.common
        → IsElement (raw (slot self m.common.tail) m)
        → run (try_pop p self T (suc fuel)) m
          ≡ done (popped self m) (some (raw (slot self m.common.tail) m))
    unfolding try_pop
    try_pop-some fuel stored e =
        let apart : m.common.tail ≢ m.common.head = omega (arith, k.head_word, k.tail_word) in
        ground (
          arith,
          tail-add-one k p true (suc n) fits stored,
          get_element_lem p q m.common.tail,
          run-done (take_value p self T (suc fuel) (slot self m.common.tail)) (λ x. ret (some x))
              (set_tail (wrapping_add m.common.tail 1) m)
              (take_value-found fuel (slot self m.common.tail)
                (set_tail (wrapping_add m.common.tail 1) m) e),
        )
