-- ===== src/AtomicQueue/Valid.antt =====
-- A queue and its memory while no call is under way.
use atomic_queue_rs.Base.{
  ℕ, zero, suc, ◌+◌, ◌-◌, ◌%◌, ◌^◌, ◌≤◌, ◌<◌, ◌≡◌, ◌≢◌, refl, sym, ap, ◌∙◌, true, List, [], ◌∷◌,
  length, bit_and, arith, two-pow_pos, two-pow_mono, lt→ltb, le→leb, wrapping_add,
}
use native.Mathlib.Decide.{dec_lt}
use atomic_queue_rs.Common.{set_head, set_tail}
use atomic_queue_rs.Base.Bits.{bit_and_mask}
use atomic_queue_rs.Program.{run, done, ret, Profile, debug, release, sub_usize}
use mathlib.Core.Path.{subst, fun_ext}
use atomic_queue_rs.Ring.{IsRing, window, Counts, size, word-mod, shuffled-IsRing}
use atomic_queue_rs.AtomicQueue.{Queue, get_element, drop_b_from, drop_b}
use atomic_queue_rs.AtomicQueue.Value.{Shared, set_raw}

-- The slot of a ticket.
abbrev pub slot : Queue → ℕ → ℕ
slot self i = bit_and i (self.capacity - 1)

-- The elements in the queue, oldest first.
abbrev pub contents : Queue → Shared → List ℕ
contents self m = window 0 (slot self) m.storage m.common.tail (size m.common)

-- A value that a queue can hold: a word, and not the default, by which a slot is marked empty.
abbrev pub IsElement : ℕ → Type 0
IsElement x = (0 < x) × (x < 2 ^ 64)

abbrev pub All : (ℕ → Type 0) → List ℕ → Type 0
All P [] = Unit
All P (x ∷ xs) = P x × All P xs

-- The fields that a constructor fixes.
pub record IsQueue (self : Queue) : Type 0 where
  pub log : ℕ
  pub power : self.capacity ≡ 2 ^ log
  pub log_small : log ≤ 63
  pub all : self.allocated ≡ self.capacity

pub record IsValid (self : Queue) (m : Shared) : Type 0 where
  pub sized : length m.storage ≡ self.capacity
  pub counts : Counts self.capacity m.common
  pub held : All IsElement (contents self m)

-- The memory after an accepted push, and after a successful pop.
abbrev pub pushed : Queue → Shared → ℕ → Shared
pushed self m x = set_raw (slot self m.common.head) x (set_head (wrapping_add m.common.head 1) m)

abbrev pub popped : Queue → Shared → Shared
popped self m = set_raw (slot self m.common.tail) 0 (set_tail (wrapping_add m.common.tail 1) m)

slot-eq-mod : {self : Queue} → IsQueue self → (i : ℕ) → slot self i ≡ i % self.capacity
slot-eq-mod q i = rw q.power (bit_and_mask q.log i)

-- The slots of a queue make a ring, also when the counters wrap.
pub slot-IsRing : {self : Queue} → IsQueue self → IsRing self.capacity (slot self) true
slot-IsRing {self} q =
    subst (λ s. IsRing self.capacity s true) (sym (fun_ext (slot-eq-mod q)))
      (shuffled-IsRing self.capacity true (λ i. i) pos small word (λ i h. h) (λ i. refl))
  where
    pos : 0 < self.capacity
    pos = rw q.power (two-pow_pos q.log)

    small : self.capacity ≤ 2 ^ 63
    small = rw q.power (two-pow_mono q.log 63 q.log_small)

    word : true ≡ true → (i : ℕ) → i % 2 ^ 64 % self.capacity ≡ i % self.capacity
    word _ i = rw q.power (word-mod q.log i q.log_small)

-- Tickets below the capacity have slots of their own.
pub slots_differ :
    {self : Queue}
    → IsQueue self
    → (i j : ℕ) → i ≢ j
    → i < self.capacity
    → j < self.capacity
    → slot self i ≢ slot self j
slots_differ {self} q i j ne small smaller e = elim (dec_lt i j) [
  | yes lt ↦
      (slot-IsRing q).apart i (j - i) (omega arith) (omega arith)
        (ap (slot self) (let d : i + (j - i) ≡ j = omega arith in d) ∙ sym e)
  | no ge ↦
      (slot-IsRing q).apart j (i - j) (omega arith) (omega arith)
        (ap (slot self) (let d : j + (i - j) ≡ i = omega arith in d) ∙ e)
]

-- Every index has a slot within the allocation of a valid AtomicQueue or AtomicQueueB: neither the
-- bounds check nor the raw pointer fails.
pub get_element_lem :
    {self : Queue} (p : Profile)
    → IsQueue self
    → (index : ℕ) → get_element p self index ≡ ret (slot self index)
unfolding get_element sub_usize
get_element_lem {self} debug q index =
    let ring = slot-IsRing q in
    rw (
      le→leb 1 self.capacity ring.pos,
      lt→ltb (slot self index) self.allocated (rw (q.all) (ring.in_range index)),
    )
get_element_lem {self} release q index =
    let ring = slot-IsRing q in
    rw (
      (let e : (self.capacity + 2 ^ 64 - 1) % 2 ^ 64 ≡ self.capacity - 1 =
            omega (arith, ring.pos, ring.small) in
          e),
      lt→ltb (slot self index) self.allocated (rw (q.all) (ring.in_range index)),
    )

drop_b_from-runs :
    (self : Queue) (k i : ℕ) (m : Shared)
    → i + k ≤ self.allocated
    → run (drop_b_from self k i) m ≡ done m tt
unfolding drop_b_from
drop_b_from-runs self zero i m h = refl
drop_b_from-runs self (suc k) i m h =
    rw (lt→ltb i self.allocated (omega arith)) (drop_b_from-runs self k (suc i) m (omega arith))

-- `drop` reaches only slots of the allocation, and changes nothing that the threads shared.
pub drop_b-runs : {self : Queue} → IsQueue self → (m : Shared) → run (drop_b self) m ≡ done m tt
unfolding drop_b
drop_b-runs q m = drop_b_from-runs _ _ 0 m (omega (arith, q.all))
