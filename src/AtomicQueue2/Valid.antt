-- ===== src/AtomicQueue2/Valid.antt =====
-- The slots of an `AtomicQueue2` or `AtomicQueueB2` make a ring.
use atomic_queue_rs.Base.{
  ℕ, ◌+◌, ◌-◌, ◌%◌, ◌^◌, ◌≤◌, ◌<◌, ◌≡◌, ◌≢◌, sym, ◌∙◌, ◌⊎◌, inl, inr, refl, ap, Bool, true, arith,
  bit_and, ne→==, le→leb,
}
use atomic_queue_rs.Base.Bits.{bit_and_mask}
use atomic_queue_rs.Program.{rem_usize, ret, Profile, debug, release, ok, sub_usize}
use atomic_queue_rs.Arch.{remap_index}
use atomic_queue_rs.Arch.Remap.{remap_index_involutive, remap_index-lt}
use atomic_queue_rs.Ring.{IsRing, word-mod, shuffled-IsRing}
use atomic_queue_rs.AtomicQueue2.Slots.{}
use atomic_queue_rs.AtomicQueue2.Types.{Variant, at_compile_time, at_run_time, Queue2}
use atomic_queue_rs.AtomicQueue2.Access.{reduce_index, get_slot}

-- The slot of a ticket.
abbrev pub slot : Queue2 → ℕ → ℕ
slot self i = remap_index (i % self.capacity) self.shuffle_bits

-- The fields that a constructor fixes. The capacity is a power of two if `periodic` is true.
pub record IsQueue (periodic : Bool) (self : Queue2) : Type 0 where
  pub pos : 0 < self.capacity
  pub small : self.capacity ≤ 2 ^ 63
  pub all : self.allocated ≡ self.capacity
  pub power : periodic ≡ true → (log : ℕ) × (self.capacity ≡ 2 ^ log) × (log ≤ 63)
  pub masked : self.variant ≡ at_run_time → periodic ≡ true
  pub shuffled :
      (self.shuffle_bits ≡ 0)
      ⊎ ((log : ℕ) × (self.capacity ≡ 2 ^ log)
          × (self.shuffle_bits ≤ 8)
          × (self.shuffle_bits + self.shuffle_bits ≤ log))

module _ {periodic : Bool} {self : Queue2} (q : IsQueue periodic self) where
  shuffle-lt : (i : ℕ) → i < self.capacity → remap_index i self.shuffle_bits < self.capacity
  unfolding remap_index
  shuffle-lt i h = elim q.shuffled [
    | inl plain ↦ rw plain h
    | inr (log, e, few, room) ↦
        rw e (remap_index-lt self.shuffle_bits log i (omega arith) room (rw (← e) h))
  ]

  shuffle_involutive : (i : ℕ) → remap_index (remap_index i self.shuffle_bits) self.shuffle_bits ≡ i
  unfolding remap_index
  shuffle_involutive i = elim q.shuffled [
    | inl plain ↦ rw plain refl
    | inr (log, e, few, room) ↦ remap_index_involutive self.shuffle_bits i (omega arith)
  ]

  word : periodic ≡ true → (i : ℕ) → i % 2 ^ 64 % self.capacity ≡ i % self.capacity
  word h i = let (log, e, small) = q.power h in rw e (word-mod log i small)

  pub slot-IsRing : IsRing self.capacity (slot self) periodic
  slot-IsRing =
      shuffled-IsRing self.capacity periodic (λ i. remap_index i self.shuffle_bits) q.pos q.small
        word shuffle-lt shuffle_involutive

  pub slot_apart : (i j : ℕ) → i < j → j < i + self.capacity → slot self i ≢ slot self j
  slot_apart i j lt near = λ e.
      (slot-IsRing).apart i (j - i) (omega arith) (omega arith)
        (ap (slot self) (let d : i + (j - i) ≡ j = omega arith in d) ∙ sym e)

  pub mask_index :
      self.variant ≡ at_run_time → (i : ℕ) → bit_and i (self.capacity - 1) ≡ i % self.capacity
  mask_index h i = let (log, e, small) = q.power (q.masked h) in rw e (bit_and_mask log i)

  pub capacity-sub-one : (p : Profile) → sub_usize p self.capacity 1 ≡ ok (self.capacity - 1)
  unfolding sub_usize
  capacity-sub-one debug = rw (le→leb 1 self.capacity q.pos)
  capacity-sub-one release = ap ok (omega (arith, q.pos, q.small))

  reduce_index_lem :
      (p : Profile) (v : Variant)
      → self.variant ≡ v
      → (i : ℕ) → reduce_index p self v i ≡ ok (i % self.capacity)
  unfolding reduce_index rem_usize
  reduce_index_lem p at_compile_time h i = rw (ne→== self.capacity 0 (omega (arith, q.pos)))
  reduce_index_lem p at_run_time h i = ground (arith, capacity-sub-one p, mask_index h i)

  -- Every index has a slot within both arrays of a valid AtomicQueue2 or AtomicQueueB2, by
  -- remainder and by mask alike: no access is out of bounds, and no division is by 0.
  pub get_slot_lem :
      (p : Profile) {A : Type 0} (index : ℕ) → get_slot p self {A = A} index ≡ ret (slot self index)
  unfolding get_slot
  get_slot_lem p index =
      ground (arith, reduce_index_lem p self.variant refl index, slot-IsRing.in_range index, q.all)
