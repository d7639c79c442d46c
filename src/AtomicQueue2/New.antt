-- ===== src/AtomicQueue2/New.antt =====
-- The constructors of `AtomicQueue2` and `AtomicQueueB2`.
use atomic_queue_rs.Base.{
  ℕ, ◌+◌, ◌-◌, ◌*◌, ◌/◌, ◌^◌, ◌≤◌, ◌<◌, ◌≡◌, ◌⊎◌, inl, inr, refl, ap, Bool, true, false, [], none,
  arith, length-replicate, ltb, Bool-cases, two-pow_pos, two-pow-reflects,
}
use atomic_queue_rs.Program.{Profile, debug, release, Result, ok, fault, panic, array_layout}
use atomic_queue_rs.Arch.{Target, cache_line_size, get_index_shuffle_bits}
use atomic_queue_rs.Arch.RoundUp.{IsLeastPower, round_up_to_power_of_2_lem}
use atomic_queue_rs.Arch.Shuffle.{shuffle_bits_fit}
use atomic_queue_rs.Common.{new_common}
use atomic_queue_rs.Ring.{window-replicate, Fits}
use atomic_queue_rs.AtomicQueue2.Slots.{Shared, empty_mark}
use atomic_queue_rs.AtomicQueue2.Types.{
  at_compile_time, at_run_time, Variant, Queue2, fresh, build, new, new_b2,
}
use atomic_queue_rs.AtomicQueue2.Valid.{slot, IsQueue}
use atomic_queue_rs.AtomicQueue2.Holds.{Holds}

-- An empty queue whose counters fit any number of calls below 2^64, with the capacity that its
-- constructor promises.
pub record IsNew {A : Type 0} (p : Profile) (periodic : Bool) (Capacity : ℕ → Type 0)
    (self : Queue2) (m : Shared A) : Type 0 where
  pub capacity : Capacity self.capacity
  pub queue : IsQueue periodic self
  pub holds : (n : ℕ) → n < 2 ^ 64 → Holds p periodic self n m []

Fits-new : (p : Profile) (periodic : Bool) (n : ℕ) → n < 2 ^ 64 → Fits p periodic n new_common
Fits-new debug periodic n h = omega arith
Fits-new release true n h = tt
Fits-new release false n h = omega arith

pub fresh-Holds :
    {A : Type 0} (p : Profile) (periodic : Bool) (self : Queue2) (n : ℕ)
    → n < 2 ^ 64
    → Holds {A = A} p periodic self n (fresh self.capacity) []
fresh-Holds p periodic self n h = record {
  states_sized = length-replicate self.capacity empty_mark;
  elements_sized = length-replicate self.capacity none;
  counts = record { head_word = omega arith; tail_word = omega arith; within = omega arith };
  fits = Fits-new p periodic n h;
  stored = refl;
  full = refl;
  free = window-replicate empty_mark (slot self) self.capacity 0 (self.capacity - 0);
}

shuffle_room :
    (minimize : Bool) (c log e : ℕ)
    → c ≡ 2 ^ log
    → (get_index_shuffle_bits minimize c e ≡ 0)
      ⊎ ((log : ℕ) × (c ≡ 2 ^ log)
          × (get_index_shuffle_bits minimize c e ≤ 8)
          × (get_index_shuffle_bits minimize c e + get_index_shuffle_bits minimize c e ≤ log))
shuffle_room minimize c log e power = elim (shuffle_bits_fit minimize c e).1 [
  | inl plain ↦ inl plain
  | inr room ↦ inr (
    log,
    power,
    (shuffle_bits_fit minimize c e).0,
    two-pow-reflects (bits + bits) log (
        omega (
          arith,
          ap (λ (t : ℕ). 2 ^ t) (let d : bits * 2 ≡ bits + bits = omega arith in d),
          room,
          power,
        )),
  )
]
  where
    bits : ℕ
    bits = get_index_shuffle_bits minimize c e

power_IsQueue :
    (self : Queue2) (n e : ℕ)
    → n ≤ 2 ^ 63
    → IsLeastPower n self.capacity
    → self.allocated ≡ self.capacity
    → self.shuffle_bits ≡ get_index_shuffle_bits true self.capacity e
    → IsQueue true self
power_IsQueue self n e small l all bits = record {
  pos = omega (arith, l.power, two-pow_pos l.log);
  small = l.least 63 small;
  all = all;
  power =
      λ _. (l.log, l.power, two-pow-reflects l.log 63 (omega (arith, l.least 63 small, l.power)));
  masked = λ _. refl;
  shuffled = rw bits (shuffle_room true self.capacity l.log e l.power);
}

exact_IsQueue :
    (self : Queue2) (n : ℕ)
    → 0 < n
    → n ≤ 2 ^ 63
    → self.capacity ≡ n
    → self.allocated ≡ self.capacity
    → self.variant ≡ at_compile_time
    → self.shuffle_bits ≡ 0
    → IsQueue false self
exact_IsQueue self n pos small cap all fixed plain = record {
  pos = omega (arith, cap, pos);
  small = omega (arith, cap, small);
  all = all;
  power = λ e. cc;
  masked = λ e. cc;
  shuffled = inl plain;
}

-- The queue is new, or one of its arrays would be too large.
abbrev pub IsBuilt :
    {A : Type 0}
    → Profile
    → Bool
    → (Capacity : ℕ → Type 0) → (padded bytes : ℕ) → Result (Queue2 × Shared A)
    → Type 0
IsBuilt p periodic Capacity padded bytes r =
    (c : ℕ) × Capacity c
    × (((padded * c < 2 ^ 63)
          × (bytes * c < 2 ^ 63)
          × (self : Queue2) × (m : Shared _) × (r ≡ ok (self, m))
          × (self.capacity ≡ c)
          × IsNew p periodic Capacity self m)
        ⊎ (((2 ^ 63 ≤ padded * c) ⊎ (2 ^ 63 ≤ bytes * c)) × (r ≡ fault panic)))

build-IsBuilt :
    {A : Type 0} (p : Profile) (periodic : Bool) (Capacity : ℕ → Type 0) (padded bytes : ℕ)
    (self : Queue2)
    → Capacity self.capacity
    → IsQueue periodic self
    → IsBuilt {A = A} p periodic Capacity padded bytes (build padded bytes self)
unfolding build array_layout
build-IsBuilt p periodic Capacity padded bytes self least queue = (
  self.capacity,
  least,
  elim (Bool-cases (ltb (padded * self.capacity) (2 ^ 63))) [
    | inl states ↦ elim (Bool-cases (ltb (bytes * self.capacity) (2 ^ 63))) [
      | inl elements ↦ inl (
        ground (arith, states),
        ground (arith, elements),
        self,
        fresh self.capacity,
        rw (states, elements, build) refl,
        refl,
        record { capacity = least; queue = queue; holds = fresh-Holds p periodic self },
      )
      | inr large ↦ inr (inr (ground (arith, large)), rw (states, large, build) refl)
    ]
    | inr large ↦ inr (inl (ground (arith, large)), rw (large, build) refl)
  ],
)

module _ {A : Type 0} (p : Profile) (target : Target) (padded bytes n : ℕ)
    (maximize_throughput total_order spsc : Bool) (small : n ≤ 2 ^ 63) where
  power_IsBuilt :
      (c : ℕ) (variant : Variant)
      → IsLeastPower n c
      → IsBuilt {A = A} p true (IsLeastPower n) padded bytes (
          build padded bytes (record {
            variant = variant;
            maximize_throughput = maximize_throughput;
            total_order = total_order;
            spsc = spsc;
            capacity = c;
            allocated = c;
            shuffle_bits = get_index_shuffle_bits true c (cache_line_size target / padded);
          }))
  power_IsBuilt c variant least =
      let self : Queue2 = record {
        variant = variant;
        maximize_throughput = maximize_throughput;
        total_order = total_order;
        spsc = spsc;
        capacity = c;
        allocated = c;
        shuffle_bits = get_index_shuffle_bits true c (cache_line_size target / padded);
      } in
      build-IsBuilt p true (IsLeastPower n) padded bytes self least
        (power_IsQueue self n (cache_line_size target / padded) small least refl refl)

  exact_IsBuilt :
      0 < n
      → IsBuilt {A = A} p false
          (λ c. c ≡ n)
          padded
          bytes
          (new p target padded bytes n false maximize_throughput total_order spsc)
  unfolding new get_index_shuffle_bits
  exact_IsBuilt pos =
      let self : Queue2 = record {
        variant = at_compile_time;
        maximize_throughput = maximize_throughput;
        total_order = total_order;
        spsc = spsc;
        capacity = n;
        allocated = n;
        shuffle_bits = 0;
      } in
      build-IsBuilt p false (λ c. c ≡ n) padded bytes self refl
        (exact_IsQueue self n pos small refl refl refl refl)

  -- For every size from 1 to 2^63 and elements of at least one byte, under both profiles,
  -- AtomicQueue2::new and AtomicQueueB2::new make an empty valid queue if both arrays have fewer
  -- than 2^63 bytes, and panic otherwise; the capacity is the least power of two not below the
  -- size, but exactly the size for AtomicQueue2 without minimized contention.
  pub queues2_are_new :
      0 < n
      → 0 < bytes
      → IsBuilt {A = A} p true
          (IsLeastPower n)
          padded
          bytes
          (new p target padded bytes n true maximize_throughput total_order spsc)
        × IsBuilt {A = A} p false
            (λ c. c ≡ n)
            padded
            bytes
            (new p target padded bytes n false maximize_throughput total_order spsc)
        × IsBuilt {A = A} p true
            (IsLeastPower n)
            padded
            bytes
            (new_b2 p target padded bytes n maximize_throughput total_order spsc)
  unfolding new new_b2
  queues2_are_new pos sized =
      let (c, done, least) = round_up_to_power_of_2_lem p n small in
      (
        rw (done, new) (power_IsBuilt c at_compile_time least),
        exact_IsBuilt pos,
        rw (done, new_b2) (power_IsBuilt c at_run_time least),
      )
