-- ===== src/AtomicQueue/New.antt =====
-- The constructors of `AtomicQueue` and `AtomicQueueB`.
use atomic_queue_rs.Base.{
  ℕ, ◌*◌, ◌<◌, ◌⊎◌, inl, inr, Bool-cases, ltb, ◌^◌, ◌≤◌, ◌≡◌, refl, [], max, arith,
  length-replicate, two-pow-reflects,
}
use atomic_queue_rs.Program.{Profile, panic, undefined, Fault, Result, ok, fault, array_layout}
use atomic_queue_rs.Arch.RoundUp.{IsLeastPower, round_up_to_power_of_2_lem}
use atomic_queue_rs.AtomicQueue.{Queue, fresh, build, new, new_b}
use atomic_queue_rs.AtomicQueue.Value.{Shared}
use atomic_queue_rs.AtomicQueue.Valid.{contents, IsQueue, IsValid}

-- An empty valid queue whose capacity is the least power of two that is not below `n`.
pub record IsNew (n : ℕ) (self : Queue) (m : Shared) : Type 0 where
  pub least : IsLeastPower n self.capacity
  pub queue : IsQueue self
  pub valid : IsValid self m
  pub empty : contents self m ≡ []

fresh-IsNew :
    (beyond : Fault) (n c : ℕ)
    → n ≤ 2 ^ 63
    → IsLeastPower n c
    → IsNew n (fresh beyond c).0 (fresh beyond c).1
fresh-IsNew beyond n c small l = record {
  least = l;
  queue = record {
    log = l.log;
    power = l.power;
    log_small = two-pow-reflects l.log 63 (omega (arith, l.least 63 small, l.power));
    all = refl;
  };
  valid = record {
    sized = length-replicate c 0;
    counts = record { head_word = omega arith; tail_word = omega arith; within = omega arith };
    held = tt;
  };
  empty = refl;
}

-- The queue is new, or its array would be too large.
abbrev pub IsBuilt : (padded n : ℕ) → Result (Queue × Shared) → Type 0
IsBuilt padded n r =
    (c : ℕ) × IsLeastPower n c
    × (((padded * c < 2 ^ 63)
          × (self : Queue) × (m : Shared) × (r ≡ ok (self, m))
          × (self.capacity ≡ c)
          × IsNew n self m)
        ⊎ ((2 ^ 63 ≤ padded * c) × (r ≡ fault panic)))

build-IsBuilt :
    (beyond : Fault) (padded n c : ℕ)
    → n ≤ 2 ^ 63
    → IsLeastPower n c
    → IsBuilt padded n (build beyond padded c)
unfolding build array_layout
build-IsBuilt beyond padded n c small least = (
  c,
  least,
  elim (Bool-cases (ltb (padded * c) (2 ^ 63))) [
    | inl room ↦ inl (
      ground (arith, room),
      (fresh beyond c).0,
      (fresh beyond c).1,
      rw (room, build) refl,
      refl,
      fresh-IsNew beyond n c small least,
    )
    | inr large ↦ inr (ground (arith, large), rw (large, build) refl)
  ],
)

-- For every size up to 2^63 and under both profiles AtomicQueue::new and AtomicQueueB::new make an
-- empty valid queue if its array has fewer than 2^63 bytes, and panic otherwise; the capacity is
-- the least power of two that is not below the size, and for AtomicQueueB not below 2 either.
pub queues_are_new :
    (p : Profile) (padded n : ℕ)
    → n ≤ 2 ^ 63
    → IsBuilt padded n (new p padded n) × IsBuilt padded (max n 2) (new_b p padded n)
unfolding new new_b
queues_are_new p padded n small =
    let (c, done, least) = round_up_to_power_of_2_lem p n small in
    let (d, done_b, least_b) = round_up_to_power_of_2_lem p (max n 2) (omega arith) in
    (
      rw (done, new) (build-IsBuilt panic padded n c small least),
      rw (done_b, new_b) (build-IsBuilt undefined padded (max n 2) d (omega arith) least_b),
    )
