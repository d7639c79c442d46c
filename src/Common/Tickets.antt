-- ===== src/Common/Tickets.antt =====
-- Threads that share the counters of a queue: what keeps `tail`, `head` and the capacity in order.
use native.Mathlib.Decide.{ℕ_discrete}
use atomic_queue_rs.Base.{
  ℕ, suc, ◌+◌, ◌-◌, ◌^◌, ◌≤◌, ◌<◌, ◌≡◌, arith, ◌==◌, if◌then◌else◌, sym, ◌∙◌, eq→==, ne→==,
}
use atomic_queue_rs.Program.{lift, Profile, Result, ok, fault, add_usize, sub_usize}
use atomic_queue_rs.Program.Laws.{add_usize_fits, sub_usize_fits, ok_injective}
use atomic_queue_rs.Program.Rely.{Protocol, Safe, Safe->>=}
use atomic_queue_rs.Common.{Memory, set_head, set_tail, was_size, was_empty, was_full}

-- One more step is below the modulus of the counters.
abbrev pub limit : ℕ
limit = 2 ^ 64 - 1

module _ (p : Profile) where
  pub next_ticket : (c next : ℕ) → c < limit → add_usize p c 1 ≡ ok next → next ≡ c + 1
  next_ticket c next small e = sym (ok_injective (sym (add_usize_fits p c 1 (omega arith)) ∙ e))

  pub difference : (a b d : ℕ) → b ≤ a → a < limit → sub_usize p a b ≡ ok d → d ≡ a - b
  difference a b d h small e = sym (ok_injective (sym (sub_usize_fits p a b h (omega arith)) ∙ e))

module _ {S : Type 0} (capacity : ℕ) where
  -- `tail` never passes `head`, and `head` is never more than the capacity ahead.
  pub record Bounded (n : ℕ) (m : Memory S) : Type 0 where
    pub ordered : m.common.tail ≤ m.common.head
    pub within : m.common.head ≤ m.common.tail + capacity
    pub counted : m.common.head ≤ n

  -- Both counters only grow.
  pub record Grows (a b : Memory S) : Type 0 where
    pub head_grows : a.common.head ≤ b.common.head
    pub tail_grows : a.common.tail ≤ b.common.tail

  abbrev pub protocol : Protocol (Memory S)
  protocol = record {
    Inv = Bounded;
    Changes = Grows;
    stays = λ m. omega arith;
    chain = λ a b c p q. omega arith;
    later = λ n m i. omega arith;
  }

  pub Safe-result :
      {A : Type 0} (x : Result A) (m : Memory S) → Safe protocol limit (lift {M = Memory S} x) m
  Safe-result (ok a) m = tt
  Safe-result (fault e) m = tt

  -- An exchange that finds the counter unchanged claims one ticket.
  pub exchange_head :
      (n h next : ℕ) (m : Memory S)
      → Bounded n m
      → (m.common.head ≡ h → (next ≡ h + 1) × (next ≤ m.common.tail + capacity))
      → Bounded (suc n) (if m.common.head == h then set_head next m else m)
        × Grows m (if m.common.head == h then set_head next m else m)
  exchange_head n h next m inv claim = elim (ℕ_discrete m.common.head h) [
    | yes e ↦ let (one, room) = claim e in rw (eq→== m.common.head h e) (omega arith, omega arith)
    | no ne ↦ rw (ne→== m.common.head h ne) (omega arith, omega arith)
  ]

  pub exchange_tail :
      (n t next : ℕ) (m : Memory S)
      → Bounded n m
      → (m.common.tail ≡ t → (next ≡ t + 1) × (next ≤ m.common.head))
      → Bounded (suc n) (if m.common.tail == t then set_tail next m else m)
        × Grows m (if m.common.tail == t then set_tail next m else m)
  exchange_tail n t next m inv claim = elim (ℕ_discrete m.common.tail t) [
    | yes e ↦ let (one, room) = claim e in rw (eq→== m.common.tail t e) (omega arith, omega arith)
    | no ne ↦ rw (ne→== m.common.tail t ne) (omega arith, omega arith)
  ]

  pub was_empty-Safe : (m : Memory S) → Safe protocol limit was_empty m
  unfolding was_empty
  was_empty-Safe m =
      λ n1 m1 s1 c1 i1. (omega arith, omega arith, λ n2 m2 s2 c2 i2. (omega arith, omega arith, tt))

  module _ (p : Profile) where
    pub was_size-Safe : (m : Memory S) → Safe protocol limit (was_size p) m
    unfolding was_size
    was_size-Safe m = λ n1 m1 s1 c1 i1. (
      omega arith,
      omega arith,
      λ n2 m2 s2 c2 i2.
          (omega arith, omega arith, Safe-result (sub_usize p m1.common.head m2.common.tail) m2),
    )

    pub was_full-Safe : (m : Memory S) → Safe protocol limit (was_full p capacity) m
    unfolding was_full
    was_full-Safe m = Safe->>= protocol limit (was_size p) _ m (was_size-Safe m) (λ size m' c. tt)
