-- ===== src/AtomicQueue2/Waits.antt =====
-- Waiting for a slot of src/atomic_queue2.rs changes no counter, whatever other threads do.
use atomic_queue_rs.Base.{ℕ, suc, arith, ltb, ◌≡◌, ap}
use atomic_queue_rs.Program.{Program, ret, stop, atomic, Profile}
use atomic_queue_rs.Program.Rely.{Safe, Safe-lift, Safe-if}
use atomic_queue_rs.Arch.{remap_index}
use atomic_queue_rs.Common.{AtomicQueueCommon}
use atomic_queue_rs.Common.Tickets.{Bounded, Grows, protocol, limit}
use atomic_queue_rs.AtomicQueue2.Slots.{Shared}
use atomic_queue_rs.AtomicQueue2.Types.{Queue2}
use atomic_queue_rs.AtomicQueue2.Access.{reduce_index, get_slot, do_pop_any, do_push_any}
use atomic_queue_rs.AtomicQueue2.Quiet.{Quiet, do_pop_any-Quiet, do_push_any-Quiet}

module _ {A : Type 0} (self : Queue2) where
  -- What leaves the counters alone keeps them in bounds.
  same_counters :
      (n : ℕ) (a b : Shared A)
      → b.common ≡ a.common
      → Bounded self.capacity n a
      → Bounded self.capacity (suc n) b × Grows self.capacity a b
  same_counters n a b e inv =
      let h = ap (λ (c : AtomicQueueCommon). c.head) e in
      let t = ap (λ (c : AtomicQueueCommon). c.tail) e in (omega arith, omega arith)

  Quiet-Safe :
      {B : Type 0} (p : Program (Shared A) B) (m : Shared A)
      → Quiet p
      → Safe (protocol self.capacity) limit p m
  Quiet-Safe (ret b) m s = tt
  Quiet-Safe (stop e) m s = tt
  Quiet-Safe (atomic update next) m s = λ n m' small c inv.
      let (inv', change) = same_counters n m' (update m') (s m').0 inv in
      (inv', change, Quiet-Safe (next m') (update m') (s m').1)

  pub get_slot-Safe :
      (p : Profile) (i : ℕ) (m : Shared A)
      → Safe (protocol self.capacity) limit (get_slot p self i) m
  unfolding get_slot
  get_slot-Safe p i m =
      Safe-lift (protocol self.capacity) limit (reduce_index p self self.variant i) _ m
        (λ reduced e.
          Safe-if (protocol self.capacity) limit
            (ltb (remap_index reduced self.shuffle_bits) self.allocated) _ _ m (λ _. tt) (λ _. tt))

  pub do_pop_any-Safe :
      (fuel i : ℕ) (m : Shared A) → Safe (protocol self.capacity) limit (do_pop_any self fuel i) m
  do_pop_any-Safe fuel i m = Quiet-Safe (do_pop_any self fuel i) m (do_pop_any-Quiet A self fuel i)

  pub do_push_any-Safe :
      (fuel : ℕ) (x : A) (i : ℕ) (m : Shared A)
      → Safe (protocol self.capacity) limit (do_push_any self fuel x i) m
  do_push_any-Safe fuel x i m =
      Quiet-Safe (do_push_any self fuel x i) m (do_push_any-Quiet A self fuel x i)
