-- ===== src/AtomicQueue2/Conserved/Moves.antt =====
-- The two compare-exchanges of a state that take part in sending and receiving an element.
use atomic_queue_rs.Base.{ℕ, suc, ◌+◌, ◌≤◌, ◌<◌, ◌≡◌, ap, arith}
use atomic_queue_rs.Program.Threads.{assign}
use atomic_queue_rs.AtomicQueue2.Slots.{Shared, state, set_state, empty_mark, full_mark}
use atomic_queue_rs.AtomicQueue2.Conserved.{Part, part, Inv, within-assign}
use atomic_queue_rs.AtomicQueue2.Conserved.Weights.{
  count_full-filled, count_full-emptied, total-assign,
}

module _ {A : Type 0} (count : ℕ) (offered : ℕ → ℕ) (i : ℕ) (below : i < count) (n : ℕ)
    (parts : ℕ → Part) (s : Unit {0}) (m : Shared A) (slot a b c : ℕ)
    (inv : Inv count offered n parts s m) (now : parts i ≡ part a b c) where
  pub fill-Inv :
      (rest : ℕ)
      → suc rest ≤ c
      → Inv count offered
          (suc n)
          (assign parts i (part (a + 1) b rest))
          s
          (set_state slot full_mark m)
  fill-Inv rest covers = record {
    conserved = omega (
      arith,
      total-assign (λ (g : Part). g.sent) parts i (part (a + 1) b rest) count below,
      total-assign (λ (g : Part). g.received) parts i (part (a + 1) b rest) count below,
      ap (λ (g : Part). g.sent) now,
      ap (λ (g : Part). g.received) now,
      inv.conserved,
      count_full-filled m.storage.states slot,
    );
    within =
        within-assign offered i parts (part (a + 1) b rest) inv.within
          (omega (arith, inv.within i, ap (λ (g : Part). g.sent + g.pending) now));
  }

  pub take-Inv :
      state slot m ≡ full_mark
      → Inv count offered
          (suc n)
          (assign parts i (part a (b + 1) c))
          s
          (set_state slot empty_mark m)
  take-Inv full = record {
    conserved = omega (
      arith,
      total-assign (λ (g : Part). g.sent) parts i (part a (b + 1) c) count below,
      total-assign (λ (g : Part). g.received) parts i (part a (b + 1) c) count below,
      ap (λ (g : Part). g.sent) now,
      ap (λ (g : Part). g.received) now,
      inv.conserved,
      count_full-emptied m.storage.states slot full,
    );
    within =
        within-assign offered i parts (part a (b + 1) c) inv.within
          (omega (arith, inv.within i, ap (λ (g : Part). g.sent + g.pending) now));
  }
