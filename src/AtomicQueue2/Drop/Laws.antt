-- ===== src/AtomicQueue2/Drop/Laws.antt =====
-- Dropping a queue drops the elements that it holds, each once, and nothing uninitialized.
use native.Mathlib.Decide.{ℕ_discrete, dec_lt}
use mathlib.Core.Path.{subst}
use mathlib.Core.List.{Perm, append-nil}
use atomic_queue_rs.Base.{
  ℕ, zero, suc, ◌+◌, ◌-◌, ◌≤◌, ◌<◌, ◌≡◌, refl, sym, ap, ap₂, ◌∙◌, Bool, Option, none, some, List,
  [], ◌∷◌, ◌++◌, map, get_or, replicate, arith,
}
use atomic_queue_rs.Program.{run, done, Profile}
use atomic_queue_rs.Ring.{window-head, window, size, collect, collect-add, collect-perm, around}
use atomic_queue_rs.AtomicQueue2.Slots.{Shared, state, empty_mark, full_mark}
use atomic_queue_rs.AtomicQueue2.Types.{Queue2}
use atomic_queue_rs.AtomicQueue2.Valid.{slot, IsQueue, slot-IsRing}
use atomic_queue_rs.AtomicQueue2.Holds.{Holds, head-eq, tail-eq}
use atomic_queue_rs.AtomicQueue2.Drop.{drop}
use atomic_queue_rs.AtomicQueue2.Drop.Loop.{values, drops, IsSound, drop_from_lem}

-- Windows, read at one ticket.
window-at :
    {A : Type 0} (d v : A) (slot : ℕ → ℕ) (xs : List A) (n t : ℕ)
    → window d slot xs t n ≡ replicate n v
    → (i : ℕ) → t ≤ i
    → i < t + n
    → get_or xs (slot i) d ≡ v
window-at d v slot xs zero t e i lo hi = absurd (omega arith)
window-at d v slot xs (suc n) t e i lo hi = elim (ℕ_discrete i t) [
  | yes same ↦ rw same (head-eq e)
  | no ne ↦ window-at d v slot xs n (t + 1) (tail-eq e) i (omega arith) (omega arith)
]

window-some :
    {A : Type 0} (slot : ℕ → ℕ) (xs : List (Option A)) (n t : ℕ) (l : List A)
    → window none slot xs t n ≡ map some l
    → (i : ℕ) → t ≤ i
    → i < t + n
    → (x : A) × (get_or xs (slot i) none ≡ some x)
window-some slot xs zero t l e i lo hi = absurd (omega arith)
window-some slot xs (suc n) t [] e i lo hi = absurd cc
window-some slot xs (suc n) t (x ∷ l) e i lo hi = elim (ℕ_discrete i t) [
  | yes same ↦ (x, rw same (head-eq e))
  | no ne ↦ window-some slot xs n (t + 1) l (tail-eq e) i (omega arith) (omega arith)
]

module _ {A : Type 0} (slot : ℕ → ℕ) (m : Shared A) where
  collect-held :
      (n t : ℕ) (l : List A)
      → ((i : ℕ) → t ≤ i → i < t + n → state (slot i) m ≡ full_mark)
      → window none slot m.storage.elements t n ≡ map some l
      → collect (λ j. drops m (slot j)) t n ≡ l
  unfolding drops values
  collect-held zero t [] full e = refl
  collect-held zero t (x ∷ l) full e = absurd cc
  collect-held (suc n) t [] full e = absurd cc
  collect-held (suc n) t (x ∷ l) full e = ground (
    arith,
    full t (omega arith) (omega arith),
    head-eq e,
    collect-held n (t + 1) l (λ i lo hi. full i (omega arith) (omega arith)) (tail-eq e),
  )

  collect-free :
      (n t : ℕ)
      → ((i : ℕ) → t ≤ i → i < t + n → state (slot i) m ≡ empty_mark)
      → collect (λ j. drops m (slot j)) t n ≡ []
  unfolding drops
  collect-free zero t free = refl
  collect-free (suc n) t free = ground (
    arith,
    free t (omega arith) (omega arith),
    collect-free n (t + 1) (λ i lo hi. free i (omega arith) (omega arith)),
  )

module _ {A : Type 0} (p : Profile) {periodic : Bool} {self : Queue2} (q : IsQueue periodic self)
    (n : ℕ) (m : Shared A) (l : List A) (h : Holds p periodic self n m l) where
  open h use {counts, fits, stored, full, free}

  full_at :
      (i : ℕ)
      → m.common.tail ≤ i
      → i < m.common.tail + size m.common
      → state (slot self i) m ≡ full_mark
  full_at =
      window-at empty_mark full_mark (slot self) m.storage.states (size m.common) m.common.tail full

  free_at :
      (i : ℕ)
      → m.common.tail + size m.common ≤ i
      → i < m.common.tail + size m.common + (self.capacity - size m.common)
      → state (slot self i) m ≡ empty_mark
  free_at =
      window-at empty_mark empty_mark (slot self) m.storage.states (self.capacity - size m.common)
        (m.common.tail + size m.common)
        (sym (
            window-head counts empty_mark m.storage.states (self.capacity - size m.common) p
              periodic (slot-IsRing q) n fits)
          ∙ free)

  sound : (i : ℕ) → i < self.capacity → IsSound m (slot self i)
  sound =
      around (λ i. IsSound m (slot self i)) self.capacity
        (λ i. subst (IsSound m) ((slot-IsRing q).round i)) m.common.tail
        (λ i lo hi is_full. elim (dec_lt i (m.common.tail + size m.common)) [
          | yes lt ↦
              window-some (slot self) m.storage.elements (size m.common) m.common.tail l stored i lo
                lt
          | no ge ↦
              absurd
                (omega (arith, is_full, free_at i (omega arith) (omega (arith, counts.within))))
        ])

  once_round : collect (λ j. drops m (slot self j)) m.common.tail self.capacity ≡ l
  once_round =
      ap (collect (λ j. drops m (slot self j)) m.common.tail) (
        let e : self.capacity ≡ size m.common + (self.capacity - size m.common) =
          omega (arith, counts.within) in
        e)
      ∙ collect-add (λ j. drops m (slot self j)) (size m.common) (self.capacity - size m.common)
          m.common.tail
      ∙ ap₂ ◌++◌ (collect-held (slot self) m (size m.common) m.common.tail l full_at stored) (
          collect-free (slot self) m (self.capacity - size m.common) (m.common.tail + size m.common)
            free_at)
      ∙ append-nil l

  -- Dropping a valid AtomicQueue2 or AtomicQueueB2 returns and drops exactly the elements that it
  -- holds, each once, in some order; no uninitialized element is dropped.
  pub drop-perm :
      (m' : Shared A) × (dropped : List A) × (run (drop p self) m ≡ done m' dropped)
      × Perm dropped l
  unfolding drop
  drop-perm = (
    m,
    collect (λ j. drops m (slot self j)) 0 self.capacity,
    drop_from_lem p q m sound self.capacity 0 (omega arith),
    subst (Perm (collect (λ j. drops m (slot self j)) 0 self.capacity)) once_round (
        collect-perm (λ j. drops m (slot self j)) self.capacity
          (λ i. ap (drops m) ((slot-IsRing q).round i)) m.common.tail),
  )
