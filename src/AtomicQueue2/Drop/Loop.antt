-- ===== src/AtomicQueue2/Drop/Loop.antt =====
-- The loop of `drop`: one slot, and what all rounds drop.
use native.Mathlib.Decide.{ℕ_discrete}
use native.Mathlib.Nat.{mod-eq_of_lt}
use atomic_queue_rs.Base.{
  ℕ, zero, suc, ◌+◌, ◌≤◌, ◌<◌, ◌≡◌, refl, ap, ◌∙◌, Bool, Option, none, some, List, [], ◌∷◌, ◌++◌,
  arith, ◌==◌, if◌then◌else◌,
}
use atomic_queue_rs.Program.{ret, run, done, ◌>>=◌, Profile, ok}
use atomic_queue_rs.Program.Laws.{run-done}
use atomic_queue_rs.Arch.{remap_index}
use atomic_queue_rs.Ring.{collect}
use atomic_queue_rs.AtomicQueue2.Slots.{Shared, state, element, full_mark}
use atomic_queue_rs.AtomicQueue2.Types.{Queue2, Variant, at_compile_time, at_run_time}
use atomic_queue_rs.AtomicQueue2.Valid.{slot, IsQueue, slot-IsRing, mask_index, capacity-sub-one}
use atomic_queue_rs.AtomicQueue2.Drop.{drop_index, drop_slot, drop_from}

module _ {A : Type 0} where
  unfoldable pub values : Option A → List A
  values none = []
  values (some x) = x ∷ []

  -- What is dropped at a slot.
  unfoldable pub drops : Shared A → ℕ → List A
  drops m j = if state j m == full_mark then values (element j m) else []

  -- A FULL slot has a value.
  abbrev pub IsSound : Shared A → ℕ → Type 0
  IsSound m j = state j m ≡ full_mark → (x : A) × (element j m ≡ some x)

  drop_slot_lem : (j : ℕ) (m : Shared A) → IsSound m j → run (drop_slot j) m ≡ done m (drops m j)
  unfolding drop_slot drops values
  drop_slot_lem j m sound = elim (ℕ_discrete (state j m) full_mark) [
    | yes full ↦ let (x, there) = sound full in ground arith
    | no free ↦ ground arith
  ]

module _ (p : Profile) {periodic : Bool} {self : Queue2} (q : IsQueue periodic self) where
  drop_index_lem :
      (v : Variant) → self.variant ≡ v → (i : ℕ) → i < self.capacity → drop_index p self v i ≡ ok i
  unfolding drop_index
  drop_index_lem at_compile_time e i h = refl
  drop_index_lem at_run_time e i h =
      ground (arith, capacity-sub-one q p, mask_index q e i, mod-eq_of_lt h)

  drop_from-suc :
      {A : Type 0} (k i : ℕ)
      → i < self.capacity
      → drop_from p self {A = A} (suc k) i ≡ (do
        dropped ← drop_slot (slot self i)
        rest ← drop_from p self k (suc i)
        ret (dropped ++ rest))
  unfolding drop_from
  drop_from-suc k i h =
      let same : slot self i ≡ remap_index i self.shuffle_bits =
        ap (λ j. remap_index j self.shuffle_bits) (mod-eq_of_lt h) in
      ground (arith, drop_index_lem self.variant refl i h, same, (slot-IsRing q).in_range i, q.all)

module _ {A : Type 0} (p : Profile) {periodic : Bool} {self : Queue2} (q : IsQueue periodic self)
    (m : Shared A) (sound : (i : ℕ) → i < self.capacity → IsSound m (slot self i)) where
  pub drop_from_lem :
      (k i : ℕ)
      → i + k ≤ self.capacity
      → run (drop_from p self k i) m ≡ done m (collect (λ j. drops m (slot self j)) i k)
  unfolding drop_from
  drop_from_lem zero i room = refl
  drop_from_lem (suc k) i room =
      ap (λ c. run c m) (drop_from-suc p q k i (omega arith))
      ∙ run-done (drop_slot (slot self i)) (λ d. drop_from p self k (suc i) >>= λ r. ret (d ++ r)) m
          (drop_slot_lem (slot self i) m (sound i (omega arith)))
      ∙ run-done (drop_from p self k (suc i)) (λ r. ret (drops m (slot self i) ++ r)) m
          (drop_from_lem k (suc i) (omega arith))
      ∙ ap (done m) (
          ap (λ t. drops m (slot self i) ++ collect (λ j. drops m (slot self j)) t k) (omega arith))
