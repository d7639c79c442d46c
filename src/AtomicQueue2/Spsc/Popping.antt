-- ===== src/AtomicQueue2/Spsc/Popping.antt =====
-- Each access of `pop` keeps what the two threads share.
use native.Mathlib.Decide.{ℕ_discrete}
use mathlib.Core.Path.{subst}
use atomic_queue_rs.Base.{
  ℕ, zero, suc, ◌+◌, ◌^◌, ◌<◌, ◌≡◌, refl, sym, ◌∙◌, Bool, true, some, List, [], ◌∷◌, length,
  get_or-set_self, get_or-set_ne, length-set, arith, wrapping_add, eq→==, ne→==,
}
use atomic_queue_rs.Program.{Profile}
use atomic_queue_rs.Program.Duo.{Good, Good->>=, Good-if, Flip}
use atomic_queue_rs.Common.{set_tail}
use atomic_queue_rs.AtomicQueue2.{pop}
use atomic_queue_rs.AtomicQueue2.Slots.{Shared, state, element, set_state, empty_mark, full_mark}
use atomic_queue_rs.AtomicQueue2.Types.{Queue2}
use atomic_queue_rs.AtomicQueue2.Access.{pause, pop_spsc, do_pop_any}
use atomic_queue_rs.AtomicQueue2.Valid.{slot_apart, slot, IsQueue, get_slot_lem, slot-IsRing}
use atomic_queue_rs.AtomicQueue2.Spsc.{Producer, Consumer, Shares, popped}
use atomic_queue_rs.Program.Streams.{get_elem?}
use atomic_queue_rs.AtomicQueue2.Spsc.Slots.{full_published}

-- Within the pop of ticket `r`.
abbrev pub claiming : ℕ → Consumer
claiming r = record { claimed = suc r; found = r; taken = r; released = r }

abbrev finding : ℕ → Consumer
finding r = record { claimed = suc r; found = suc r; taken = r; released = r }

abbrev taking : ℕ → Consumer
taking r = record { claimed = suc r; found = suc r; taken = suc r; released = r }

get_elem?-some :
    {A : Type 0} (xs : List A) (i : ℕ) → i < length xs → (x : A) × (get_elem? xs i ≡ some x)
get_elem?-some [] i h = absurd (omega arith)
get_elem?-some (x ∷ xs) zero h = (x, refl)
get_elem?-some (x ∷ xs) (suc i) h = get_elem?-some xs i (omega arith)

module _ {A : Type 0} {periodic : Bool} {self : Queue2} (q : IsQueue periodic self) (xs : List A)
    (r : ℕ) (g : Producer) (m : Shared A) where
  pub claim-Shares :
      r + 1 < 2 ^ 64
      → Shares self xs g (popped r) m
      → Shares self xs g (claiming r) (set_tail (wrapping_add m.common.tail 1) m)
  claim-Shares small s = record {
    head_at = s.head_at;
    tail_at = omega (arith, s.tail_at);
    states_sized = s.states_sized;
    elements_sized = s.elements_sized;
    producer_order = s.producer_order;
    consumer_order = omega arith;
    behind = s.behind;
    ahead = s.ahead;
    known = s.known;
    full = s.full;
    free = s.free;
    stored = s.stored;
  }

  find-Shares :
      state (slot self r) m ≡ full_mark
      → Shares self xs g (claiming r) m
      → Shares self xs g (finding r) m
  find-Shares e s =
      let there = full_published q xs g (claiming r) m s e in
      record {
        head_at = s.head_at;
        tail_at = s.tail_at;
        states_sized = s.states_sized;
        elements_sized = s.elements_sized;
        producer_order = s.producer_order;
        consumer_order = omega arith;
        behind = omega arith;
        ahead = s.ahead;
        known = s.known;
        full = s.full;
        free = s.free;
        stored = s.stored;
      }

  -- The element that the consumer reads is there, and is the next one.
  next_there :
      Shares self xs g (finding r) m
      → (x : A) × (element (slot self r) m ≡ some x) × (get_elem? xs r ≡ some x)
  next_there s =
      let (x, e) = get_elem?-some xs r (omega (arith, s.behind, s.producer_order, s.known)) in
      (x, s.stored r (omega arith) (omega (arith, s.behind, s.producer_order)) ∙ e, e)

  take-Shares : Shares self xs g (finding r) m → Shares self xs g (taking r) m
  take-Shares s = record {
    head_at = s.head_at;
    tail_at = s.tail_at;
    states_sized = s.states_sized;
    elements_sized = s.elements_sized;
    producer_order = s.producer_order;
    consumer_order = omega arith;
    behind = s.behind;
    ahead = s.ahead;
    known = s.known;
    full = s.full;
    free = s.free;
    stored = λ i lo hi. s.stored i (omega arith) hi;
  }

  release-Shares :
      Shares self xs g (taking r) m
      → Shares self xs g (popped (suc r)) (set_state (slot self r) empty_mark m)
  release-Shares s = record {
    head_at = s.head_at;
    tail_at = s.tail_at;
    states_sized = length-set m.storage.states (slot self r) empty_mark ∙ s.states_sized;
    elements_sized = s.elements_sized;
    producer_order = s.producer_order;
    consumer_order = omega arith;
    behind = s.behind;
    ahead = omega (arith, s.ahead);
    known = s.known;
    full = λ i lo hi.
        get_or-set_ne m.storage.states (slot self r) (slot self i) empty_mark empty_mark
          (slot_apart q r i (omega arith) (omega (arith, s.ahead, s.producer_order)))
        ∙ s.full i (omega arith) hi;
    free = λ i lo hi. elim (ℕ_discrete i (r + self.capacity)) [
      | yes e ↦ rw e (
          rw ((slot-IsRing q).round r) (
            get_or-set_self m.storage.states (slot self r) empty_mark empty_mark
              (rw s.states_sized ((slot-IsRing q).in_range r))))
      | no ne ↦
          get_or-set_ne m.storage.states (slot self r) (slot self i) empty_mark empty_mark
            (slot_apart q r i (omega (arith, s.behind)) (omega arith))
          ∙ s.free i lo (omega arith)
    ];
    stored = s.stored;
  }

module _ {A : Type 0} (p : Profile) {periodic : Bool} {self : Queue2} (q : IsQueue periodic self)
    (xs : List A) (r : ℕ) where
  -- The result is the next element.
  abbrev pub Next : A → Consumer → Type 0
  Next x h = (h ≡ popped (suc r)) × (get_elem? xs r ≡ some x)

  pop_spsc-Good :
      (fuel : ℕ) → Good (Flip (Shares self xs)) (pop_spsc self fuel (slot self r)) Next (claiming r)
  unfolding pop_spsc
  pop_spsc-Good zero = refl
  pop_spsc-Good (suc fuel) = λ g m s. elim (ℕ_discrete (state (slot self r) m) full_mark) [
    | yes e ↦ (
      finding r,
      find-Shares q xs r g m e s,
      rw (eq→== (state (slot self r) m) full_mark e) (λ g' m' s'.
          let (x, there, next) = next_there q xs r g' m' s' in
          (
            taking r,
            take-Shares q xs r g' m' s',
            rw there
                (λ g'' m'' s''. (popped (suc r), release-Shares q xs r g'' m'' s'', (refl, next))),
          )),
    )
    | no ne ↦ (
      claiming r,
      s,
      rw (ne→== (state (slot self r) m) full_mark ne) (
          Good->>= (Flip (Shares self xs)) (pause self) (λ _. pop_spsc self fuel (slot self r))
            (λ _ h. h ≡ claiming r) Next (claiming r)
            (Good-if (Flip (Shares self xs)) self.maximize_throughput _ _ (λ _ h. h ≡ claiming r)
              (claiming r) (λ _. refl) (λ _. refl))
            (λ _ h e.
              subst (λ h. Good (Flip (Shares self xs)) (pop_spsc self fuel (slot self r)) Next h)
                (sym e) (pop_spsc-Good fuel))),
    )
  ]

  pub do_pop_any-Good :
      (fuel : ℕ)
      → self.spsc ≡ true
      → Good (Flip (Shares self xs)) (do_pop_any self fuel (slot self r)) Next (claiming r)
  unfolding do_pop_any
  do_pop_any-Good fuel spsc =
      Good-if (Flip (Shares self xs)) self.spsc _ _ Next (claiming r) (λ _. pop_spsc-Good fuel)
        (λ mpmc. absurd cc)

  pub pop-Good :
      (fuel : ℕ)
      → self.spsc ≡ true
      → r + 1 < 2 ^ 64
      → Good (Flip (Shares self xs)) (pop p self fuel) Next (popped r)
  unfolding pop
  pop-Good fuel spsc small = λ g m s. (
    claiming r,
    claim-Shares q xs r g m small s,
    rw (get_slot_lem q p {A = A} m.common.tail, s.tail_at) (do_pop_any-Good fuel spsc),
  )
