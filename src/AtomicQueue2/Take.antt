-- ===== src/AtomicQueue2/Take.antt =====
-- A successful pop takes the oldest element out and frees its slot.
use native.Mathlib.Numerals.{add-one}
use atomic_queue_rs.Base.{
  ℕ, suc, ◌+◌, ◌-◌, ◌<◌, ◌≡◌, sym, ap, ◌∙◌, Bool, none, some, List, [], ◌∷◌, ◌++◌, map, get_or, set,
  replicate, length-set, replicate-snoc, arith,
}
use atomic_queue_rs.Program.{Profile}
use atomic_queue_rs.Ring.{
  window, window-push, window-pop, size, size-pop, window-next_tail, tail-slot, Fits-pop,
}
use atomic_queue_rs.AtomicQueue2.Slots.{Shared, empty_mark, full_mark, state, element}
use atomic_queue_rs.AtomicQueue2.Types.{Queue2}
use atomic_queue_rs.AtomicQueue2.Valid.{slot, IsQueue, slot-IsRing}
use atomic_queue_rs.AtomicQueue2.Refine.{popped}
use atomic_queue_rs.AtomicQueue2.Holds.{Holds, length-held, head-eq, tail-eq}

module _ {A : Type 0} (p : Profile) {periodic : Bool} {self : Queue2} (q : IsQueue periodic self)
    (n : ℕ) (m : Shared A) (x : A) (r : List A) (h : Holds p periodic self (suc n) m (x ∷ r)) where
  open h use {states_sized, elements_sized, counts, fits, stored, full, free}

  pub some_stored : 0 < size m.common
  some_stored = omega (arith, length-held p q n m (x ∷ r) h)

  size-popped : size m.common ≡ suc (size (popped self m).common)
  size-popped = sym (size-pop q.small counts some_stored) ∙ add-one (size (popped self m).common)

  rest-lt : size (popped self m).common < self.capacity
  rest-lt = omega (arith, size-popped, counts.within)

  element_first :
      get_or m.storage.elements (slot self m.common.tail) none
        ∷ window none
            (slot self)
            m.storage.elements
            (m.common.tail + 1)
            (size (popped self m).common)
      ≡ some x ∷ map some r
  element_first =
      ap (window none (slot self) m.storage.elements m.common.tail) (sym size-popped) ∙ stored

  state_first :
      get_or m.storage.states (slot self m.common.tail) empty_mark
        ∷ window empty_mark
            (slot self)
            (set m.storage.states (slot self m.common.tail) empty_mark)
            (m.common.tail + 1)
            (size (popped self m).common)
      ≡ full_mark ∷ replicate (size (popped self m).common) full_mark
  state_first =
      sym (
        window-pop empty_mark (slot-IsRing q) m.storage.states empty_mark
          (size (popped self m).common) m.common.tail rest-lt)
      ∙ ap (window empty_mark (slot self) m.storage.states m.common.tail) (sym size-popped)
      ∙ full
      ∙ ap (λ k. replicate k full_mark) size-popped

  pub oldest_full : state (slot self m.common.tail) m ≡ full_mark
  oldest_full = head-eq state_first

  pub oldest_there : element (slot self m.common.tail) m ≡ some x
  oldest_there = head-eq element_first

  pub popped-Holds : Holds p periodic self n (popped self m) r
  popped-Holds = record {
    states_sized = length-set m.storage.states (slot self m.common.tail) empty_mark ∙ states_sized;
    elements_sized = elements_sized;
    counts = record {
      head_word = counts.head_word;
      tail_word = omega arith;
      within = omega (arith, rest-lt);
    };
    fits = Fits-pop counts p periodic n fits some_stored;
    stored =
        window-next_tail counts none (popped self m).storage.elements (size (popped self m).common)
          p periodic (slot-IsRing q) (suc n) fits some_stored
        ∙ tail-eq element_first;
    full =
        window-next_tail counts empty_mark (popped self m).storage.states
          (size (popped self m).common) p periodic (slot-IsRing q) (suc n) fits some_stored
        ∙ tail-eq state_first;
    free =
        ap (window empty_mark (slot self) (popped self m).storage.states m.common.head) one_more
        ∙ window-push empty_mark (slot-IsRing q) m.storage.states empty_mark
            (self.capacity - size m.common) m.common.head (slot self m.common.tail) states_sized
            (omega (arith, some_stored, q.pos))
            (tail-slot counts p periodic (slot-IsRing q) (suc n) fits)
        ∙ ap (λ t. t ++ empty_mark ∷ []) free
        ∙ replicate-snoc (self.capacity - size m.common) empty_mark
        ∙ ap (λ k. replicate k empty_mark) (sym one_more);
  }
    where
      one_more : self.capacity - size (popped self m).common ≡ suc (self.capacity - size m.common)
      one_more = omega (arith, size-popped, counts.within)
