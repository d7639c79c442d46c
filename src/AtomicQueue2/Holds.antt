-- ===== src/AtomicQueue2/Holds.antt =====
-- When a memory stands for a list of elements: the slots between `tail` and `head` are FULL and hold
-- them, and the other slots are EMPTY.
use native.Mathlib.Numerals.{add-one}
use mathlib.Core.List.{map-append}
use atomic_queue_rs.Base.{
  ℕ, suc, ◌+◌, ◌-◌, ◌<◌, ◌≡◌, refl, sym, ap, ◌∙◌, Bool, none, some, List, [], ◌∷◌, ◌++◌, map,
  length, get_or, set, replicate, length-set, replicate-snoc, arith,
}
use atomic_queue_rs.Program.{Profile}
use atomic_queue_rs.Ring.{
  window, length-window, window-push, window-pop, Counts, size, Fits, size-push, head-slot,
  window-next_head, Fits-push,
}
use atomic_queue_rs.AtomicQueue2.Slots.{Shared, empty_mark, full_mark, state}
use atomic_queue_rs.AtomicQueue2.Types.{Queue2}
use atomic_queue_rs.AtomicQueue2.Valid.{slot, IsQueue, slot-IsRing}
use atomic_queue_rs.AtomicQueue2.Refine.{pushed}

pub record Holds {A : Type 0} (p : Profile) (periodic : Bool) (self : Queue2) (n : ℕ) (m : Shared A)
    (l : List A) : Type 0 where
  pub states_sized : length m.storage.states ≡ self.capacity
  pub elements_sized : length m.storage.elements ≡ self.capacity
  pub counts : Counts self.capacity m.common
  pub fits : Fits p periodic n m.common
  pub stored : window none (slot self) m.storage.elements m.common.tail (size m.common) ≡ map some l
  pub full :
      window empty_mark (slot self) m.storage.states m.common.tail (size m.common)
      ≡ replicate (size m.common) full_mark
  pub free :
      window empty_mark (slot self) m.storage.states m.common.head (self.capacity - size m.common)
      ≡ replicate (self.capacity - size m.common) empty_mark

length-some : {A : Type 0} (l : List A) → length (map some l) ≡ length l
length-some [] = refl
length-some (x ∷ l) = ap suc (length-some l)

pub head-eq : {A : Type 0} {x y : A} {l r : List A} → x ∷ l ≡ y ∷ r → x ≡ y
head-eq e = cc

pub tail-eq : {A : Type 0} {x y : A} {l r : List A} → x ∷ l ≡ y ∷ r → l ≡ r
tail-eq e = cc

module _ {A : Type 0} (p : Profile) {periodic : Bool} {self : Queue2} (q : IsQueue periodic self)
    (n : ℕ) (m : Shared A) (l : List A) (h : Holds p periodic self (suc n) m l) where
  open h use {states_sized, elements_sized, counts, fits, stored, full, free}

  pub length-held : length l ≡ size m.common
  length-held =
      sym (length-some l)
      ∙ ap length (sym stored)
      ∙ length-window none (slot self) m.storage.elements m.common.tail (size m.common)

  module _ (x : A) (room : size m.common < self.capacity) where
    free_first :
        get_or m.storage.states (slot self m.common.head) empty_mark
          ∷ window empty_mark
              (slot self)
              (set m.storage.states (slot self m.common.head) full_mark)
              (m.common.head + 1)
              (self.capacity - (size m.common + 1))
        ≡ empty_mark ∷ replicate (self.capacity - (size m.common + 1)) empty_mark
    free_first =
        sym (
          window-pop empty_mark (slot-IsRing q) m.storage.states full_mark
            (self.capacity - (size m.common + 1)) m.common.head (omega (arith, q.pos)))
        ∙ ap (window empty_mark (slot self) m.storage.states m.common.head) (sym one_more)
        ∙ free
        ∙ ap (λ k. replicate k empty_mark) one_more
      where
        one_more : self.capacity - size m.common ≡ suc (self.capacity - (size m.common + 1))
        one_more = omega arith

    pub head_free : state (slot self m.common.head) m ≡ empty_mark
    head_free = head-eq free_first

    size-pushed : size (pushed self m x).common ≡ suc (size m.common)
    size-pushed = size-push q.small counts room ∙ add-one (size m.common)

    same_slot : slot self m.common.head ≡ slot self (m.common.tail + size m.common)
    same_slot = head-slot m.common p periodic (slot-IsRing q) (suc n) counts fits

    -- An accepted push appends its element.
    pub pushed-Holds : Holds p periodic self n (pushed self m x) (l ++ x ∷ [])
    pushed-Holds = record {
      states_sized = length-set m.storage.states (slot self m.common.head) full_mark ∙ states_sized;
      elements_sized =
          length-set m.storage.elements (slot self m.common.head) (some x) ∙ elements_sized;
      counts = record {
        head_word = omega arith;
        tail_word = counts.tail_word;
        within = omega (arith, size-pushed);
      };
      fits = Fits-push counts p periodic n fits;
      stored =
          ap (window none (slot self) (pushed self m x).storage.elements m.common.tail) size-pushed
          ∙ window-push none (slot-IsRing q) m.storage.elements (some x) (size m.common)
              m.common.tail (slot self m.common.head) elements_sized room same_slot
          ∙ ap (λ t. t ++ some x ∷ []) stored
          ∙ sym (map-append some l (x ∷ []));
      full =
          ap (window empty_mark (slot self) (pushed self m x).storage.states m.common.tail)
            size-pushed
          ∙ window-push empty_mark (slot-IsRing q) m.storage.states full_mark (size m.common)
              m.common.tail (slot self m.common.head) states_sized room same_slot
          ∙ ap (λ t. t ++ full_mark ∷ []) full
          ∙ replicate-snoc (size m.common) full_mark
          ∙ ap (λ k. replicate k full_mark) (sym size-pushed);
      free =
          ap
            (window empty_mark (slot self) (pushed self m x).storage.states
              (pushed self m x).common.head)
            fewer
          ∙ window-next_head counts empty_mark (pushed self m x).storage.states
              (self.capacity - (size m.common + 1)) p periodic (slot-IsRing q) n fits
          ∙ tail-eq free_first
          ∙ ap (λ k. replicate k empty_mark) (sym fewer);
    }
      where
        fewer : self.capacity - size (pushed self m x).common ≡ self.capacity - (size m.common + 1)
        fewer = omega (arith, size-pushed)
