-- ===== src/AtomicQueue/Contents.antt =====
-- What an accepted push and a successful pop do to the elements of a queue.
use native.Mathlib.Numerals.{add-one}
use atomic_queue_rs.Base.{
  ℕ, ◌+◌, ◌<◌, ◌≡◌, refl, sym, ap, ◌∙◌, true, List, [], ◌∷◌, ◌++◌, length, set, length-set, arith,
}
use atomic_queue_rs.Program.{Profile}
use atomic_queue_rs.Ring.{
  window, length-window, window-shift, window-push, window-pop, size, Fits, size-push, size-pop,
  head-slot,
}
use atomic_queue_rs.AtomicQueue.{Queue}
use atomic_queue_rs.AtomicQueue.Value.{Shared, raw}
use atomic_queue_rs.AtomicQueue.Valid.{
  slot, contents, IsElement, All, IsQueue, IsValid, slot-IsRing, pushed, popped,
}

All-append : (P : ℕ → Type 0) (xs ys : List ℕ) → All P xs → All P ys → All P (xs ++ ys)
All-append P [] ys hx hy = hy
All-append P (x ∷ xs) ys hx hy = (hx.0, All-append P xs ys hx.1 hy)

pub length-contents : (self : Queue) (m : Shared) → length (contents self m) ≡ size m.common
length-contents self m = length-window 0 (slot self) m.storage m.common.tail (size m.common)

module _ {self : Queue} (q : IsQueue self) {m : Shared} (v : IsValid self m) where
  open v use {sized, counts, held}

  -- An accepted push appends its element.
  pub contents-pushed :
      (p : Profile) (n x : ℕ)
      → Fits p true n m.common
      → size m.common < self.capacity
      → contents self (pushed self m x) ≡ contents self m ++ x ∷ []
  contents-pushed p n x fits room =
      ap (window 0 (slot self) (set m.storage (slot self m.common.head) x) m.common.tail)
        (size-push (slot-IsRing q).small counts room ∙ add-one (size m.common))
      ∙ window-push 0 (slot-IsRing q) m.storage x (size m.common) m.common.tail
          (slot self m.common.head) sized room
          (head-slot m.common p true (slot-IsRing q) n counts fits)

  pub pushed-IsValid :
      (p : Profile) (n x : ℕ)
      → Fits p true n m.common
      → size m.common < self.capacity
      → IsElement x
      → IsValid self (pushed self m x)
  pushed-IsValid p n x fits room e = record {
    sized = length-set m.storage (slot self m.common.head) x ∙ sized;
    counts = record {
      head_word = omega arith;
      tail_word = counts.tail_word;
      within = omega (arith, size-push (slot-IsRing q).small counts room);
    };
    held =
        rw (contents-pushed p n x fits room)
          (All-append IsElement (contents self m) (x ∷ []) held (e, tt));
  }

  -- A successful pop takes the element in the slot of `tail`, which was the oldest.
  pub contents-popped :
      0 < size m.common
      → contents self m ≡ raw (slot self m.common.tail) m ∷ contents self (popped self m)
  contents-popped stored =
      ap (window 0 (slot self) m.storage m.common.tail)
        (sym (size-pop (slot-IsRing q).small counts stored) ∙ add-one (size (popped self m).common))
      ∙ window-pop 0 (slot-IsRing q) m.storage 0 (size (popped self m).common) m.common.tail
          (omega (arith, size-pop (slot-IsRing q).small counts stored, counts.within))
      ∙ ap (λ r. raw (slot self m.common.tail) m ∷ r)
          (sym (
            window-shift 0 (slot-IsRing q) (set m.storage (slot self m.common.tail) 0)
              (m.common.tail + 1) (size (popped self m).common) refl))

  pub oldest-IsElement : 0 < size m.common → IsElement (raw (slot self m.common.tail) m)
  oldest-IsElement stored = (rw (contents-popped stored) at held).0

  pub popped-IsValid : 0 < size m.common → IsValid self (popped self m)
  popped-IsValid stored = record {
    sized = length-set m.storage (slot self m.common.tail) 0 ∙ sized;
    counts = record {
      head_word = counts.head_word;
      tail_word = omega arith;
      within = omega (arith, size-pop (slot-IsRing q).small counts stored, counts.within);
    };
    held = (rw (contents-popped stored) at held).1;
  }
