-- ===== src/AtomicQueue/Once/Accesses.antt =====
-- Each access of `push` and `pop` keeps what the two threads share.
use native.Mathlib.Decide.{ℕ_discrete, dec_lt}
use atomic_queue_rs.Base.{
  ℕ, zero, suc, ◌+◌, ◌%◌, ◌^◌, ◌≤◌, ◌<◌, ◌≡◌, ◌≢◌, refl, sym, ap, ◌∙◌, some, List, length,
  get_or-set_self, get_or-set_ne, length-set, arith, ne→==,
}
use atomic_queue_rs.Program.{Profile}
use atomic_queue_rs.Program.Duo.{Good, Flip}
use atomic_queue_rs.Program.Streams.{get_elem?}
use atomic_queue_rs.AtomicQueue.{Queue, push, pop, take_value}
use atomic_queue_rs.AtomicQueue.Value.{
  Element, size_of, Shared, raw, set_raw, load_value, transmute_copy,
}
use atomic_queue_rs.AtomicQueue.Valid.{
  slot, IsElement, IsQueue, get_element_lem, slot-IsRing, slots_differ,
}
use atomic_queue_rs.AtomicQueue.Refine.{store_word}
use atomic_queue_rs.AtomicQueue.Once.{Producer, Consumer, Shares, pushed, popped}

abbrev claiming_push : ℕ → Producer
claiming_push w = record { claimed = suc w; written = w }

abbrev claiming_pop : ℕ → Consumer
claiming_pop r = record { claimed = suc r; taken = r; cleared = r }

abbrev taking : ℕ → Consumer
taking r = record { claimed = suc r; taken = suc r; cleared = r }

-- `n` is found in `xs` at index `i`.
abbrev pub At : List ℕ → ℕ → ℕ → Type 0
At xs i n = get_elem? xs i ≡ some n

module _ {self : Queue} (q : IsQueue self) (xs : List ℕ) where
  write-Shares :
      (w x : ℕ) (h : Consumer) (m : Shared)
      → At xs w x
      → w < length xs
      → length xs ≤ self.capacity
      → Shares self xs (claiming_push w) h m
      → Shares self xs (pushed (suc w)) h (set_raw (slot self w) x m)
  write-Shares w x h m there more once s = record {
    head_at = s.head_at;
    tail_at = s.tail_at;
    sized = length-set m.storage (slot self w) x ∙ s.sized;
    order = omega (arith, s.order);
    known = omega arith;
    stored = λ i lo hi. elim (ℕ_discrete i w) [
      | yes e ↦ rw e (
          ap some
            (get_or-set_self m.storage (slot self w) x 0 (rw s.sized ((slot-IsRing q).in_range w)))
          ∙ sym there)
      | no ne ↦
          ap some (
            get_or-set_ne m.storage (slot self w) (slot self i) x 0
              (λ e. slots_differ q i w (omega arith) (omega arith) (omega arith) (sym e)))
          ∙ s.stored i lo (omega arith)
    ];
    free = λ i lo hi.
        get_or-set_ne m.storage (slot self w) (slot self i) x 0
          (slots_differ q w i (omega arith) (omega arith) hi)
        ∙ s.free i (omega arith) hi;
  }

  -- A slot that is not 0 holds the next element.
  take-Shares :
      (r : ℕ) (g : Producer) (m : Shared)
      → r < self.capacity
      → raw (slot self r) m ≢ 0
      → Shares self xs g (claiming_pop r) m
      → Shares self xs g (taking r) m × At xs r (raw (slot self r) m)
  take-Shares r g m small there s = elim (dec_lt r g.written) [
    | yes lt ↦ (
      record {
        head_at = s.head_at;
        tail_at = s.tail_at;
        sized = s.sized;
        order = omega (arith, s.order);
        known = s.known;
        stored = s.stored;
        free = s.free;
      },
      sym (s.stored r (omega arith) lt),
    )
    | no ge ↦ absurd (there (s.free r (omega arith) small))
  ]

  clear-Shares :
      (r : ℕ) (g : Producer) (m : Shared)
      → length xs ≤ self.capacity
      → Shares self xs g (taking r) m
      → Shares self xs g (popped (suc r)) (set_raw (slot self r) 0 m)
  clear-Shares r g m once s = record {
    head_at = s.head_at;
    tail_at = s.tail_at;
    sized = length-set m.storage (slot self r) 0 ∙ s.sized;
    order = omega (arith, s.order);
    known = s.known;
    stored = λ i lo hi.
        ap some (
          get_or-set_ne m.storage (slot self r) (slot self i) 0 0
            (slots_differ q r i (omega arith) (omega (arith, s.known)) (omega (arith, s.known))))
        ∙ s.stored i (omega arith) hi;
    free = λ i lo hi.
        get_or-set_ne m.storage (slot self r) (slot self i) 0 0
          (slots_differ q r i (omega (arith, s.order)) (omega (arith, s.order)) hi)
        ∙ s.free i lo hi;
  }

module _ (p : Profile) {self : Queue} (q : IsQueue self) (T : Element) (wide : size_of T ≡ 8)
    (xs : List ℕ) (once : length xs ≤ self.capacity) where
  pub push-Good :
      (w x : ℕ)
      → At xs w x
      → w < length xs
      → w + 1 < 2 ^ 64
      → IsElement x
      → Good (Shares self xs) (push p self T x) (λ _ g. g ≡ pushed (suc w)) (pushed w)
  unfolding push
  push-Good w x there more small e = λ h m s. (
    claiming_push w,
    record {
      head_at = omega (arith, s.head_at);
      tail_at = s.tail_at;
      sized = s.sized;
      order = s.order;
      known = s.known;
      stored = s.stored;
      free = s.free;
    },
    rw (get_element_lem p q m.common.head, s.head_at, store_word T (slot self w) x wide e.1)
        (λ h' m' s'. (pushed (suc w), write-Shares q xs w x h' m' there more once s', refl)),
  )

  -- The result is the next element.
  abbrev pub Next : ℕ → ℕ → Consumer → Type 0
  Next r x h = (h ≡ popped (suc r)) × At xs r x

  module _ (words : (i x : ℕ) → At xs i x → IsElement x) where
    take_value-Good :
        (r fuel : ℕ)
        → r < self.capacity
        → Good
            (Flip (Shares self xs))
            (take_value p self T fuel (slot self r))
            (Next r)
            (claiming_pop r)
    unfolding take_value load_value transmute_copy
    take_value-Good r zero small = refl
    take_value-Good r (suc fuel) small = λ g m s. elim (ℕ_discrete (raw (slot self r) m) 0) [
      | yes e ↦ (claiming_pop r, s, rw (wide, e) (take_value-Good r fuel small))
      | no ne ↦
          let (s', there) = take-Shares q xs r g m small ne s in
          let same : raw (slot self r) m % 2 ^ 64 ≡ raw (slot self r) m =
            omega (arith, words r (raw (slot self r) m) there) in
          (
            taking r,
            s',
            rw
                (
                  wide,
                  same,
                  ne→== (raw (slot self r) m) 0 ne,
                  store_word T (slot self r) 0 wide (omega arith),
                )
                (λ g' m' s''. (popped (suc r), clear-Shares q xs r g' m' once s'', (refl, there))),
          )
    ]

    pub pop-Good :
        (r fuel : ℕ)
        → r < self.capacity
        → r + 1 < 2 ^ 64
        → Good (Flip (Shares self xs)) (pop p self T fuel) (Next r) (popped r)
    unfolding pop
    pop-Good r fuel room small = λ g m s. (
      claiming_pop r,
      record {
        head_at = s.head_at;
        tail_at = omega (arith, s.tail_at);
        sized = s.sized;
        order = s.order;
        known = s.known;
        stored = s.stored;
        free = s.free;
      },
      rw (get_element_lem p q m.common.tail, s.tail_at) (take_value-Good r fuel room),
    )
