-- ===== src/AtomicQueue2/Spsc/Pushing.antt =====
-- Each access of `push` keeps what the two threads share.
use native.Mathlib.Decide.{ℕ_discrete}
use mathlib.Core.Path.{subst}
use atomic_queue_rs.Base.{
  ℕ, zero, suc, ◌+◌, ◌^◌, ◌<◌, ◌≡◌, refl, sym, ◌∙◌, Bool, true, some, none, List, length,
  get_or-set_self, get_or-set_ne, length-set, arith, wrapping_add, eq→==, ne→==,
}
use atomic_queue_rs.Program.{Program, ◌>>◌, Profile}
use atomic_queue_rs.Program.Duo.{Good, Good->>=, Good-if}
use atomic_queue_rs.Common.{set_head}
use atomic_queue_rs.AtomicQueue2.{push}
use atomic_queue_rs.AtomicQueue2.Slots.{
  write_element, store_state, Shared, state, set_state, set_element, empty_mark, full_mark,
}
use atomic_queue_rs.AtomicQueue2.Types.{Queue2}
use atomic_queue_rs.AtomicQueue2.Access.{pause, push_spsc, do_push_any}
use atomic_queue_rs.AtomicQueue2.Valid.{slot_apart, slot, IsQueue, get_slot_lem, slot-IsRing}
use atomic_queue_rs.AtomicQueue2.Spsc.{Producer, Consumer, Shares, pushed}
use atomic_queue_rs.Program.Streams.{get_elem?}
use atomic_queue_rs.AtomicQueue2.Spsc.Slots.{empty_released}

-- Within the push of ticket `w`.
abbrev set_slot : {A : Type 0} → ℕ → A → Program (Shared A) (Unit {0})
set_slot i x = do write_element i x; store_state i full_mark

abbrev pub claiming : ℕ → Producer
claiming w = record { claimed = suc w; cleared = w; written = w; published = w }

abbrev clearing : ℕ → Producer
clearing w = record { claimed = suc w; cleared = suc w; written = w; published = w }

abbrev writing : ℕ → Producer
writing w = record { claimed = suc w; cleared = suc w; written = suc w; published = w }

module _ {A : Type 0} {periodic : Bool} {self : Queue2} (q : IsQueue periodic self) (xs : List A)
    (w : ℕ) (h : Consumer) (m : Shared A) where
  pub claim-Shares :
      w + 1 < 2 ^ 64
      → Shares self xs (pushed w) h m
      → Shares self xs (claiming w) h (set_head (wrapping_add m.common.head 1) m)
  claim-Shares small s = record {
    head_at = omega (arith, s.head_at);
    tail_at = s.tail_at;
    states_sized = s.states_sized;
    elements_sized = s.elements_sized;
    producer_order = omega arith;
    consumer_order = s.consumer_order;
    behind = s.behind;
    ahead = s.ahead;
    known = s.known;
    full = s.full;
    free = s.free;
    stored = s.stored;
  }

  clear-Shares :
      state (slot self w) m ≡ empty_mark
      → Shares self xs (claiming w) h m
      → Shares self xs (clearing w) h m
  clear-Shares e s =
      let room = empty_released q xs (claiming w) h m s e in
      record {
        head_at = s.head_at;
        tail_at = s.tail_at;
        states_sized = s.states_sized;
        elements_sized = s.elements_sized;
        producer_order = omega arith;
        consumer_order = s.consumer_order;
        behind = s.behind;
        ahead = omega arith;
        known = s.known;
        full = s.full;
        free = s.free;
        stored = s.stored;
      }

  write-Shares :
      (x : A)
      → get_elem? xs w ≡ some x
      → w < length xs
      → Shares self xs (clearing w) h m
      → Shares self xs (writing w) h (set_element (slot self w) (some x) m)
  write-Shares x there more s = record {
    head_at = s.head_at;
    tail_at = s.tail_at;
    states_sized = s.states_sized;
    elements_sized = length-set m.storage.elements (slot self w) (some x) ∙ s.elements_sized;
    producer_order = omega arith;
    consumer_order = s.consumer_order;
    behind = s.behind;
    ahead = s.ahead;
    known = omega arith;
    full = s.full;
    free = s.free;
    stored = λ i lo hi. elim (ℕ_discrete i w) [
      | yes e ↦ rw e (
          get_or-set_self m.storage.elements (slot self w) (some x) none
            (rw s.elements_sized ((slot-IsRing q).in_range w))
          ∙ sym there)
      | no ne ↦
          get_or-set_ne m.storage.elements (slot self w) (slot self i) (some x) none
            (λ e. slot_apart q i w (omega arith) (omega (arith, s.ahead, s.consumer_order)) (sym e))
          ∙ s.stored i lo (omega arith)
    ];
  }

  publish-Shares :
      Shares self xs (writing w) h m
      → Shares self xs (pushed (suc w)) h (set_state (slot self w) full_mark m)
  publish-Shares s = record {
    head_at = s.head_at;
    tail_at = s.tail_at;
    states_sized = length-set m.storage.states (slot self w) full_mark ∙ s.states_sized;
    elements_sized = s.elements_sized;
    producer_order = omega arith;
    consumer_order = s.consumer_order;
    behind = omega (arith, s.behind);
    ahead = s.ahead;
    known = s.known;
    full = λ i lo hi. elim (ℕ_discrete i w) [
      | yes e ↦ rw e (
          get_or-set_self m.storage.states (slot self w) full_mark empty_mark
            (rw s.states_sized ((slot-IsRing q).in_range w)))
      | no ne ↦
          get_or-set_ne m.storage.states (slot self w) (slot self i) full_mark empty_mark
            (λ e. slot_apart q i w (omega arith) (omega (arith, s.ahead)) (sym e))
          ∙ s.full i lo (omega arith)
    ];
    free = λ i lo hi.
        get_or-set_ne m.storage.states (slot self w) (slot self i) full_mark empty_mark
          (slot_apart q w i (omega arith) (omega (arith, s.behind, s.consumer_order)))
        ∙ s.free i (omega arith) hi;
    stored = s.stored;
  }

module _ {A : Type 0} (p : Profile) {periodic : Bool} {self : Queue2} (q : IsQueue periodic self)
    (xs : List A) (w : ℕ) (x : A) (there : get_elem? xs w ≡ some x) (more : w < length xs) where
  write-Good :
      Good (Shares self xs) (set_slot (slot self w) x) (λ _ g. g ≡ pushed (suc w)) (clearing w)
  write-Good = λ h m s. (
    writing w,
    write-Shares q xs w h m x there more s,
    λ h' m' s'. (pushed (suc w), publish-Shares q xs w h' m' s', refl),
  )

  push_spsc-Good :
      (fuel : ℕ)
      → Good
          (Shares self xs)
          (push_spsc self fuel x (slot self w))
          (λ _ g. g ≡ pushed (suc w))
          (claiming w)
  unfolding push_spsc
  push_spsc-Good zero = refl
  push_spsc-Good (suc fuel) = λ h m s. elim (ℕ_discrete (state (slot self w) m) empty_mark) [
    | yes e ↦ (
      clearing w,
      clear-Shares q xs w h m e s,
      rw (eq→== (state (slot self w) m) empty_mark e) write-Good,
    )
    | no ne ↦ (
      claiming w,
      s,
      rw (ne→== (state (slot self w) m) empty_mark ne) (
          Good->>= (Shares self xs) (pause self) (λ _. push_spsc self fuel x (slot self w))
            (λ _ g. g ≡ claiming w) (λ _ g. g ≡ pushed (suc w)) (claiming w)
            (Good-if (Shares self xs) self.maximize_throughput _ _ (λ _ g. g ≡ claiming w)
              (claiming w) (λ _. refl) (λ _. refl))
            (λ _ g e.
              subst
                (λ g.
                  Good (Shares self xs) (push_spsc self fuel x (slot self w))
                    (λ _ g. g ≡ pushed (suc w)) g)
                (sym e) (push_spsc-Good fuel))),
    )
  ]

  pub do_push_any-Good :
      (fuel : ℕ)
      → self.spsc ≡ true
      → Good
          (Shares self xs)
          (do_push_any self fuel x (slot self w))
          (λ _ g. g ≡ pushed (suc w))
          (claiming w)
  unfolding do_push_any
  do_push_any-Good fuel spsc =
      Good-if (Shares self xs) self.spsc _ _ (λ _ g. g ≡ pushed (suc w)) (claiming w)
        (λ _. push_spsc-Good fuel) (λ mpmc. absurd cc)

  pub push-Good :
      (fuel : ℕ)
      → self.spsc ≡ true
      → w + 1 < 2 ^ 64
      → Good (Shares self xs) (push p self fuel x) (λ _ g. g ≡ pushed (suc w)) (pushed w)
  unfolding push
  push-Good fuel spsc small = λ h m s. (
    claiming w,
    claim-Shares q xs w h m small s,
    rw (get_slot_lem q p {A = A} m.common.head, s.head_at) (do_push_any-Good fuel spsc),
  )
