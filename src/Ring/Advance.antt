-- ===== src/Ring/Advance.antt =====
-- Windows at a counter that has moved on by one.
use atomic_queue_rs.Base.{
  ℕ, suc, ◌+◌, ◌-◌, ◌%◌, ◌^◌, ◌<◌, ◌≡◌, refl, sym, ap, ◌∙◌, Bool, true, false, List, arith,
  wrapping_add,
}
use atomic_queue_rs.Program.{Profile, debug, release}
use atomic_queue_rs.Common.{AtomicQueueCommon}
use atomic_queue_rs.Ring.Laws.{IsRing}
use atomic_queue_rs.Ring.Window.{window, window-shift}
use atomic_queue_rs.Ring.Counters.{Fits, Counts, size}

module _ {cap : ℕ} {slot : ℕ → ℕ} {c : AtomicQueueCommon} (k : Counts cap c) where
  module _ {A : Type 0} (d : A) (xs : List A) (j : ℕ) where
    pub window-next_head :
        (p : Profile) (periodic : Bool) (ring : IsRing cap slot periodic) (n : ℕ)
        → Fits p periodic (suc n) c
        → window d slot xs (wrapping_add c.head 1) j ≡ window d slot xs (c.head + 1) j
    window-next_head release true ring n f = window-shift d ring xs (c.head + 1) j refl
    window-next_head release false ring n f = ap (λ i. window d slot xs i j) (omega arith)
    window-next_head debug periodic ring n f = ap (λ i. window d slot xs i j) (omega arith)

    -- The free slots begin after the window.
    pub window-head :
        (p : Profile) (periodic : Bool) (ring : IsRing cap slot periodic) (n : ℕ)
        → Fits p periodic n c
        → window d slot xs c.head j ≡ window d slot xs (c.tail + size c) j
    window-head release true ring n f =
        ap (λ i. window d slot xs i j)
          (let e : c.head ≡ (c.tail + size c) % 2 ^ 64 = omega (arith, k.head_word, k.tail_word) in
            e)
        ∙ window-shift d ring xs (c.tail + size c) j refl
    window-head release false ring n f =
        ap (λ i. window d slot xs i j) (omega (arith, k.head_word, k.tail_word))
    window-head debug periodic ring n f =
        ap (λ i. window d slot xs i j) (omega (arith, k.head_word, k.tail_word))

    pub window-next_tail :
        (p : Profile) (periodic : Bool) (ring : IsRing cap slot periodic) (n : ℕ)
        → Fits p periodic n c
        → 0 < size c
        → window d slot xs (wrapping_add c.tail 1) j ≡ window d slot xs (c.tail + 1) j
    window-next_tail release true ring n f stored = window-shift d ring xs (c.tail + 1) j refl
    window-next_tail release false ring n f stored =
        ap (λ i. window d slot xs i j) (omega (arith, k.head_word, k.tail_word))
    window-next_tail debug periodic ring n f stored =
        ap (λ i. window d slot xs i j) (omega (arith, k.head_word, k.tail_word))

  -- The slot of `tail` is the one after the free slots.
  pub tail-slot :
      (p : Profile) (periodic : Bool) (ring : IsRing cap slot periodic) (n : ℕ)
      → Fits p periodic n c
      → slot c.tail ≡ slot (c.head + (cap - size c))
  tail-slot release true ring n f =
      sym (ring.round c.tail)
      ∙ sym (ring.wraps (c.tail + cap) refl)
      ∙ ap slot (
          let e : (c.tail + cap) % 2 ^ 64 ≡ (c.head + (cap - size c)) % 2 ^ 64 =
            omega (arith, k.head_word, k.tail_word, k.within, ring.small) in
          e)
      ∙ ring.wraps (c.head + (cap - size c)) refl
  tail-slot release false ring n f =
      sym (ring.round c.tail) ∙ ap slot (omega (arith, k.head_word, k.tail_word, k.within))
  tail-slot debug periodic ring n f =
      sym (ring.round c.tail) ∙ ap slot (omega (arith, k.head_word, k.tail_word, k.within))
