-- ===== src/AtomicQueue2/Spsc/Slots.antt =====
-- What a thread learns from the state of its slot, and which accesses leave other slots alone.
use native.Mathlib.Decide.{dec_lt}
use atomic_queue_rs.Base.{ℕ, ◌+◌, ◌<◌, ◌≡◌, ap, ◌∙◌, Bool, List, arith}
use atomic_queue_rs.AtomicQueue2.Slots.{Shared, state, empty_mark, full_mark}
use atomic_queue_rs.AtomicQueue2.Types.{Queue2}
use atomic_queue_rs.AtomicQueue2.Valid.{slot, IsQueue, slot-IsRing}
use atomic_queue_rs.AtomicQueue2.Spsc.{Producer, Consumer, Shares}

module _ {periodic : Bool} {self : Queue2} (q : IsQueue periodic self) where
  module _ {A : Type 0} (xs : List A) (g : Producer) (h : Consumer) (m : Shared A)
      (s : Shares self xs g h m) where
    -- A slot that the producer finds EMPTY has been released.
    pub empty_released :
        state (slot self g.published) m ≡ empty_mark → g.published < h.released + self.capacity
    empty_released e = elim (dec_lt g.published (h.released + self.capacity)) [
      | yes lt ↦ lt
      | no far ↦
          let end : g.published ≡ h.released + self.capacity =
            omega (arith, s.ahead, s.producer_order) in
          let same : slot self g.published ≡ slot self h.released =
            ap (slot self) end ∙ (slot-IsRing q).round h.released in
          absurd (
            omega (
              arith,
              ap (λ (i : ℕ). state i m) same,
              e,
              s.full h.released (omega arith) (omega (arith, q.pos, end)),
            ))
    ]

    -- A slot that the consumer finds FULL has been published.
    pub full_published : state (slot self h.released) m ≡ full_mark → h.released < g.published
    full_published e = elim (dec_lt h.released g.published) [
      | yes lt ↦ lt
      | no last ↦ absurd (
          omega (
            arith,
            e,
            ap (λ (i : ℕ). state (slot self i) m)
                (let d : h.released ≡ g.published = omega (arith, s.behind, s.consumer_order) in d),
            s.free g.published (omega arith) (omega (arith, s.behind, s.consumer_order, q.pos)),
          ))
    ]
