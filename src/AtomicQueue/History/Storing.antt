-- ===== src/AtomicQueue/History/Storing.antt =====
-- The accesses of a push: to take a ticket, and to store the element.
use native.Mathlib.Decide.{ℕ_discrete, dec_lt}
use mathlib.Core.Path.{subst}
use atomic_queue_rs.Base.{
  ℕ, suc, ◌≤◌, ◌<◌, ◌≡◌, ◌≢◌, sym, ap, ◌∙◌, List, [], ◌∷◌, ◌++◌, arith, get_or-set_self,
  get_or-set_ne, length-set,
}
use atomic_queue_rs.Program.Threads.{assign, assign_self, assign_ne}
use atomic_queue_rs.Common.{set_head}
use atomic_queue_rs.AtomicQueue.{Queue}
use atomic_queue_rs.AtomicQueue.Value.{Shared, set_raw}
use atomic_queue_rs.AtomicQueue.Valid.{slot, IsElement, IsQueue, slot-IsRing, slots_differ}
use atomic_queue_rs.AtomicQueue.History.{
  Tickets, Phase, Part, part, push_claimed, staged, resting, Takes, Does, Stands, Core,
}
use atomic_queue_rs.AtomicQueue.History.Claims.{
  each_stands, log_below, push_claimed-this, push_claimed-others,
}

module _ {self : Queue} (q : IsQueue self) (parts : ℕ → Part) (s : Tickets) (m : Shared) (i : ℕ)
    (c : Core self parts s m) where
  open c use {sized, empty, stored, fresh, untaken, words, all_stand}

  pub stands : (g : Part) → parts i ≡ g → Stands s m.common.head m.common.tail i g
  stands g e = subst (Stands s m.common.head m.common.tail i) e (all_stand i)

  -- A slot whose element has been stored belongs to a ticket that has been taken.
  pub staged_below : (t : ℕ) → s.stage t ≡ 1 → t < m.common.head
  staged_below t e = elim (dec_lt t m.common.head) [
    | yes lt ↦ lt
    | no ge ↦ absurd (omega (arith, e, fresh t (omega arith)))
  ]

  pub claim_push-Core :
      (a b : List ℕ) (n x : ℕ)
      → parts i ≡ resting a b n
      → IsElement x
      → Core self
          (assign parts i (part (a ++ x ∷ []) b n (Phase.pushing m.common.head x)))
          (push_claimed s m.common.head i x)
          (set_head (suc m.common.head) m)
  claim_push-Core a b n x e word = record {
    sized = sized;
    empty = empty;
    stored = λ t small one.
        stored t small one
        ∙ sym (log_below s m.common.head m.common.tail i x fresh t (staged_below t one));
    fresh = λ t le. fresh t (omega arith);
    untaken = untaken;
    words = λ t lt. elim (ℕ_discrete t m.common.head) [
      | yes same ↦
          subst IsElement
            (sym (ap (assign s.log m.common.head x) same ∙ assign_self s.log m.common.head x)) word
      | no ne ↦
          subst IsElement (sym (log_below s m.common.head m.common.tail i x fresh t (omega arith)))
            (words t (omega arith))
    ];
    all_stand =
        each_stands parts (push_claimed s m.common.head i x) (suc m.common.head) m.common.tail i
          (part (a ++ x ∷ []) b n (Phase.pushing m.common.head x))
          (push_claimed-this s m.common.head m.common.tail i x fresh a b n
            (stands (resting a b n) e))
          (λ j ne.
            push_claimed-others s m.common.head m.common.tail i x fresh j (parts j) ne
              (all_stand j));
  }

  module _ (a b : List ℕ) (n w x : ℕ) (e : parts i ≡ part a b n (Phase.pushing w x)) where
    abbrev after : Tickets
    after = staged s w 1

    abbrev here : Stands s m.common.head m.common.tail i (part a b n (Phase.pushing w x))
    here = stands (part a b n (Phase.pushing w x)) e

    stage_other : (t : ℕ) → t ≢ w → after.stage t ≡ s.stage t
    stage_other t ne = assign_ne s.stage w t 1 (λ e. ne (sym e))

    stored-Takes : (j k tail r : ℕ) → Takes s j k tail r → Takes after j k tail r
    stored-Takes j k tail r d = record {
      since = d.since;
      before = d.before;
      mine = d.mine;
      none_before = d.none_before;
      none_after = d.none_after;
      there_yet = elim (ℕ_discrete r w) [
        | yes same ↦ omega (arith, ap (assign s.stage w 1) same ∙ assign_self s.stage w 1)
        | no ne ↦ omega (arith, stage_other r ne, d.there_yet)
      ];
    }

    stored-Does :
        (j k : ℕ) (p : Phase)
        → j ≢ i
        → Does s j k m.common.head m.common.tail p
        → Does after j k m.common.head m.common.tail p
    stored-Does j k Phase.idle ne d = d
    stored-Does j k (Phase.pushing v y) ne d = (
      d.0,
      d.1,
      d.2,
      stage_other v (λ same. ne (sym d.2 ∙ ap s.pusher same ∙ here.does.2)) ∙ d.3,
      d.4,
    )
    stored-Does j k (Phase.popping r) ne d = stored-Takes j k m.common.tail r d
    stored-Does j k (Phase.clearing r y) ne d = (
      stored-Takes j k m.common.tail r d.0,
      stage_other r (λ same. absurd (omega (arith, d.1, ap s.stage same, here.does.3))) ∙ d.1,
      d.2,
    )

    pub store-Core :
        m.common.head ≤ self.capacity
        → Core self (assign parts i (resting a b n)) (staged s w 1) (set_raw (slot self w) x m)
    store-Core room = record {
      sized = length-set m.storage (slot self w) x ∙ sized;
      empty = λ t small none.
          let ne : t ≢ w =
            λ same. omega (arith, none, ap (assign s.stage w 1) same ∙ assign_self s.stage w 1) in
          get_or-set_ne m.storage (slot self w) (slot self t) x 0
            (slots_differ q w t (λ e. ne (sym e)) (omega (arith, here.does.1)) small)
          ∙ empty t small (sym (stage_other t ne) ∙ none);
      stored = λ t small one. elim (ℕ_discrete t w) [
        | yes same ↦ rw same (
            get_or-set_self m.storage (slot self w) x 0 (rw sized ((slot-IsRing q).in_range w))
            ∙ sym here.does.4)
        | no ne ↦
            get_or-set_ne m.storage (slot self w) (slot self t) x 0
              (slots_differ q w t (λ e. ne (sym e)) (omega (arith, here.does.1)) small)
            ∙ stored t small (sym (stage_other t ne) ∙ one)
      ];
      fresh = λ t le. stage_other t (omega (arith, here.does.1)) ∙ fresh t le;
      untaken = λ t le. elim (ℕ_discrete t w) [
        | yes same ↦ omega (arith, ap (assign s.stage w 1) same ∙ assign_self s.stage w 1)
        | no ne ↦ omega (arith, stage_other t ne, untaken t le)
      ];
      words = words;
      all_stand =
          each_stands parts after m.common.head m.common.tail i (resting a b n)
            (record {
              has_sent = here.has_sent;
              has_received = here.has_received;
              bound_head = here.bound_head;
              bound_tail = here.bound_tail;
              does = here.does.0;
            })
            (λ j ne.
              let st = all_stand j in
              record {
                has_sent = st.has_sent;
                has_received = st.has_received;
                bound_head = st.bound_head;
                bound_tail = st.bound_tail;
                does = stored-Does j (parts j).bound (parts j).phase ne st.does;
              });
    }
