-- ===== src/AtomicQueue/History/Taking.antt =====
-- The accesses of a pop: to take a ticket, to find the element, and to clear the slot.
use native.Mathlib.Decide.{ℕ_discrete}
use mathlib.Core.Path.{subst}
use atomic_queue_rs.Base.{
  ℕ, suc, ◌≤◌, ◌≡◌, ◌≢◌, sym, ap, ap₂, ◌∙◌, List, [], ◌∷◌, ◌++◌, arith, get_or-set_ne, length-set,
}
use atomic_queue_rs.Program.Threads.{assign, assign_self, assign_ne}
use atomic_queue_rs.Common.{set_tail}
use atomic_queue_rs.AtomicQueue.{Queue}
use atomic_queue_rs.AtomicQueue.Value.{Shared, raw, set_raw}
use atomic_queue_rs.AtomicQueue.Valid.{slot, IsElement, IsQueue, slots_differ}
use atomic_queue_rs.AtomicQueue.History.{
  share, Tickets, Phase, Part, part, resting, pop_claimed, staged, Takes, Does, Stands, Core,
}
use atomic_queue_rs.AtomicQueue.History.Share.{share-own, share-Gap}
use atomic_queue_rs.AtomicQueue.History.Claims.{each_stands, pop_claimed-this, pop_claimed-others}
use atomic_queue_rs.AtomicQueue.History.Storing.{stands, staged_below}

module _ {self : Queue} (q : IsQueue self) (parts : ℕ → Part) (s : Tickets) (m : Shared) (i : ℕ)
    (c : Core self parts s m) where
  open c use {sized, empty, stored, fresh, untaken, words, all_stand}

  pub claim_pop-Core :
      (a b : List ℕ) (n : ℕ)
      → parts i ≡ resting a b n
      → Core self
          (assign parts i (part a b n (Phase.popping m.common.tail)))
          (pop_claimed s m.common.tail i)
          (set_tail (suc m.common.tail) m)
  claim_pop-Core a b n e = record {
    sized = sized;
    empty = empty;
    stored = stored;
    fresh = fresh;
    untaken = λ t le. untaken t (omega arith);
    words = words;
    all_stand =
        each_stands parts (pop_claimed s m.common.tail i) m.common.head (suc m.common.tail) i
          (part a b n (Phase.popping m.common.tail))
          (pop_claimed-this s m.common.head m.common.tail i fresh untaken a b n
            (stands q parts s m i c (resting a b n) e))
          (λ j ne.
            pop_claimed-others s m.common.head m.common.tail i fresh untaken j (parts j) ne
              (all_stand j));
  }

  module _ (a b : List ℕ) (n r : ℕ) (e : parts i ≡ part a b n (Phase.popping r))
      (room : m.common.tail ≤ self.capacity) (there : raw (slot self r) m ≢ 0) where
    abbrev waits : Stands s m.common.head m.common.tail i (part a b n (Phase.popping r))
    waits = stands q parts s m i c (part a b n (Phase.popping r)) e

    full : s.stage r ≡ 1
    full = elim (ℕ_discrete (s.stage r) 0) [
      | yes none ↦ absurd (there (empty r (omega (arith, waits.does.before)) none))
      | no some ↦ omega (arith, waits.does.there_yet)
    ]

    pub found_word : IsElement (raw (slot self r) m)
    found_word =
        subst IsElement (sym (stored r (omega (arith, waits.does.before)) full))
          (words r (staged_below q parts s m i c r full))

    pub find-Core :
        Core self (assign parts i (part a b n (Phase.clearing r (raw (slot self r) m)))) s m
    find-Core = record {
      sized = sized;
      empty = empty;
      stored = stored;
      fresh = fresh;
      untaken = untaken;
      words = words;
      all_stand =
          each_stands parts s m.common.head m.common.tail i
            (part a b n (Phase.clearing r (raw (slot self r) m)))
            (record {
              has_sent = waits.has_sent;
              has_received = waits.has_received;
              bound_head = waits.bound_head;
              bound_tail = waits.bound_tail;
              does = (waits.does, full, sym (stored r (omega (arith, waits.does.before)) full));
            })
            (λ j ne. all_stand j);
    }

  module _ (a b : List ℕ) (n r x : ℕ) (e : parts i ≡ part a b n (Phase.clearing r x)) where
    abbrev here : Stands s m.common.head m.common.tail i (part a b n (Phase.clearing r x))
    here = stands q parts s m i c (part a b n (Phase.clearing r x)) e

    abbrev after : Tickets
    after = staged s r 2

    stage_other : (t : ℕ) → t ≢ r → after.stage t ≡ s.stage t
    stage_other t ne = assign_ne s.stage r t 2 (λ e. ne (sym e))

    cleared-Takes :
        (j k v : ℕ)
        → j ≢ i
        → Takes s j k m.common.tail v
        → Takes after j k m.common.tail v × (v ≢ r)
    cleared-Takes j k v ne d =
        let apart : v ≢ r = λ same. ne (sym d.mine ∙ ap s.popper same ∙ here.does.0.mine) in
        (
          record {
            since = d.since;
            before = d.before;
            mine = d.mine;
            none_before = d.none_before;
            none_after = d.none_after;
            there_yet = omega (arith, stage_other v apart, d.there_yet);
          },
          apart,
        )

    cleared-Does :
        (j k : ℕ) (p : Phase)
        → j ≢ i
        → Does s j k m.common.head m.common.tail p
        → Does after j k m.common.head m.common.tail p
    cleared-Does j k Phase.idle ne d = d
    cleared-Does j k (Phase.pushing w y) ne d = (
      d.0,
      d.1,
      d.2,
      stage_other w (λ same. absurd (omega (arith, d.3, ap s.stage same, here.does.1))) ∙ d.3,
      d.4,
    )
    cleared-Does j k (Phase.popping v) ne d = (cleared-Takes j k v ne d).0
    cleared-Does j k (Phase.clearing v y) ne d =
        let (takes, apart) = cleared-Takes j k v ne d.0 in (takes, stage_other v apart ∙ d.1, d.2)

    now_received : b ++ x ∷ [] ≡ share s.popper s.log i (suc r)
    now_received =
        ap₂ (λ l y. l ++ y ∷ [])
          (here.has_received
            ∙ sym (share-Gap s.popper s.log i n r here.does.0.since here.does.0.none_before))
          (sym here.does.2)
        ∙ sym (share-own s.popper s.log i r here.does.0.mine)

    pub clear-Core :
        m.common.tail ≤ self.capacity
        → Core self
            (assign parts i (resting a (b ++ x ∷ []) (suc r)))
            (staged s r 2)
            (set_raw (slot self r) 0 m)
    clear-Core room = record {
      sized = length-set m.storage (slot self r) 0 ∙ sized;
      empty = λ t small none.
          let ne : t ≢ r =
            λ same. omega (arith, none, ap (assign s.stage r 2) same ∙ assign_self s.stage r 2) in
          get_or-set_ne m.storage (slot self r) (slot self t) 0 0
            (slots_differ q r t (λ e. ne (sym e)) (omega (arith, here.does.0.before)) small)
          ∙ empty t small (sym (stage_other t ne) ∙ none);
      stored = λ t small one.
          let ne : t ≢ r =
            λ same. omega (arith, one, ap (assign s.stage r 2) same ∙ assign_self s.stage r 2) in
          get_or-set_ne m.storage (slot self r) (slot self t) 0 0
            (slots_differ q r t (λ e. ne (sym e)) (omega (arith, here.does.0.before)) small)
          ∙ stored t small (sym (stage_other t ne) ∙ one);
      fresh = λ t le.
          let below = staged_below q parts s m i c r here.does.1 in
          stage_other t (omega (arith, below)) ∙ fresh t le;
      untaken =
          λ t le. omega (arith, stage_other t (omega (arith, here.does.0.before)), untaken t le);
      words = words;
      all_stand =
          each_stands parts after m.common.head m.common.tail i (resting a (b ++ x ∷ []) (suc r))
            (record {
              has_sent = here.has_sent;
              has_received = now_received;
              bound_head = omega (arith, staged_below q parts s m i c r here.does.1);
              bound_tail = omega (arith, here.does.0.before);
              does = here.does.0.none_after;
            })
            (λ j ne.
              let st = all_stand j in
              record {
                has_sent = st.has_sent;
                has_received = st.has_received;
                bound_head = st.bound_head;
                bound_tail = st.bound_tail;
                does = cleared-Does j (parts j).bound (parts j).phase ne st.does;
              });
    }
