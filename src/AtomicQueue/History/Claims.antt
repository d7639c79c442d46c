-- ===== src/AtomicQueue/History/Claims.antt =====
-- A thread takes a ticket.
use native.Mathlib.Decide.{ℕ_discrete, dec_lt}
use mathlib.Core.Path.{subst}
use atomic_queue_rs.Base.{
  ℕ, suc, ◌≤◌, ◌<◌, ◌≡◌, ◌≢◌, refl, sym, ap, ap₂, ◌∙◌, List, [], ◌∷◌, ◌++◌, arith,
}
use atomic_queue_rs.Program.Threads.{assign, assign_self, assign_ne}
use atomic_queue_rs.AtomicQueue.History.{
  share, Tickets, Phase, Part, part, push_claimed, pop_claimed, resting, Gap, Takes, Does, Stands,
}
use atomic_queue_rs.AtomicQueue.History.Share.{share-own, share-other, share-agree}

-- What holds of every thread after thread `i` has moved.
pub each_stands :
    (parts : ℕ → Part) (s : Tickets) (head tail i : ℕ) (g : Part)
    → Stands s head tail i g
    → ((j : ℕ) → j ≢ i → Stands s head tail j (parts j))
    → (j : ℕ) → Stands s head tail j (assign parts i g j)
each_stands parts s head tail i g this others j = elim (ℕ_discrete i j) [
  | yes e ↦
      subst (λ k. Stands s head tail k (assign parts i g k)) e
        (subst (Stands s head tail i) (sym (assign_self parts i g)) this)
  | no ne ↦
      subst (Stands s head tail j) (sym (assign_ne parts i j g ne)) (others j (λ e. ne (sym e)))
]

module _ (s : Tickets) (head tail i x : ℕ) (fresh : (t : ℕ) → head ≤ t → s.stage t ≡ 0) where
  -- The next push ticket, for element `x` of thread `i`.
  abbrev claimed : Tickets
  claimed = push_claimed s head i x

  pub log_below : (t : ℕ) → t < head → claimed.log t ≡ s.log t
  log_below t h = assign_ne s.log head t x (omega arith)

  pusher_below : (t : ℕ) → t < head → claimed.pusher t ≡ s.pusher t
  pusher_below t h = assign_ne s.pusher head t i (omega arith)

  sent_below : (j : ℕ) → share claimed.pusher claimed.log j head ≡ share s.pusher s.log j head
  sent_below j = share-agree claimed.pusher s.pusher claimed.log s.log j head pusher_below log_below

  received_below : (j n : ℕ) → n ≤ head → share s.popper claimed.log j n ≡ share s.popper s.log j n
  received_below j n h =
      share-agree s.popper s.popper claimed.log s.log j n (λ t lt. refl)
        (λ t lt. log_below t (omega arith))

  push_claimed-Does :
      (j n : ℕ) (p : Phase) → Does s j n head tail p → Does claimed j n (suc head) tail p
  push_claimed-Does j n Phase.idle d = d
  push_claimed-Does j n (Phase.pushing w y) d =
      (d.0, omega (arith, d.1), pusher_below w d.1 ∙ d.2, d.3, log_below w d.1 ∙ d.4)
  push_claimed-Does j n (Phase.popping r) d = record {
    since = d.since;
    before = d.before;
    mine = d.mine;
    none_before = d.none_before;
    none_after = d.none_after;
    there_yet = d.there_yet;
  }
  push_claimed-Does j n (Phase.clearing r y) d =
      let pushed : r < head = elim (dec_lt r head) [
        | yes lt ↦ lt
        | no ge ↦ absurd (omega (arith, d.1, fresh r (omega arith)))
      ] in
      (
        record {
          since = d.0.since;
          before = d.0.before;
          mine = d.0.mine;
          none_before = d.0.none_before;
          none_after = d.0.none_after;
          there_yet = d.0.there_yet;
        },
        d.1,
        log_below r pushed ∙ d.2,
      )

  pub push_claimed-others :
      (j : ℕ) (g : Part) → j ≢ i → Stands s head tail j g → Stands claimed (suc head) tail j g
  push_claimed-others j g ne st = record {
    has_sent =
        st.has_sent
        ∙ sym (sent_below j)
        ∙ sym (
            share-other claimed.pusher claimed.log j head
              (λ e. ne (sym e ∙ assign_self s.pusher head i)));
    has_received = st.has_received ∙ sym (received_below j g.bound st.bound_head);
    bound_head = omega (arith, st.bound_head);
    bound_tail = st.bound_tail;
    does = push_claimed-Does j g.bound g.phase st.does;
  }

  pub push_claimed-this :
      (a b : List ℕ) (n : ℕ)
      → Stands s head tail i (resting a b n)
      → Stands claimed (suc head) tail i (part (a ++ x ∷ []) b n (Phase.pushing head x))
  push_claimed-this a b n st = record {
    has_sent =
        ap₂ (λ l y. l ++ y ∷ []) (st.has_sent ∙ sym (sent_below i)) (sym (assign_self s.log head x))
        ∙ sym (share-own claimed.pusher claimed.log i head (assign_self s.pusher head i));
    has_received = st.has_received ∙ sym (received_below i n st.bound_head);
    bound_head = omega (arith, st.bound_head);
    bound_tail = st.bound_tail;
    does = (
      st.does,
      omega arith,
      assign_self s.pusher head i,
      fresh head (omega arith),
      assign_self s.log head x,
    );
  }

module _ (s : Tickets) (head tail i : ℕ) (fresh : (t : ℕ) → head ≤ t → s.stage t ≡ 0)
    (small : (t : ℕ) → tail ≤ t → s.stage t ≤ 1) where
  -- The next pop ticket, for thread `i`.
  abbrev now : Tickets
  now = pop_claimed s tail i

  popper_below : (t : ℕ) → t < tail → now.popper t ≡ s.popper t
  popper_below t h = assign_ne s.popper tail t i (omega arith)

  Gap-below : (j b c : ℕ) → c ≤ tail → Gap s.popper j b c → Gap now.popper j b c
  Gap-below j b c le gap t lo hi e = gap t lo hi (sym (popper_below t (omega arith)) ∙ e)

  Gap-next : (j b : ℕ) → j ≢ i → Gap s.popper j b tail → Gap now.popper j b (suc tail)
  Gap-next j b ne gap t lo hi e = elim (ℕ_discrete t tail) [
    | yes same ↦ ne (sym e ∙ ap now.popper same ∙ assign_self s.popper tail i)
    | no other ↦ gap t lo (omega arith) (sym (popper_below t (omega arith)) ∙ e)
  ]

  Takes-next : (j b r : ℕ) → j ≢ i → Takes s j b tail r → Takes now j b (suc tail) r
  Takes-next j b r ne d = record {
    since = d.since;
    before = omega (arith, d.before);
    mine = popper_below r d.before ∙ d.mine;
    none_before = Gap-below j b r (omega (arith, d.before)) d.none_before;
    none_after = Gap-next j (suc r) ne d.none_after;
    there_yet = d.there_yet;
  }

  pop_claimed-Does :
      (j n : ℕ) (p : Phase) → j ≢ i → Does s j n head tail p → Does now j n head (suc tail) p
  pop_claimed-Does j n Phase.idle ne d = Gap-next j n ne d
  pop_claimed-Does j n (Phase.pushing w y) ne d = (Gap-next j n ne d.0, d.1, d.2, d.3, d.4)
  pop_claimed-Does j n (Phase.popping r) ne d = Takes-next j n r ne d
  pop_claimed-Does j n (Phase.clearing r y) ne d = (Takes-next j n r ne d.0, d.1, d.2)

  received_before : (j n : ℕ) → n ≤ tail → share now.popper s.log j n ≡ share s.popper s.log j n
  received_before j n h =
      share-agree now.popper s.popper s.log s.log j n (λ t lt. popper_below t (omega arith))
        (λ t lt. refl)

  pub pop_claimed-others :
      (j : ℕ) (g : Part) → j ≢ i → Stands s head tail j g → Stands now head (suc tail) j g
  pop_claimed-others j g ne st = record {
    has_sent = st.has_sent;
    has_received = st.has_received ∙ sym (received_before j g.bound st.bound_tail);
    bound_head = st.bound_head;
    bound_tail = omega (arith, st.bound_tail);
    does = pop_claimed-Does j g.bound g.phase ne st.does;
  }

  pub pop_claimed-this :
      (a b : List ℕ) (n : ℕ)
      → Stands s head tail i (resting a b n)
      → Stands now head (suc tail) i (part a b n (Phase.popping tail))
  pop_claimed-this a b n st = record {
    has_sent = st.has_sent;
    has_received = st.has_received ∙ sym (received_before i n st.bound_tail);
    bound_head = st.bound_head;
    bound_tail = omega (arith, st.bound_tail);
    does = record {
      since = st.bound_tail;
      before = omega arith;
      mine = assign_self s.popper tail i;
      none_before = Gap-below i n tail (omega arith) st.does;
      none_after = λ t lo hi. absurd (omega arith);
      there_yet = small tail (omega arith);
    };
  }
