-- ===== src/AtomicQueue2/Spsc/Optimist.antt =====
-- One producer and one consumer with `optimist_push` and `optimist_pop` of src/common.rs, which try
-- until they succeed: they too pass on every element in order, and keep the counters in bounds.
use mathlib.Core.Path.{subst}
use atomic_queue_rs.Base.{
  ℕ, zero, suc, ◌+◌, ◌-◌, ◌^◌, ◌≤◌, ◌<◌, ◌≡◌, refl, sym, ap, Bool, true, false, not, none, some,
  List, [], length, take, arith, if◌then◌else◌,
}
use atomic_queue_rs.Program.{ret, Profile}
use atomic_queue_rs.Program.Threads.{NoJob, System, Reach}
use atomic_queue_rs.Program.Duo.{Good, Good->>=, Ends, Good-Ends, Flip, pair, Both, Reach-Both}
use atomic_queue_rs.Common.Optimist.{optimist_push, optimist_pop}
use atomic_queue_rs.AtomicQueue2.{ops, try_push, try_pop}
use atomic_queue_rs.AtomicQueue2.Slots.{Shared}
use atomic_queue_rs.AtomicQueue2.Types.{Queue2, fresh}
use atomic_queue_rs.AtomicQueue2.Valid.{IsQueue}
use atomic_queue_rs.AtomicQueue2.Spsc.{Producer, Consumer, pushed, popped}
use atomic_queue_rs.Program.Streams.{get_elem?, produce, consume}
use atomic_queue_rs.Program.Streams.{
  Sends, Receives, Received, ReceivedAll, produce-Good, consume-Good, received_first,
}
use atomic_queue_rs.AtomicQueue2.Spsc.Fifo.{start-Shares}
use atomic_queue_rs.AtomicQueue2.Spsc.Guards.{Watching, watching, Guards}
use atomic_queue_rs.AtomicQueue2.Spsc.TryPushing.{Pushes, try_push-Good}
use atomic_queue_rs.AtomicQueue2.Spsc.TryPopping.{Pops, try_pop-Good}

module _ {A : Type 0} (p : Profile) {periodic : Bool} {self : Queue2} (q : IsQueue periodic self)
    (spsc : self.spsc ≡ true) (fuel rounds : ℕ) (xs : List A) where
  -- Between two calls.
  abbrev pub Left : ℕ → Watching Producer → Type 0
  Left w g = g.own ≡ pushed w

  abbrev pub Right : ℕ → Watching Consumer → Type 0
  Right r h = h.own ≡ popped r

  -- Each try is good, also if it starts where a failed one has ended.
  tries_push :
      (w : ℕ) (x : A)
      → get_elem? xs w ≡ some x
      → w < length xs
      → w + 1 < 2 ^ 64
      → (g : Watching Producer) → Left w g
      → Good (Guards self xs) (try_push p self fuel x) (Pushes p q xs w) g
  tries_push w x there more small g e =
      subst
        (λ o. Good (Guards self xs) (try_push p self fuel x) (Pushes p q xs w) (watching o g.seen))
        (sym e) (try_push-Good p q xs w x there more fuel spsc small g.seen)

  send_within :
      (w : ℕ) (x : A)
      → get_elem? xs w ≡ some x
      → w < length xs
      → w + 1 < 2 ^ 64
      → (n : ℕ) (g : Watching Producer) → Left w g
      → Good (Guards self xs) (optimist_push (ops p self fuel) n x) (λ _ g. Left (suc w) g) g
  unfolding optimist_push ops
  send_within w x there more small zero g e = refl
  send_within w x there more small (suc n) g e =
      Good->>= (Guards self xs) (try_push p self fuel x) _ (Pushes p q xs w) (λ _ g. Left (suc w) g)
        g (tries_push w x there more small g e)
        (λ b g' e'.
          elim b
              as (λ b.
                Pushes p q xs w b g'
                → Good (Guards self xs)
                    (if not b then optimist_push (ops p self fuel) n x else ret tt)
                    (λ _ g. Left (suc w) g) g') [
                      | true ↦ λ e'. e'
                      | false ↦ λ e'. send_within w x there more small n g' e'
                    ]
            e')

  send :
      length xs < 2 ^ 64 → Sends (Guards self xs) xs (optimist_push (ops p self fuel) rounds) Left
  send small w x there more g e = send_within w x there more (omega arith) rounds g e

  tries_pop :
      (r : ℕ)
      → r + 1 < 2 ^ 64
      → (h : Watching Consumer) → Right r h
      → Good (Flip (Guards self xs)) (try_pop p self fuel) (Pops p q xs r) h
  tries_pop r small h e =
      subst
        (λ o.
          Good (Flip (Guards self xs)) (try_pop p self fuel) (Pops p q xs r) (watching o h.seen))
        (sym e) (try_pop-Good p q xs r fuel spsc small h.seen)

  receive_within :
      (r : ℕ)
      → r + 1 < 2 ^ 64
      → (n : ℕ) (h : Watching Consumer) → Right r h
      → Good
          (Flip (Guards self xs))
          (optimist_pop (ops p self fuel) n)
          (Received (Flip (Guards self xs)) xs Right r)
          h
  unfolding optimist_pop ops
  receive_within r small zero h e = refl
  receive_within r small (suc n) h e =
      Good->>= (Flip (Guards self xs)) (try_pop p self fuel) _ (Pops p q xs r)
        (Received (Flip (Guards self xs)) xs Right r) h (tries_pop r small h e)
        (λ o h' e'.
          elim o
              as (λ o.
                Pops p q xs r o h'
                → Good (Flip (Guards self xs))
                    (elim o [ some x ↦ ret x | none ↦ optimist_pop (ops p self fuel) n ])
                    (Received (Flip (Guards self xs)) xs Right r) h') [
                      | some x ↦ λ e'. e'
                      | none ↦ λ e'. receive_within r small n h' e'
                    ]
            e')

  receive :
      Receives (Flip (Guards self xs)) xs (2 ^ 64 - 1) (optimist_pop (ops p self fuel) rounds) Right
  receive r small h e = receive_within r (omega arith) rounds h e

  start-Guards :
      Guards self xs (watching (pushed 0) 0) (watching (popped 0) 0) (fresh self.capacity)
  start-Guards = record {
    shares = start-Shares p q spsc fuel xs;
    tail_seen = omega arith;
    room = omega arith;
    head_seen = omega arith;
    there = omega arith;
  }

  module _ (k : ℕ) (short : length xs < 2 ^ 64) (few : k < 2 ^ 64) {n : ℕ}
      {t : System (Shared A) (List A)}
      (run : Reach NoJob
        (pair
          (fresh self.capacity)
          (produce (optimist_push (ops p self fuel) rounds) xs)
          (consume (optimist_pop (ops p self fuel) rounds) k)
          [])
        n
        t) where
    abbrev pub Sent : List A → Watching Producer → Type 0
    Sent ys g = Left (length xs) g

    abbrev pub Got : List A → Watching Consumer → Type 0
    Got = ReceivedAll (Flip (Guards self xs)) xs Right 0 k

    pub both : Both (Guards self xs) Sent Got t
    both =
        Reach-Both (Guards self xs) Sent Got (fresh self.capacity)
          (produce (optimist_push (ops p self fuel) rounds) xs)
          (consume (optimist_pop (ops p self fuel) rounds) k) [] (watching (pushed 0) 0)
          (watching (popped 0) 0) start-Guards
          (produce-Good (Guards self xs) xs (optimist_push (ops p self fuel) rounds) Left
            (send short) (watching (pushed 0) 0) refl)
          (consume-Good (Flip (Guards self xs)) xs (2 ^ 64 - 1)
            (optimist_pop (ops p self fuel) rounds) Right receive k (omega arith)
            (watching (popped 0) 0) refl)
          run

    first_of : (ys : List A) → Got ys both.right → (ys ≡ take k xs) × (k ≤ length xs)
    first_of ys got =
        let found = ap (λ (h : Consumer). h.found) got.0 in
        let s = both.inv.shares in
        let enough : k ≤ length xs = omega (arith, found, s.behind, s.producer_order, s.known) in
        (received_first xs k ys got.1 enough got.2, enough)

    -- One thread calls optimist_push for the elements xs on a new AtomicQueue2 or AtomicQueueB2
    -- with SPSC, with or without TOTAL_ORDER, and another calls optimist_pop k times, fewer than
    -- 2^64 each: after any interleaving, under both profiles and with every fuel, tail is at most
    -- head and head at most tail plus the capacity; a consumer that has returned has returned the
    -- first k of xs in their order, and xs has as many; and no fault has occurred but a wait that
    -- runs out of fuel.
    pub optimist_fifo :
        (t.memory.common.tail ≤ t.memory.common.head)
        × (t.memory.common.head ≤ t.memory.common.tail + self.capacity)
        × Ends (λ ys. (ys ≡ take k xs) × (k ≤ length xs)) (t.thread 1)
        × Ends (λ ys. Unit) (t.thread 0)
    optimist_fifo =
        let b = both.inv in
        (
          omega (arith, b.shares.head_at, b.shares.tail_at, b.head_seen, b.there),
          omega (arith, b.shares.head_at, b.shares.tail_at, b.room, b.tail_seen),
          Good-Ends (Flip (Guards self xs)) (t.thread 1) Got both.right
              (λ ys. (ys ≡ take k xs) × (k ≤ length xs)) both.right_good first_of,
          Good-Ends (Guards self xs) (t.thread 0) Sent both.left (λ ys. Unit) both.left_good
              (λ ys e. tt),
        )
