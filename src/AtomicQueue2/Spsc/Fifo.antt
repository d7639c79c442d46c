-- ===== src/AtomicQueue2/Spsc/Fifo.antt =====
-- One producer and one consumer, in every interleaving: what comes out is what went in, in order.
use mathlib.Core.Path.{subst}
use atomic_queue_rs.Base.{
  ℕ, ◌-◌, suc, ◌^◌, ◌≤◌, ◌<◌, ◌≡◌, refl, sym, ap, Bool, true, none, List, [], length, take, arith,
  get_or-replicate, length-replicate,
}
use atomic_queue_rs.Program.{Profile}
use atomic_queue_rs.Program.Threads.{NoJob, System, Reach}
use atomic_queue_rs.Program.Duo.{Good, Flip, pair, Both, Reach-Both, Ends, Good-Ends}
use atomic_queue_rs.AtomicQueue2.{push, pop}
use atomic_queue_rs.AtomicQueue2.Slots.{Shared, empty_mark}
use atomic_queue_rs.AtomicQueue2.Types.{Queue2, fresh}
use atomic_queue_rs.AtomicQueue2.Valid.{slot, IsQueue}
use atomic_queue_rs.AtomicQueue2.Spsc.{Producer, Consumer, Shares, pushed, popped}
use atomic_queue_rs.Program.Streams.{produce, consume}
use atomic_queue_rs.Program.Streams.{
  Sends, Receives, Received, ReceivedAll, produce-Good, consume-Good, received_first,
}
use atomic_queue_rs.AtomicQueue2.Spsc.Pushing.{push-Good}
use atomic_queue_rs.AtomicQueue2.Spsc.Popping.{pop-Good}

module _ {A : Type 0} (p : Profile) {periodic : Bool} {self : Queue2} (q : IsQueue periodic self)
    (spsc : self.spsc ≡ true) (fuel : ℕ) (xs : List A) where
  -- Between two calls.
  abbrev Left : ℕ → Producer → Type 0
  Left w g = g ≡ pushed w

  abbrev Right : ℕ → Consumer → Type 0
  Right r h = h ≡ popped r

  abbrev Sent : List A → Producer → Type 0
  Sent r g = Left (length xs) g

  send : length xs < 2 ^ 64 → Sends (Shares self xs) xs (push p self fuel) Left
  send small w x there more g e =
      subst (Good (Shares self xs) (push p self fuel x) (λ _ g. Left (suc w) g)) (sym e)
        (push-Good p q xs w x there more fuel spsc (omega arith))

  receive : Receives (Flip (Shares self xs)) xs (2 ^ 64 - 1) (pop p self fuel) Right
  receive r small h e =
      subst
        (Good (Flip (Shares self xs)) (pop p self fuel)
          (Received (Flip (Shares self xs)) xs Right r))
        (sym e) (pop-Good p q xs r fuel spsc (omega arith))

  pub start-Shares : Shares self xs (pushed 0) (popped 0) (fresh self.capacity)
  start-Shares = record {
    head_at = refl;
    tail_at = refl;
    states_sized = length-replicate self.capacity empty_mark;
    elements_sized = length-replicate self.capacity none;
    producer_order = omega arith;
    consumer_order = omega arith;
    behind = omega arith;
    ahead = omega arith;
    known = omega arith;
    full = λ i lo hi. absurd (omega arith);
    free = λ i lo hi. get_or-replicate self.capacity (slot self i) empty_mark;
    stored = λ i lo hi. absurd (omega arith);
  }

  module _ (k : ℕ) (short : length xs < 2 ^ 64) (few : k < 2 ^ 64) {n : ℕ}
      {t : System (Shared A) (List A)}
      (run : Reach NoJob
        (pair
          (fresh self.capacity)
          (produce (push p self fuel) xs)
          (consume (pop p self fuel) k)
          [])
        n
        t) where
    abbrev Got : List A → Consumer → Type 0
    Got = ReceivedAll (Flip (Shares self xs)) xs Right 0 k

    both : Both (Shares self xs) Sent (Got) t
    both =
        Reach-Both (Shares self xs) Sent (Got) (fresh self.capacity) (produce (push p self fuel) xs)
          (consume (pop p self fuel) k) [] (pushed 0) (popped 0) start-Shares
          (produce-Good (Shares self xs) xs (push p self fuel) Left (send short) (pushed 0) refl)
          (consume-Good (Flip (Shares self xs)) xs (2 ^ 64 - 1) (pop p self fuel) Right receive k
            (omega arith) (popped 0) refl)
          run

    first_of : (ys : List A) → Got ys both.right → (ys ≡ take k xs) × (k ≤ length xs)
    first_of ys got =
        let found = ap (λ (h : Consumer). h.found) got.0 in
        let enough : k ≤ length xs =
          omega (arith, found, both.inv.behind, both.inv.producer_order, both.inv.known) in
        (received_first xs k ys got.1 enough got.2, enough)

    -- One thread pushes the elements xs to a new AtomicQueue2 or AtomicQueueB2 with SPSC and
    -- another pops k times, fewer than 2^64 each: after any interleaving, under both profiles and
    -- with every fuel, a consumer that has returned has returned the first k of xs in their order,
    -- and xs has as many; and no panic, access out of bounds or read of an uninitialized element
    -- has occurred, nor any fault but a wait that runs out of fuel.
    pub spsc_fifo :
        Ends (λ ys. (ys ≡ take k xs) × (k ≤ length xs)) (t.thread 1)
        × Ends (λ ys. Unit) (t.thread 0)
    spsc_fifo = (
      Good-Ends (Flip (Shares self xs)) (t.thread 1) Got both.right
          (λ ys. (ys ≡ take k xs) × (k ≤ length xs)) both.right_good first_of,
      Good-Ends (Shares self xs) (t.thread 0) Sent both.left (λ ys. Unit) both.left_good
          (λ ys e. tt),
    )
