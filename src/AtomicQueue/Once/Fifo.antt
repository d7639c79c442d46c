-- ===== src/AtomicQueue/Once/Fifo.antt =====
-- In every interleaving of one producer and one consumer, while no slot is used twice.
use mathlib.Core.Path.{subst}
use atomic_queue_rs.Base.{
  ℕ, zero, suc, ◌^◌, ◌≤◌, ◌<◌, ◌≡◌, refl, sym, ap, some, List, [], ◌∷◌, length, take, arith,
  get_or-replicate, length-replicate,
}
use atomic_queue_rs.Program.{Profile, Fault}
use atomic_queue_rs.Program.Threads.{NoJob, System, Reach}
use atomic_queue_rs.Program.Duo.{Good, Flip, pair, Both, Reach-Both, Ends, Good-Ends}
use atomic_queue_rs.Program.Streams.{
  produce, consume, Sends, Receives, Received, ReceivedAll, produce-Good, consume-Good,
  received_first,
}
use atomic_queue_rs.AtomicQueue.{Queue, fresh, push, pop}
use atomic_queue_rs.AtomicQueue.Value.{Element, size_of, Shared}
use atomic_queue_rs.AtomicQueue.Valid.{slot, IsElement, IsQueue, All, slot-IsRing}
use atomic_queue_rs.AtomicQueue.Once.{Producer, Consumer, Shares, pushed, popped}
use atomic_queue_rs.AtomicQueue.Once.Accesses.{At, push-Good, pop-Good}

some-eq : {A : Type 0} {x y : A} → some x ≡ some y → x ≡ y
some-eq e = cc

All-At : (P : ℕ → Type 0) (xs : List ℕ) → All P xs → (i x : ℕ) → At xs i x → P x
All-At P [] a i x e = absurd cc
All-At P (y ∷ xs) a zero x e = subst P (some-eq e) a.0
All-At P (y ∷ xs) a (suc i) x e = All-At P xs a.1 i x e

module _ (p : Profile) {self : Queue} (q : IsQueue self) (T : Element) (wide : size_of T ≡ 8)
    (fuel : ℕ) (xs : List ℕ) (words : All IsElement xs) (once : length xs ≤ self.capacity) where
  -- Between two calls.
  abbrev Left : ℕ → Producer → Type 0
  Left w g = g ≡ pushed w

  abbrev Right : ℕ → Consumer → Type 0
  Right r h = h ≡ popped r

  small : self.capacity < 2 ^ 64
  small = omega (arith, (slot-IsRing q).small)

  send : Sends (Shares self xs) xs (push p self T) Left
  send w x there more g e =
      subst (Good (Shares self xs) (push p self T x) (λ _ g. Left (suc w) g)) (sym e) (
        push-Good p q T wide xs once w x there more (omega (arith, small))
          (All-At IsElement xs words w x there))

  receive : Receives (Flip (Shares self xs)) xs self.capacity (pop p self T fuel) Right
  receive r room h e =
      subst
        (Good (Flip (Shares self xs)) (pop p self T fuel)
          (Received (Flip (Shares self xs)) xs Right r))
        (sym e)
        (pop-Good p q T wide xs once (All-At IsElement xs words) r fuel room (omega (arith, small)))

  start-Shares :
      (beyond : Fault) → Shares self xs (pushed 0) (popped 0) (fresh beyond self.capacity).1
  start-Shares beyond = record {
    head_at = refl;
    tail_at = refl;
    sized = length-replicate self.capacity 0;
    order = omega arith;
    known = omega arith;
    stored = λ i lo hi. absurd (omega arith);
    free = λ i lo hi. get_or-replicate self.capacity (slot self i) 0;
  }

  module _ (k : ℕ) (few : k ≤ self.capacity) {n : ℕ} {t : System Shared (List ℕ)}
      (run : Reach NoJob
        (pair
          (fresh self.beyond self.capacity).1
          (produce (push p self T) xs)
          (consume (pop p self T fuel) k)
          [])
        n
        t) where
    abbrev Sent : List ℕ → Producer → Type 0
    Sent ys g = Left (length xs) g

    abbrev Got : List ℕ → Consumer → Type 0
    Got = ReceivedAll (Flip (Shares self xs)) xs Right 0 k

    both : Both (Shares self xs) Sent Got t
    both =
        Reach-Both (Shares self xs) Sent Got (fresh self.beyond self.capacity).1
          (produce (push p self T) xs) (consume (pop p self T fuel) k) [] (pushed 0) (popped 0)
          (start-Shares self.beyond)
          (produce-Good (Shares self xs) xs (push p self T) Left send (pushed 0) refl)
          (consume-Good (Flip (Shares self xs)) xs self.capacity (pop p self T fuel) Right receive k
            few (popped 0) refl)
          run

    first_of : (ys : List ℕ) → Got ys both.right → (ys ≡ take k xs) × (k ≤ length xs)
    first_of ys got =
        let taken = ap (λ (h : Consumer). h.taken) got.0 in
        let enough : k ≤ length xs = omega (arith, taken, both.inv.order, both.inv.known) in
        (received_first xs k ys got.1 enough got.2, enough)

    -- One thread pushes the elements xs, none of them 0 and no more than the capacity, to a new
    -- AtomicQueue or AtomicQueueB of eight-byte elements, and another pops k times, at most the
    -- capacity: after any interleaving, under both profiles and with every fuel, a consumer that
    -- has returned has returned the first k of xs in their order, and xs has as many; and no fault
    -- has occurred but a wait that runs out of fuel.
    pub once_fifo :
        Ends (λ ys. (ys ≡ take k xs) × (k ≤ length xs)) (t.thread 1)
        × Ends (λ ys. Unit) (t.thread 0)
    once_fifo = (
      Good-Ends (Flip (Shares self xs)) (t.thread 1) Got both.right
          (λ ys. (ys ≡ take k xs) × (k ≤ length xs)) both.right_good first_of,
      Good-Ends (Shares self xs) (t.thread 0) Sent both.left (λ ys. Unit) both.left_good
          (λ ys e. tt),
    )
