-- ===== src/Examples/Shortage.antt =====
-- The throughput runs of examples/benchmark.rs on a queue of src/atomic_queue2.rs in MPMC mode: with two or more
-- producers and as many consumers, the consumers wait for more elements than are sent.
use native.Mathlib.Nat.{mul-div_cancel, mul-div-le, mul-le-mul_right}
use mathlib.Core.Path.{subst}
use atomic_queue_rs.Base.{
  ℕ, zero, suc, ◌+◌, ◌*◌, ◌/◌, ◌%◌, ◌^◌, ◌≤◌, ◌<◌, ◌≡◌, refl, Option, none, some, false, ltb,
  lt→ltb, if◌then◌else◌, inl, inr, Bool-cases, arith,
}
use atomic_queue_rs.Program.{Program, ret, Profile}
use atomic_queue_rs.Program.Threads.{System, Reach, NoJob}
use atomic_queue_rs.Program.Many.{Steady-mono, AllSteady, Reach-AllSteady}
use atomic_queue_rs.AtomicQueue2.{ops}
use atomic_queue_rs.AtomicQueue2.Slots.{Shared}
use atomic_queue_rs.AtomicQueue2.Types.{Queue2, fresh}
use atomic_queue_rs.AtomicQueue2.Conserved.{Part, part, Inv, At, Steadily}
use atomic_queue_rs.AtomicQueue2.Conserved.Weights.{
  count_full-none, total_zero, total_lower, total_upper,
}
use atomic_queue_rs.AtomicQueue2.Conserved.Loops.{Keeps, returns, stops, chains}
use atomic_queue_rs.AtomicQueue2.Conserved.Methods.{MayReceive, push-Keeps, try_pop-Keeps}
use atomic_queue_rs.Examples.{receiver, sender, throughput}

module _ (p : Profile) (self : Queue2) (mpmc : self.spsc ≡ false) (wait fuel messages n : ℕ) where
  abbrev offers : ℕ → ℕ
  offers i = if ltb i n then 0 else messages / n

  module _ (i : ℕ) (below : i < n + n) where
    -- The consumer has what it has waited for.
    abbrev Served : ℕ → ℕ → Part → Type 0
    Served asked counted g = asked ≤ g.received

    abbrev Waits : (rounds asked : ℕ) → Type 0
    Waits rounds asked =
        (counted : ℕ) (b c : ℕ)
        → b ≡ counted
        → Keeps {A = ℕ} (n + n) offers i (receiver (ops p self wait) rounds asked counted)
            (Served asked) (part 0 b c)

    after_look :
        (rounds asked counted : ℕ) (b : ℕ) (o : Option ℕ) (g : Part)
        → Waits rounds asked
        → b ≡ counted
        → MayReceive 0 b 0 o g
        → Keeps {A = ℕ}
            (n + n)
            offers
            i
            (elim o [
              | some val ↦ receiver (ops p self wait) rounds asked (suc counted)
              | none ↦ receiver (ops p self wait) rounds asked counted
            ])
            (Served asked)
            g
    after_look rounds asked counted b (some y) g later e (c, same, covers) =
        rw same (later (suc counted) (b + 1) c (omega (arith, e)))
    after_look rounds asked counted b none g later e (c, same, covers) =
        rw same (later counted b c e)

    receiver-Keeps : (rounds asked : ℕ) → Waits rounds asked
    unfolding receiver ops
    receiver-Keeps zero asked counted b c e = stops (n + n) offers i
    receiver-Keeps (suc rounds) asked counted b c e = elim (Bool-cases (ltb counted asked)) [
      | inl more ↦ rw more (
          chains (n + n) offers i _ (MayReceive 0 b 0)
            (try_pop-Keeps (n + n) offers i p self mpmc wait below 0 b 0 c (omega arith))
            (λ o g at. after_look rounds asked counted b o g (receiver-Keeps rounds asked) e at))
      | inr enough ↦ rw enough (returns (n + n) offers i (ground (arith, enough, e)))
    ]

    sender-Keeps :
        (sent j a c : ℕ)
        → sent ≤ c
        → Keeps {A = ℕ}
            (n + n)
            offers
            i
            (sender (ops p self wait) sent j)
            (λ _ _. Unit {0})
            (part a 0 c)
    unfolding sender ops
    sender-Keeps zero j a c covers = returns (n + n) offers i tt
    sender-Keeps (suc sent) j a c covers =
        chains (n + n) offers i _ (λ _ g. At (a + 1) 0 sent g)
          (push-Keeps (n + n) offers i p self mpmc wait below a 0 sent c (j % 2 ^ 32) covers)
          (λ _ g at. rw at.1 (sender-Keeps sent (suc j) (a + 1) at.0 at.2))

  abbrev Fed : ℕ → ℕ → Part → Type 0
  Fed i r g = i < n → messages ≤ g.received

  waiting : ℕ → Part
  waiting i = part 0 0 (offers i)

  start-Inv : Inv {A = ℕ} (n + n) offers 0 waiting tt (fresh self.capacity)
  unfolding waiting
  start-Inv = record {
    conserved = omega (arith, count_full-none self.capacity, total_zero (n + n));
    within = λ i. omega arith;
  }

  thread-Steady :
      (i : ℕ)
      → Steadily
          (n + n)
          offers
          i
          (throughput (ops p self wait) fuel messages n i)
          (Fed i)
          (waiting i)
  unfolding throughput waiting
  thread-Steady i = elim (Bool-cases (ltb i n)) [
    | inl first ↦
        let below : i < n = ground (arith, first) in
        rw first (
          Steady-mono (Inv (n + n) offers) (λ _. Unit {0}) i
            (receiver (ops p self wait) fuel (messages * n / n) 0)
            (Served i (omega arith) (messages * n / n)) (Fed i) (part 0 0 0)
            (receiver-Keeps i (omega arith) fuel (messages * n / n) 0 0 0 refl).steady
            (λ r g served lt. omega (arith, served, mul-div_cancel messages {n = n} (omega arith))))
    | inr later ↦ rw later (elim (Bool-cases (ltb i (n + n))) [
      | inl second ↦ rw second (
          Steady-mono (Inv (n + n) offers) (λ _. Unit {0}) i
            (sender (ops p self wait) (messages / n) 0) (λ _ _. Unit {0}) (Fed i)
            (part 0 0 (messages / n))
            (sender-Keeps i (ground (arith, second)) (messages / n) 0 0 (messages / n)
              (omega arith)).steady
            (λ r g done lt. absurd (ground (arith, later))))
      | inr beyond ↦ rw beyond (λ lt. absurd (ground (arith, later)))
    ])
  ]

  returned :
      (i r : ℕ) (c : Program (Shared ℕ) ℕ) (g : Part)
      → c ≡ ret r
      → Steadily (n + n) offers i c (Fed i) g
      → Fed i r g
  returned i r c g e h = subst (λ d. Steadily (n + n) offers i d (Fed i) g) e h

  offered_few : (i : ℕ) → offers i ≤ messages / n
  offered_few i = elim (Bool-cases (ltb i n)) [
    | inl first ↦ rw first (omega arith)
    | inr later ↦ rw later (omega arith)
  ]

  offered_none : (i : ℕ) → i < n → offers i ≤ 0
  offered_none i below = rw (lt→ltb i n below) (omega arith)

  -- In a throughput benchmark of at least one message with two or more producers and as many
  -- consumers, on a new AtomicQueue2 or AtomicQueueB2 without SPSC, in any other mode, no run,
  -- whatever the fuel, reaches a state where all threads have returned: the consumers wait for more
  -- elements than the producers send.
  pub consumers_starve :
      {k : ℕ} {t : System (Shared ℕ) ℕ}
      → 2 ≤ n
      → 0 < messages
      → Reach NoJob
          (record {
            memory = fresh self.capacity;
            thread = throughput (ops p self wait) fuel messages n;
          })
          k
          t
      → ¬ ((i : ℕ) → (r : ℕ) × (t.thread i ≡ ret r))
  consumers_starve {k} {t} two more run done =
      let all : AllSteady (Inv (n + n) offers) (λ _. Unit {0}) Fed k t =
        Reach-AllSteady (Inv (n + n) offers) (λ _. Unit {0}) Fed
          (record { parts = waiting; shared = tt; inv = start-Inv; steady = thread-Steady }) run in
      let received =
        total_lower (λ i. (all.parts i).received) messages n n
          (λ i below.
            returned i (done i).0 (t.thread i) (all.parts i) (done i).1 (all.steady i) below) in
      let sent =
        total_upper (λ i. (all.parts i).sent) (messages / n) n n
          (λ i below. omega (arith, all.inv.within i, offered_none i below))
          (λ i. omega (arith, all.inv.within i, offered_few i)) in
      omega (
        arith,
        all.inv.conserved,
        received,
        sent,
        mul-div-le messages n,
        mul-le-mul_right messages two,
      )
