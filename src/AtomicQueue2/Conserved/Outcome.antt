-- ===== src/AtomicQueue2/Conserved/Outcome.antt =====
-- Any number of threads that make any calls of one queue of src/atomic_queue2.rs.
use mathlib.Core.Path.{subst}
use atomic_queue_rs.Base.{
  ℕ, ◌+◌, ◌≤◌, ◌<◌, ◌≡◌, refl, Bool, true, false, length, ◌≤◌, suc, Option, none, some, List, [],
  ◌∷◌, ltb, inl, inr, Bool-cases, arith,
}
use atomic_queue_rs.Program.{Program, ret, stop, atomic, ◌>>=◌, Profile}
use atomic_queue_rs.Program.Threads.{System, Reach, NoJob}
use atomic_queue_rs.Program.Many.{Steady-mono, AllSteady, Reach-AllSteady}
use atomic_queue_rs.Program.Still.{Returns}
use atomic_queue_rs.Common.Traffic.{Action, sends, and_sent, and_received, perform}
use atomic_queue_rs.AtomicQueue2.{ops}
use atomic_queue_rs.AtomicQueue2.Slots.{Shared}
use atomic_queue_rs.AtomicQueue2.Types.{Queue2, fresh}
use atomic_queue_rs.AtomicQueue2.Conserved.{Part, part, Inv, At, Steadily}
use atomic_queue_rs.AtomicQueue2.Conserved.Weights.{count_full, count_full-none, total, total_zero}
use atomic_queue_rs.AtomicQueue2.Conserved.Loops.{Keeps, returns, chains}
use atomic_queue_rs.AtomicQueue2.Conserved.Methods.{
  MaySend, MayReceive, push-Keeps, try_push-Keeps, pop-Keeps, try_pop-Keeps,
}

module _ {A : Type 0} (count : ℕ) (offered : ℕ → ℕ) (p : Profile) (self : Queue2)
    (mpmc : self.spsc ≡ false) (fuel : ℕ) where
  module _ (i : ℕ) where
    -- What the calls of a thread add to what it had sent and received.
    abbrev Done : ℕ → ℕ → List A × List A → Part → Type 0
    Done a b r g = At (a + length r.0) (b + length r.1) 0 g

    abbrev calls : List (Action A) → Program (Shared A) (List A × List A)
    calls cs = perform (ops p self fuel) cs

    Performs : List (Action A) → Type 0
    Performs cs =
        (a b : ℕ) (g : Part)
        → At a b (length (sends cs)) g
        → Keeps {A = A} count offered i (calls cs) (Done a b) g

    after_push :
        (x : A) (cs : List (Action A)) (a b : ℕ) (sent : Bool) (g : Part)
        → Performs cs
        → MaySend a b (length (sends cs)) sent g
        → Keeps {A = A} count offered i (calls cs >>= λ r. ret (and_sent sent x r)) (Done a b) g
    unfolding Performs
    after_push x cs a b true g rest at =
        chains count offered i (λ r. ret (and_sent true x r)) (Done (a + 1) b) (rest (a + 1) b g at)
          (λ r h e. returns count offered i (
            subst (λ l. At l (b + length r.1) 0 h)
              (let d : a + 1 + length r.0 ≡ a + suc (length r.0) = omega arith in d) e))
    after_push x cs a b false g rest at =
        chains count offered i (λ r. ret (and_sent false x r)) (Done a b) (rest a b g at)
          (λ r h e. returns count offered i e)

    after_pop :
        (cs : List (Action A)) (a b : ℕ) (received : Option A) (g : Part)
        → Performs cs
        → MayReceive a b (length (sends cs)) received g
        → Keeps {A = A} count offered i
            (calls cs >>= λ r. ret (and_received received r))
            (Done a b)
            g
    unfolding Performs
    after_pop cs a b (some y) g rest at =
        chains count offered i (λ r. ret (and_received (some y) r)) (Done a (b + 1))
          (rest a (b + 1) g at)
          (λ r h e. returns count offered i (
            subst (λ l. At (a + length r.0) l 0 h)
              (let d : b + 1 + length r.1 ≡ b + suc (length r.1) = omega arith in d) e))
    after_pop cs a b none g rest at =
        chains count offered i (λ r. ret (and_received none r)) (Done a b) (rest a b g at)
          (λ r h e. returns count offered i e)

    perform-Keeps : i < count → (cs : List (Action A)) → Performs cs
    unfolding Performs perform ops
    perform-Keeps below [] a b g at = returns count offered i (
        subst (λ l. At l (b + 0) 0 g) (let d : a ≡ a + 0 = omega arith in d)
          (subst (λ l. At a l 0 g) (let d : b ≡ b + 0 = omega arith in d) at))
    perform-Keeps below (Action.push x ∷ cs) a b g (c, e, covers) = rw e (
        chains count offered i _ (λ _ h. At (a + 1) b (length (sends cs)) h)
          (push-Keeps count offered i p self mpmc fuel below a b (length (sends cs)) c x covers)
          (λ _ h at. after_push x cs a b true h (perform-Keeps below cs) at))
    perform-Keeps below (Action.try_push x ∷ cs) a b g (c, e, covers) = rw e (
        chains count offered i _ (MaySend a b (length (sends cs)))
          (try_push-Keeps count offered i p self mpmc fuel below a b (length (sends cs)) c x covers)
          (λ sent h at. after_push x cs a b sent h (perform-Keeps below cs) at))
    perform-Keeps below (Action.pop ∷ cs) a b g (c, e, covers) = rw e (
        chains count offered i _ (λ y h. At a (b + 1) (length (sends cs)) h)
          (pop-Keeps count offered i p self mpmc fuel below a b (length (sends cs)) c covers)
          (λ y h at. after_pop cs a b (some y) h (perform-Keeps below cs) at))
    perform-Keeps below (Action.try_pop ∷ cs) a b g (c, e, covers) = rw e (
        chains count offered i _ (MayReceive a b (length (sends cs)))
          (try_pop-Keeps count offered i p self mpmc fuel below a b (length (sends cs)) c covers)
          (λ o h at. after_pop cs a b o h (perform-Keeps below cs) at))

-- Thread `i` makes the calls `cs i` of a new queue.
abbrev pub crew :
    {A : Type 0}
    → Profile
    → Queue2
    → ℕ
    → (ℕ → List (Action A))
    → System (Shared A) (List A × List A)
crew p self fuel cs = record {
  memory = fresh self.capacity;
  thread = λ i. perform (ops p self fuel) (cs i);
}

module _ {A : Type 0} (p : Profile) (self : Queue2) (mpmc : self.spsc ≡ false) (fuel count : ℕ)
    (cs : ℕ → List (Action A)) where
  offers : ℕ → ℕ
  offers i = length (sends (cs i))

  untouched : ℕ → Part
  untouched i = part 0 0 (length (sends (cs i)))

  start-Inv : Inv count offers 0 untouched tt (fresh {A = A} self.capacity)
  unfolding offers untouched
  start-Inv = record {
    conserved = omega (arith, count_full-none self.capacity, total_zero count);
    within = λ i. omega arith;
  }

  abbrev Finished : ℕ → List A × List A → Part → Type 0
  Finished i r g = (length r.0 ≡ g.sent) × (length r.1 ≡ g.received)

  finished :
      (i : ℕ) (r : List A × List A) (g : Part)
      → Done count offers p self mpmc fuel i 0 0 r g
      → Finished i r g
  finished i r g (c, e, covers) = rw e (omega arith, omega arith)

  thread-Steady :
      (i : ℕ)
      → (count ≤ i → cs i ≡ [])
      → Steadily count offers i
          (perform (ops p self fuel) (cs i))
          (λ r g. Finished i r g)
          (untouched i)
  unfolding perform offers untouched Performs
  thread-Steady i idle = elim (Bool-cases (ltb i count)) [
    | inl below ↦
        Steady-mono (Inv count offers) (λ _. Unit {0}) i (perform (ops p self fuel) (cs i))
          (Done count offers p self mpmc fuel i 0 0) (Finished i) (untouched i)
          (perform-Keeps count offers p self mpmc fuel i (ground (arith, below)) (cs i) 0 0
            (untouched i) (length (sends (cs i)), refl, omega arith)).steady
          (finished i)
    | inr beyond ↦ rw (idle (ground (arith, beyond))) (refl, refl)
  ]

  account :
      (i : ℕ) (c : Program (Shared A) (List A × List A)) (g : Part)
      → Steadily count offers i c (Finished i) g
      → Returns (λ r. (length r.0 ≡ g.sent) × (length r.1 ≡ g.received)) c
  account i (ret r) g h = h
  account i (stop e) g h = tt
  account i (atomic update next) g h = tt

  -- Threads, as many as count says, make any push, try_push, pop and try_pop calls on one new
  -- AtomicQueue2 or AtomicQueueB2 without SPSC, with any other fields, whatever races there are.
  -- After every run, under both profiles and with every fuel, there are numbers of elements that
  -- each thread has sent and received: all threads have received together, the FULL slots counted
  -- in, no more than all have sent; none has sent more than its calls offer; and a thread that has
  -- returned has returned as many sent and received elements as its numbers say.
  pub all_conserved :
      {n : ℕ} {t : System (Shared A) (List A × List A)}
      → ((i : ℕ) → count ≤ i → cs i ≡ [])
      → Reach NoJob (crew p self fuel cs) n t
      → (sents : ℕ → ℕ) × (receiveds : ℕ → ℕ) × (total receiveds count
            + count_full t.memory.storage.states
          ≤ total sents count)
        × ((i : ℕ) → sents i ≤ length (sends (cs i)))
        × ((i : ℕ)
            → Returns (λ r. (length r.0 ≡ sents i) × (length r.1 ≡ receiveds i)) (t.thread i))
  unfolding offers untouched
  all_conserved {n} {t} idle run =
      let all : AllSteady (Inv count offers) (λ _. Unit {0}) Finished n t =
        Reach-AllSteady (Inv count offers) (λ _. Unit {0}) Finished
          (record {
            parts = untouched;
            shared = tt;
            inv = start-Inv;
            steady = λ i. thread-Steady i (idle i);
          })
          run in
      (
        λ i. (all.parts i).sent,
        λ i. (all.parts i).received,
        all.inv.conserved,
        λ i. omega (arith, all.inv.within i),
        λ i. account i (t.thread i) (all.parts i) (all.steady i),
      )
