-- ===== src/AtomicQueue2/Spsc/Turns.antt =====
-- A producer and a consumer that take turns get all through, in every mode of the queue.
use mathlib.Core.Path.{subst, fun_ext}
use atomic_queue_rs.Base.{
  ℕ, zero, suc, ◌+◌, ◌^◌, ◌≤◌, ◌<◌, ◌≡◌, refl, sym, ap, ◌∙◌, Bool, List, [], ◌∷◌, length, take,
  arith,
}
use atomic_queue_rs.Program.{Program, ret, ◌>>=◌, Profile}
use atomic_queue_rs.Program.Laws.{>>=-assoc, >>=-ret}
use atomic_queue_rs.Program.Threads.{NoJob, System, Reach, here}
use atomic_queue_rs.Program.Duo.{pair}
use atomic_queue_rs.Program.Turns.{thread_one, run-left, run-right}
use atomic_queue_rs.AtomicQueue2.{push, pop}
use atomic_queue_rs.AtomicQueue2.Slots.{Shared}
use atomic_queue_rs.AtomicQueue2.Types.{Queue2, fresh}
use atomic_queue_rs.AtomicQueue2.Valid.{IsQueue}
use atomic_queue_rs.AtomicQueue2.Holds.{Holds}
use atomic_queue_rs.AtomicQueue2.New.{fresh-Holds}
use atomic_queue_rs.AtomicQueue2.Run.{push_enqueues, pop_dequeues}
use atomic_queue_rs.Program.Streams.{produce, consume}

module _ {A : Type 0} (p : Profile) {periodic : Bool} {self : Queue2} (q : IsQueue periodic self)
    (fuel : ℕ) where
  consume-zero :
      (g : List A → Program (Shared A) (List A)) → (consume (pop p self (suc fuel)) 0 >>= g) ≡ g []
  unfolding consume
  consume-zero g = refl

  consume-suc :
      (k : ℕ) (g : List A → Program (Shared A) (List A))
      → (consume (pop p self (suc fuel)) (suc k) >>= g) ≡ (
          pop p self (suc fuel) >>= λ y. consume (pop p self (suc fuel)) k >>= λ rest. g (y ∷ rest))
  unfolding consume
  consume-suc k g =
      >>=-assoc (pop p self (suc fuel))
        (λ y. consume (pop p self (suc fuel)) k >>= λ rest. ret (y ∷ rest)) g
      ∙ ap (λ (h : A → Program (Shared A) (List A)). pop p self (suc fuel) >>= h)
          (fun_ext (λ y. >>=-assoc (consume (pop p self (suc fuel)) k) (λ rest. ret (y ∷ rest)) g))

  -- The consumer goes on with `g` when it has its elements.
  turns :
      {s : System (Shared A) (List A)} (k : ℕ) (xs : List A) (m : Shared A)
      (g : List A → Program (Shared A) (List A)) (n : ℕ)
      → k ≤ length xs
      → Holds p periodic self (k + k) m []
      → Reach NoJob s n (
          pair m (produce (push p self (suc fuel)) xs) (consume (pop p self (suc fuel)) k >>= g) [])
      → (n' : ℕ) × (m' : Shared A) × (rest : List A) × Reach NoJob s n'
          (pair m' (produce (push p self (suc fuel)) rest) (g (take k xs)) [])
  unfolding produce
  turns {s} zero xs m g n short h r = (
    n,
    m,
    xs,
    subst (λ c. Reach NoJob s n (pair m (produce (push p self (suc fuel)) xs) c []))
        (consume-zero g) r,
  )
  turns {s} (suc k) [] m g n short h r = absurd (omega arith)
  turns {s} (suc k) (x ∷ xs) m g n short h r =
      let (m1, pushes, h1) =
        push_enqueues p q fuel (k + suc k) m [] x
          (subst (λ b. Holds p periodic self b m [])
            (let e : suc k + suc k ≡ suc (k + suc k) = omega arith in e) h)
          (omega (arith, q.pos)) in
      let (m2, pops, h2) = pop_dequeues p q fuel (k + k) m1 x [] (
        subst (λ b. Holds p periodic self b m1 (x ∷ []))
          (let e : k + suc k ≡ suc (k + k) = omega arith in e) h1) in
      let (n1, r1) =
        run-left [] (push p self (suc fuel) x) (λ _. produce (push p self (suc fuel)) xs) _ m m1 tt
          n pushes r in
      let (n2, r2) =
        run-right [] (pop p self (suc fuel))
          (λ y. consume (pop p self (suc fuel)) k >>= λ rest. g (y ∷ rest)) _ m1 m2 x n1 pops
          (subst (λ c. Reach NoJob s n1 (pair m1 (produce (push p self (suc fuel)) xs) c []))
            (consume-suc k g) r1) in
      turns k xs m2 (λ rest. g (x ∷ rest)) n2 (omega arith) h2 r2

  -- For every k and every list xs of at least k elements, with k + k below 2^64, a thread that
  -- pushes xs to a new AtomicQueue2 or AtomicQueueB2, in any mode, and one that pops k elements
  -- have a schedule in which the consumer returns the first k of xs, with one round of each wait
  -- loop.
  pub spsc_completes :
      (k : ℕ) (xs : List A)
      → k ≤ length xs
      → k + k < 2 ^ 64
      → (n : ℕ) × (t : System (Shared A) (List A)) × Reach NoJob
          (pair
            (fresh self.capacity)
            (produce (push p self (suc fuel)) xs)
            (consume (pop p self (suc fuel)) k)
            [])
          n
          t
        × (t.thread 1 ≡ ret (take k xs))
  spsc_completes k xs short small =
      let start =
        pair (fresh self.capacity) (produce (push p self (suc fuel)) xs)
          (consume (pop p self (suc fuel)) k) [] in
      let (n, m, rest, r) =
        turns {s = start} k xs (fresh self.capacity) (λ ys. ret ys) 0 short
          (fresh-Holds p periodic self (k + k) small)
          (subst
            (λ c.
              Reach NoJob start 0
                (pair (fresh self.capacity) (produce (push p self (suc fuel)) xs) c []))
            (sym (>>=-ret (consume (pop p self (suc fuel)) k))) here) in
      (
        n,
        pair m (produce (push p self (suc fuel)) rest) (ret (take k xs)) [],
        r,
        thread_one [] m (produce (push p self (suc fuel)) rest) (ret (take k xs)),
      )
