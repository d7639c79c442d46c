-- ===== src/Common/Sequential.antt =====
-- The contract of a queue towards a client that no other thread disturbs. `Implements` is what each
-- queue proves of its methods; what follows from it is proved here, once for all queues.
use atomic_queue_rs.Base.{ℕ, suc, ◌≡◌, refl, List, [], ◌∷◌, length, arith, ◌==◌}
use atomic_queue_rs.Program.{Program, ret, Outcome, done, run, ◌>>=◌}
use atomic_queue_rs.Program.Laws.{run-done}
use atomic_queue_rs.Fifo.{
  Call, Reply, accepted, popped, size, answer, enqueue, dequeue, reply, replies,
}
use atomic_queue_rs.Common.{AtomicQueueOps}
use atomic_queue_rs.Common.Client.{call, run_calls}

module _ {A : Type 0} where
  abbrev pub TakesCall : (A → Type 0) → Call A → Type 0
  TakesCall Takes (Call.try_push x) = Takes x
  TakesCall Takes Call.try_pop = Unit
  TakesCall Takes Call.was_size = Unit
  TakesCall Takes Call.was_empty = Unit
  TakesCall Takes Call.was_full = Unit

  abbrev pub AllTakes : (A → Type 0) → List (Call A) → Type 0
  AllTakes Takes [] = Unit
  AllTakes Takes (c ∷ cs) = TakesCall Takes c × AllTakes Takes cs

module _ {M A : Type 0} where
  -- A run has returned `r`, and has left a memory that stands for the elements `l` and has room for
  -- `n` more calls.
  pub record Answered (Valid : ℕ → M → List A → Type 0) (n : ℕ) {R : Type 0} (o : Outcome M R)
      (r : R) (l : List A) : Type 0 where
    pub memory : M
    pub ran : o ≡ done memory r
    pub valid : Valid n memory l

  pub record Implements (ops : AtomicQueueOps M A) (Takes : A → Type 0)
      (Valid : ℕ → M → List A → Type 0) : Type 0 where
    pub pushing :
        (n : ℕ) (m : M) (l : List A) (x : A)
        → Valid (suc n) m l
        → Takes x
        → Answered Valid n
            (run (ops.try_push x) m)
            (enqueue ops.capacity l x).0
            (enqueue ops.capacity l x).1
    pub popping :
        (n : ℕ) (m : M) (l : List A)
        → Valid (suc n) m l
        → Answered Valid n (run ops.try_pop m) (dequeue l).0 (dequeue l).1
    pub sizing :
        (n : ℕ) (m : M) (l : List A)
        → Valid (suc n) m l
        → Answered Valid n (run ops.was_size m) (length l) l
    pub emptying :
        (n : ℕ) (m : M) (l : List A)
        → Valid (suc n) m l
        → Answered Valid n (run ops.was_empty m) (length l == 0) l
    pub filling :
        (n : ℕ) (m : M) (l : List A)
        → Valid (suc n) m l
        → Answered Valid n (run ops.was_full m) (length l == ops.capacity) l

module _ {M A : Type 0} {ops : AtomicQueueOps M A} {Takes : A → Type 0}
    {Valid : ℕ → M → List A → Type 0} (i : Implements ops Takes Valid) where
  wrap :
      {R : Type 0} {n : ℕ} (p : Program M R) (m : M) {r : R} {l : List A} (f : R → Reply A)
      → Answered Valid n (run p m) r l
      → Answered Valid n (run (p >>= λ x. ret (f x)) m) (f r) l
  wrap p m f a = record {
    memory = a.memory;
    ran = run-done p (λ x. ret (f x)) m a.ran;
    valid = a.valid;
  }

  answer_call :
      (n : ℕ) (m : M) (l : List A) (c : Call A)
      → Valid (suc n) m l
      → TakesCall Takes c
      → Answered Valid n (run (call ops c) m) (reply ops.capacity c l).0 (reply ops.capacity c l).1
  answer_call n m l (Call.try_push x) v t = wrap (ops.try_push x) m accepted (i.pushing n m l x v t)
  answer_call n m l Call.try_pop v t = wrap ops.try_pop m popped (i.popping n m l v)
  answer_call n m l Call.was_size v t = wrap ops.was_size m size (i.sizing n m l v)
  answer_call n m l Call.was_empty v t = wrap ops.was_empty m answer (i.emptying n m l v)
  answer_call n m l Call.was_full v t = wrap ops.was_full m answer (i.filling n m l v)

  -- Any sequence of calls is answered as the abstract queue answers it.
  pub run_calls-eq-replies :
      (cs : List (Call A)) (m : M) (l : List A)
      → Valid (length cs) m l
      → AllTakes Takes cs
      → run_calls ops cs m ≡ replies ops.capacity cs l
  unfolding run_calls replies
  run_calls-eq-replies [] m l v t = refl
  run_calls-eq-replies (c ∷ cs) m l v t =
      let a = answer_call (length cs) m l c v t.0 in
      ground (arith, a.ran, run_calls-eq-replies cs a.memory (reply ops.capacity c l).1 a.valid t.1)
