-- ===== src/Program/Turns.antt =====
-- Two threads that take turns: a part of a program that runs to its end is a part of a schedule.
use native.Mathlib.Decide.{ℕ_discrete}
use mathlib.Core.Logic.{ite, if_pos, if_neg}
use mathlib.Core.Path.{subst, fun_ext}
use atomic_queue_rs.Base.{ℕ, zero, suc, ◌≡◌, refl, sym, ap, ◌∙◌, arith}
use atomic_queue_rs.Program.{Program, ret, stop, atomic, ◌>>=◌, run, done}
use atomic_queue_rs.Program.Threads.{
  NoJob, assign, assign_self, assign_ne, System, access, Reach, step,
}
use atomic_queue_rs.Program.Duo.{pair}

module _ {M A : Type 0} (a : A) where
  pub thread_zero : (m : M) (p q : Program M A) → (pair m p q a).thread 0 ≡ p
  thread_zero m p q = if_pos (ℕ_discrete 0 0) refl p (ite (ℕ_discrete 0 1) q (ret a))

  pub thread_one : (m : M) (p q : Program M A) → (pair m p q a).thread 1 ≡ q
  thread_one m p q =
      if_neg (ℕ_discrete 1 0) (omega arith) p (ite (ℕ_discrete 1 1) q (ret a))
      ∙ if_pos (ℕ_discrete 1 1) refl q (ret a)

  pub thread_other :
      (i : ℕ) (m : M) (p q : Program M A) → (pair m p q a).thread (suc (suc i)) ≡ ret a
  thread_other i m p q =
      if_neg (ℕ_discrete (suc (suc i)) 0) (omega arith) p
        (ite (ℕ_discrete (suc (suc i)) 1) q (ret a))
      ∙ if_neg (ℕ_discrete (suc (suc i)) 1) (omega arith) q (ret a)

  left_thread :
      (m m' : M) (p p' q : Program M A) (i : ℕ)
      → assign (pair m p q a).thread 0 p' i ≡ (pair m' p' q a).thread i
  left_thread m m' p p' q zero = assign_self (pair m p q a).thread 0 p' ∙ sym (thread_zero m' p' q)
  left_thread m m' p p' q (suc zero) =
      assign_ne (pair m p q a).thread 0 1 p' (omega arith)
      ∙ thread_one m p q
      ∙ sym (thread_one m' p' q)
  left_thread m m' p p' q (suc (suc i)) =
      assign_ne (pair m p q a).thread 0 (suc (suc i)) p' (omega arith)
      ∙ thread_other i m p q
      ∙ sym (thread_other i m' p' q)

  right_thread :
      (m m' : M) (p q q' : Program M A) (i : ℕ)
      → assign (pair m p q a).thread 1 q' i ≡ (pair m' p q' a).thread i
  right_thread m m' p q q' zero =
      assign_ne (pair m p q a).thread 1 0 q' (omega arith)
      ∙ thread_zero m p q
      ∙ sym (thread_zero m' p q')
  right_thread m m' p q q' (suc zero) =
      assign_self (pair m p q a).thread 1 q' ∙ sym (thread_one m' p q')
  right_thread m m' p q q' (suc (suc i)) =
      assign_ne (pair m p q a).thread 1 (suc (suc i)) q' (omega arith)
      ∙ thread_other i m p q
      ∙ sym (thread_other i m' p q')

  pair-eq :
      (m : M) (f : ℕ → Program M A) (p q : Program M A)
      → ((i : ℕ) → f i ≡ (pair m p q a).thread i)
      → ◌≡◌ {A = System M A} (record { memory = m; thread = f }) (pair m p q a)
  pair-eq m f p q e =
      ap (λ (t : ℕ → Program M A). let s : System M A = record { memory = m; thread = t } in s)
        (fun_ext e)

done-eq : {M B : Type 0} {m m' : M} {x b : B} → done m x ≡ done m' b → (m ≡ m') × (x ≡ b)
done-eq e = (cc, cc)

module _ {M A B : Type 0} (a : A) {s : System M A} where
  -- The program of thread 0, or of thread 1, goes on alone to the end of its first part.
  pub run-left :
      (c : Program M B) (f : B → Program M A) (q : Program M A) (m m' : M) (b : B) (n : ℕ)
      → run c m ≡ done m' b
      → Reach NoJob s n (pair m (c >>= f) q a)
      → (n' : ℕ) × Reach NoJob s n' (pair m' (f b) q a)
  run-left (ret x) f q m m' b n e r =
      let (em, ex) = done-eq e in
      (
        n,
        subst (λ k. Reach NoJob s n (pair k (f b) q a)) em
            (subst (λ y. Reach NoJob s n (pair m (f y) q a)) ex r),
      )
  run-left (stop x) f q m m' b n e r = absurd cc
  run-left (atomic update next) f q m m' b n e r = run-left (next m) f q (update m) m' b (suc n) e (
      subst (Reach NoJob s (suc n))
        (pair-eq a (update m) _ (next m >>= f) q
          (left_thread a m (update m) (atomic update (λ k. next k >>= f)) (next m >>= f) q))
        (step r (access 0 (thread_zero a m (atomic update (λ k. next k >>= f)) q))))

  pub run-right :
      (c : Program M B) (f : B → Program M A) (p : Program M A) (m m' : M) (b : B) (n : ℕ)
      → run c m ≡ done m' b
      → Reach NoJob s n (pair m p (c >>= f) a)
      → (n' : ℕ) × Reach NoJob s n' (pair m' p (f b) a)
  run-right (ret x) f p m m' b n e r =
      let (em, ex) = done-eq e in
      (
        n,
        subst (λ k. Reach NoJob s n (pair k p (f b) a)) em
            (subst (λ y. Reach NoJob s n (pair m p (f y) a)) ex r),
      )
  run-right (stop x) f p m m' b n e r = absurd cc
  run-right (atomic update next) f p m m' b n e r =
      run-right (next m) f p (update m) m' b (suc n) e (
        subst (Reach NoJob s (suc n))
          (pair-eq a (update m) _ p (next m >>= f)
            (right_thread a m (update m) p (atomic update (λ k. next k >>= f)) (next m >>= f)))
          (step r (access 1 (thread_one a m p (atomic update (λ k. next k >>= f))))))
