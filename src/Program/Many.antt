-- ===== src/Program/Many.antt =====
-- Any number of threads, each with a part of a ghost state that only it changes, and a ghost state that
-- all share. A program is steady if each of its accesses keeps the invariant, whatever the other threads
-- have done by then.
use native.Mathlib.Decide.{ℕ_discrete}
use mathlib.Core.Path.{subst}
use atomic_queue_rs.Base.{ℕ, suc, ◌≡◌, refl, sym, Bool, true, false, if◌then◌else◌}
use atomic_queue_rs.Program.{Program, ret, stop, atomic, ◌>>=◌, lift, Result, ok, fault, Fault}
use atomic_queue_rs.Program.Threads.{
  assign, assign_self, assign_ne, System, Step, access, start, Reach, here, step, NoJob,
}

-- `Inv n parts s m` holds after `n` steps; `Allowed` are the faults that may occur.
module _ {M S G : Type 0} (Inv : ℕ → (ℕ → G) → S → M → Type 0) (Allowed : Fault → Type 0) where
  -- `Ends a g` is what holds of the result and of the thread's part when the program returns.
  abbrev pub Steady : ℕ → {A : Type 0} → Program M A → (A → G → Type 0) → G → Type 0
  Steady i (ret a) Ends g = Ends a g
  Steady i (stop e) Ends g = Allowed e
  Steady i (atomic update next) Ends g =
      (n : ℕ) (parts : ℕ → G) (s : S) (m : M)
      → Inv n parts s m
      → parts i ≡ g
      → (g' : G) × (s' : S) × Inv (suc n) (assign parts i g') s' (update m)
        × Steady i (next m) Ends g'

  module _ (i : ℕ) where
    pub Steady->>= :
        {A B : Type 0} (p : Program M A) (f : A → Program M B) (Mid : A → G → Type 0)
        (Ends : B → G → Type 0) (g : G)
        → Steady i p Mid g
        → ((a : A) (g' : G) → Mid a g' → Steady i (f a) Ends g')
        → Steady i (p >>= f) Ends g
    Steady->>= (ret a) f Mid Ends g h k = k a g h
    Steady->>= (stop e) f Mid Ends g h k = h
    Steady->>= (atomic update next) f Mid Ends g h k = λ n parts s m inv e.
        let (g', s', inv', rest) = h n parts s m inv e in
        (g', s', inv', Steady->>= (next m) f Mid Ends g' rest k)

    pub Steady-mono :
        {A : Type 0} (p : Program M A) (Mid Ends : A → G → Type 0) (g : G)
        → Steady i p Mid g
        → ((a : A) (g' : G) → Mid a g' → Ends a g')
        → Steady i p Ends g
    Steady-mono (ret a) Mid Ends g h k = k a g h
    Steady-mono (stop e) Mid Ends g h k = h
    Steady-mono (atomic update next) Mid Ends g h k = λ n parts s m inv e.
        let (g', s', inv', rest) = h n parts s m inv e in
        (g', s', inv', Steady-mono (next m) Mid Ends g' rest k)

    pub Steady-if :
        {A : Type 0} (b : Bool) (p q : Program M A) (Ends : A → G → Type 0) (g : G)
        → (b ≡ true → Steady i p Ends g)
        → (b ≡ false → Steady i q Ends g)
        → Steady i (if b then p else q) Ends g
    Steady-if true p q Ends g hp hq = hp refl
    Steady-if false p q Ends g hp hq = hq refl

    pub Steady-lift :
        {A B : Type 0} (x : Result A) (f : A → Program M B) (Ends : B → G → Type 0) (g : G)
        → ((a : A) → x ≡ ok a → Steady i (f a) Ends g)
        → ((e : Fault) → x ≡ fault e → Allowed e)
        → Steady i (lift x >>= f) Ends g
    Steady-lift (ok a) f Ends g h k = h a refl
    Steady-lift (fault e) f Ends g h k = k e refl

  module _ {A : Type 0} (Ends : ℕ → A → G → Type 0) where
    pub record AllSteady (n : ℕ) (t : System M A) : Type 0 where
      pub parts : ℕ → G
      pub shared : S
      pub inv : Inv n parts shared t.memory
      pub steady : (i : ℕ) → Steady i (t.thread i) (Ends i) (parts i)

    Step-AllSteady :
        {n : ℕ} {t u : System M A} → Step NoJob t u → AllSteady n t → AllSteady (suc n) u
    Step-AllSteady (start i e job) a = absurd job
    Step-AllSteady {n} {t} (access i {update} {next} e) a =
        let this : Steady i (atomic update next) (Ends i) (a.parts i) =
          subst (λ p. Steady i p (Ends i) (a.parts i)) e (a.steady i) in
        let (g, s, inv, rest) = this n a.parts a.shared t.memory a.inv refl in
        record {
          parts = assign a.parts i g;
          shared = s;
          inv = inv;
          steady = λ j. elim (ℕ_discrete i j) [
            | yes same ↦
                subst
                  (λ k.
                    Steady k (assign t.thread i (next t.memory) k) (Ends k) (assign a.parts i g k))
                  same
                  (subst (λ p. Steady i p (Ends i) (assign a.parts i g i))
                    (sym (assign_self t.thread i (next t.memory)))
                    (subst (Steady i (next t.memory) (Ends i)) (sym (assign_self a.parts i g))
                      rest))
            | no other ↦
                subst (λ p. Steady j p (Ends j) (assign a.parts i g j))
                  (sym (assign_ne t.thread i j (next t.memory) other))
                  (subst (Steady j (t.thread j) (Ends j)) (sym (assign_ne a.parts i j g other))
                    (a.steady j))
          ];
        }

    -- Steady threads stay steady, and the invariant holds, in every run of all.
    pub Reach-AllSteady :
        {t : System M A} {n : ℕ} {u : System M A}
        → AllSteady 0 t
        → Reach NoJob t n u
        → AllSteady n u
    Reach-AllSteady a here = a
    Reach-AllSteady a (step r st) = Step-AllSteady st (Reach-AllSteady a r)
