-- ===== src/Program/Still.antt =====
-- Programs whose accesses all keep one property of the memory, and threads that run such programs.
use mathlib.Core.Path.{subst}
use atomic_queue_rs.Base.{
  ℕ, zero, suc, ◌≤◌, ◌<◌, ◌≡◌, inl, inr, refl, sym, Bool-cases, ltb, arith, Bool, true, false,
  if◌then◌else◌,
}
use atomic_queue_rs.Program.{Program, ret, stop, atomic, ◌>>=◌, lift, Result, ok, fault}
use atomic_queue_rs.Program.Threads.{System, Reach, NoJob}
use atomic_queue_rs.Program.Duo.{pair}
use atomic_queue_rs.Program.Turns.{thread_zero, thread_one, thread_other}
use atomic_queue_rs.Program.Many.{Steady, Reach-AllSteady}

-- If the program has returned, its result is as `P` says.
abbrev pub Returns : {M A : Type 0} → (A → Type 0) → Program M A → Type 0
Returns P (ret a) = P a
Returns P (stop e) = Unit
Returns P (atomic update next) = Unit

Returns-mono :
    {M A : Type 0} (P R : A → Type 0) (c : Program M A)
    → ((a : A) → P a → R a)
    → Returns P c
    → Returns R c
Returns-mono P R (ret a) h r = h a r
Returns-mono P R (stop e) h r = tt
Returns-mono P R (atomic update next) h r = tt

module _ {M : Type 0} (K : M → Type 0) where
  -- The program keeps `K`, and returns only what `P` allows.
  abbrev pub Still : {A : Type 0} → (A → Type 0) → Program M A → Type 0
  Still P (ret a) = P a
  Still P (stop e) = Unit
  Still P (atomic update next) = (m : M) → K m → K (update m) × Still P (next m)

  pub Still->>= :
      {A B : Type 0} (P : A → Type 0) (R : B → Type 0) (c : Program M A) (f : A → Program M B)
      → Still P c
      → ((a : A) → P a → Still R (f a))
      → Still R (c >>= f)
  Still->>= P R (ret a) f s h = h a s
  Still->>= P R (stop e) f s h = tt
  Still->>= P R (atomic update next) f s h =
      λ m k. ((s m k).0, Still->>= P R (next m) f (s m k).1 h)

  pub Still-if :
      {A : Type 0} (P : A → Type 0) (b : Bool) (c d : Program M A)
      → (b ≡ true → Still P c)
      → (b ≡ false → Still P d)
      → Still P (if b then c else d)
  Still-if P true c d hc hd = hc refl
  Still-if P false c d hc hd = hd refl

  pub Still-lift :
      {A B : Type 0} (P : B → Type 0) (x : Result A) (f : A → Program M B)
      → ((a : A) → x ≡ ok a → Still P (f a))
      → Still P (lift x >>= f)
  Still-lift P (ok a) f h = h a refl
  Still-lift P (fault e) f h = tt

  module _ {A : Type 0} (P : ℕ → A → Type 0) where
    Unchanging : ℕ → (ℕ → Unit {0}) → Unit {0} → M → Type 0
    Unchanging n parts s m = K m

    Still-Steady :
        (i : ℕ) (c : Program M A)
        → Still (P i) c
        → Steady Unchanging (λ _. Unit {0}) i c (λ a _. P i a) tt
    unfolding Unchanging
    Still-Steady i (ret a) s = s
    Still-Steady i (stop e) s = tt
    Still-Steady i (atomic update next) s =
        λ n parts shared m inv e. (tt, tt, (s m inv).0, Still-Steady i (next m) (s m inv).1)

    Steady-Returns :
        (i : ℕ) (c : Program M A)
        → Steady Unchanging (λ _. Unit {0}) i c (λ a _. P i a) tt
        → Returns (P i) c
    Steady-Returns i (ret a) s = s
    Steady-Returns i (stop e) s = tt
    Steady-Returns i (atomic update next) s = tt

    Still-system :
        {s t : System M A} {n : ℕ}
        → K s.memory
        → ((i : ℕ) → Still (P i) (s.thread i))
        → Reach NoJob s n t
        → (i : ℕ) → Returns (P i) (t.thread i)
    unfolding Unchanging
    Still-system {s} {t} k stills run i = Steady-Returns i (t.thread i) (
        (Reach-AllSteady Unchanging (λ _. Unit {0}) (λ j a _. P j a)
            (record {
              parts = λ _. tt;
              shared = tt;
              inv = k;
              steady = λ j. Still-Steady j (s.thread j) (stills j);
            })
            run).steady
          i)

  Still-guarded :
      {A : Type 0} (G : Type 0) (P : A → Type 0) (c : Program M A)
      → Still P c
      → Still (λ a. G → P a) c
  Still-guarded G P (ret a) s = λ _. s
  Still-guarded G P (stop e) s = tt
  Still-guarded G P (atomic update next) s =
      λ m k. ((s m k).0, Still-guarded G P (next m) (s m k).1)

  module _ {A : Type 0} (P : ℕ → A → Type 0) (count : ℕ) where
    Guarded : ℕ → A → Type 0
    Guarded i a = i < count → P i a

    Guarded-thread :
        (i : ℕ) (c : Program M A)
        → (i < count → Still (P i) c)
        → (count ≤ i → (a : A) × (c ≡ ret a))
        → Still (Guarded i) c
    unfolding Guarded
    Guarded-thread i c busy idle = elim (Bool-cases (ltb i count)) [
      | inl below ↦ Still-guarded (i < count) (P i) c (busy (ground (arith, below)))
      | inr beyond ↦
          let (a, e) = idle (ground (arith, beyond)) in
          subst (Still (λ b. i < count → P i b)) (sym e) (λ below. absurd (ground (arith, beyond)))
    ]

    -- In every run of `count` such threads a result is as its thread's program allows.
    pub Reach-Returns :
        {s t : System M A} {n : ℕ}
        → K s.memory
        → ((i : ℕ) → i < count → Still (P i) (s.thread i))
        → ((i : ℕ) → count ≤ i → (a : A) × (s.thread i ≡ ret a))
        → Reach NoJob s n t
        → (i : ℕ) → i < count
        → Returns (P i) (t.thread i)
    unfolding Guarded
    Reach-Returns {s} {t} k busy idle run i below =
        Returns-mono (Guarded i) (P i) (t.thread i) (λ a h. h below)
          (Still-system Guarded k (λ j. Guarded-thread j (s.thread j) (busy j) (idle j)) run i)

  module _ {A : Type 0} (P : A → Type 0) (m : M) (c d : Program M A) (a : A) where
    pair_busy : (i : ℕ) → Still P c → Still P d → i < 2 → Still P ((pair m c d a).thread i)
    pair_busy zero hc hd below = subst (Still P) (sym (thread_zero a m c d)) hc
    pair_busy (suc zero) hc hd below = subst (Still P) (sym (thread_one a m c d)) hd
    pair_busy (suc (suc i)) hc hd below = absurd (omega (arith, below))

    pair_idle : (i : ℕ) → 2 ≤ i → (b : A) × ((pair m c d a).thread i ≡ ret b)
    pair_idle zero beyond = absurd (omega (arith, beyond))
    pair_idle (suc zero) beyond = absurd (omega (arith, beyond))
    pair_idle (suc (suc i)) beyond = (a, thread_other a i m c d)

    -- In every run of two threads.
    pub pair-Returns :
        {t : System M A} {n : ℕ}
        → K m
        → Still P c
        → Still P d
        → Reach NoJob (pair m c d a) n t
        → Returns P (t.thread 0) × Returns P (t.thread 1)
    pair-Returns k hc hd run =
        let both = Reach-Returns (λ _. P) 2 k (λ i. pair_busy i hc hd) pair_idle run in
        (both 0 (omega arith), both 1 (omega arith))
