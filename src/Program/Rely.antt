-- ===== src/Program/Rely.antt =====
-- Rely and guarantee: a program is safe if each of its accesses keeps an invariant and changes the
-- memory only as the other threads expect, whatever they have changed since its last access.
use native.Mathlib.Decide.{ℕ_discrete}
use mathlib.Core.Logic.{if_pos, if_neg}
use mathlib.Core.Path.{subst}
use atomic_queue_rs.Base.{
  ℕ, zero, suc, ◌<◌, ◌≤◌, ◌≡◌, refl, sym, Bool, true, false, if◌then◌else◌, arith,
}
use atomic_queue_rs.Program.{Program, ret, stop, atomic, ◌>>=◌, lift, Result, ok, fault}
use atomic_queue_rs.Program.Threads.{assign, System, Step, access, start, Reach, here, step}

-- `Inv n` holds after `n` steps of the system. `Changes` is what threads may do to the memory.
pub record Protocol (M : Type 0) : Type 1 where
  pub Inv : ℕ → M → Type 0
  pub Changes : M → M → Type 0
  pub stays : (m : M) → Changes m m
  pub chain : (a b c : M) → Changes a b → Changes b c → Changes a c
  pub later : (n : ℕ) (m : M) → Inv n m → Inv (suc n) m

module _ {M : Type 0} (r : Protocol M) (limit : ℕ) where
  open r use {Inv, Changes, stays, chain, later}

  -- The rest of a program whose last access has left the memory `m`.
  abbrev pub Safe : {A : Type 0} → Program M A → M → Type 0
  Safe (ret a) m = Unit
  Safe (stop e) m = Unit
  Safe (atomic update next) m =
      (n : ℕ) (m' : M)
      → n < limit
      → Changes m m'
      → Inv n m'
      → Inv (suc n) (update m') × Changes m' (update m') × Safe (next m') (update m')

  Safe-later : {A : Type 0} (p : Program M A) (m m' : M) → Changes m m' → Safe p m → Safe p m'
  Safe-later (ret a) m m' c s = tt
  Safe-later (stop e) m m' c s = tt
  Safe-later (atomic update next) m m' c s =
      λ n m'' small c' inv. s n m'' small (chain m m' m'' c c') inv

  pub Safe-lift :
      {A B : Type 0} (x : Result A) (f : A → Program M B) (m : M)
      → ((a : A) → x ≡ ok a → Safe (f a) m)
      → Safe (lift x >>= f) m
  Safe-lift (ok a) f m h = h a refl
  Safe-lift (fault e) f m h = tt

  pub Safe-if :
      {A : Type 0} (b : Bool) (p q : Program M A) (m : M)
      → (b ≡ true → Safe p m)
      → (b ≡ false → Safe q m)
      → Safe (if b then p else q) m
  Safe-if true p q m hp hq = hp refl
  Safe-if false p q m hp hq = hq refl

  pub Safe->>= :
      {A B : Type 0} (p : Program M A) (f : A → Program M B) (m : M)
      → Safe p m
      → ((a : A) (m' : M) → Changes m m' → Safe (f a) m')
      → Safe (p >>= f) m
  Safe->>= (ret a) f m s h = h a m (stays m)
  Safe->>= (stop e) f m s h = tt
  Safe->>= (atomic update next) f m s h = λ n m' small c inv.
      let (inv', change, rest) = s n m' small c inv in
      (
        inv',
        change,
        Safe->>= (next m') f (update m') rest
            (λ a m'' c'. h a m'' (chain m m' m'' c (chain m' (update m') m'' change c'))),
      )

  module _ {A : Type 0} (Job : ℕ → Program M A → Type 0)
      (jobs : (i : ℕ) (p : Program M A) → Job i p → (m : M) → Safe p m) where
    record AllSafe (n : ℕ) (s : System M A) : Type 0 where
      inv : Inv n s.memory
      safe : (i : ℕ) → Safe (s.thread i) s.memory

    Safe-assign :
        (f : ℕ → Program M A) (i : ℕ) (p : Program M A) (m : M)
        → Safe p m
        → ((j : ℕ) → Safe (f j) m)
        → (j : ℕ) → Safe (assign f i p j) m
    Safe-assign f i p m hp hf j = elim (ℕ_discrete i j) [
      | yes e ↦ rw (if_pos (ℕ_discrete i j) e) hp
      | no ne ↦ rw (if_neg (ℕ_discrete i j) ne) (hf j)
    ]

    Step-AllSafe :
        {n : ℕ} {s t : System M A} → n < limit → Step Job s t → AllSafe n s → AllSafe (suc n) t
    Step-AllSafe {n} {s} small (access i {update} {next} e) a =
        let (inv, change, rest) =
          subst (λ p. Safe p s.memory) e (a.safe i) n s.memory small (stays s.memory) a.inv in
        record {
          inv = inv;
          safe =
              Safe-assign s.thread i (next s.memory) (update s.memory) rest
                (λ j. Safe-later (s.thread j) s.memory (update s.memory) change (a.safe j));
        }
    Step-AllSafe {n} {s} small (start i {p = p} e job) a = record {
      inv = later n s.memory a.inv;
      safe = Safe-assign s.thread i p s.memory (jobs i p job s.memory) a.safe;
    }

    -- If all jobs are safe, the invariant holds throughout every run from idle threads.
    pub Reach-Inv :
        {n : ℕ} (s t : System M A)
        → Inv 0 s.memory
        → ((i : ℕ) → (a : A) × (s.thread i ≡ ret a))
        → Reach Job s n t
        → n ≤ limit
        → Inv n t.memory
    Reach-Inv s t inv idle r small = (reach r small).inv
      where
        begin : AllSafe zero s
        begin = record { inv = inv; safe = λ i. subst (λ p. Safe p s.memory) (sym (idle i).1) tt }

        reach : {n : ℕ} {u : System M A} → Reach Job s n u → n ≤ limit → AllSafe n u
        reach here h = begin
        reach (step q st) h = Step-AllSafe (omega arith) st (reach q (omega arith))
