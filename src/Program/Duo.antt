-- ===== src/Program/Duo.antt =====
-- Two threads, each with a part of a ghost state that only it changes. A program is good for its part
-- if each of its accesses keeps the invariant, whatever part the other thread has reached by then.
use native.Mathlib.Decide.{ℕ_discrete}
use mathlib.Core.Logic.{ite, if_pos, if_neg}
use mathlib.Core.Path.{subst}
use atomic_queue_rs.Base.{
  ℕ, zero, suc, ◌≤◌, ◌≡◌, ◌≢◌, refl, sym, ◌∙◌, Bool, true, false, if◌then◌else◌, arith,
}
use atomic_queue_rs.Program.{Program, ret, stop, atomic, ◌>>=◌, spinning}
use atomic_queue_rs.Program.Threads.{
  NoJob, assign, assign_self, assign_ne, System, Step, access, start, Reach, here, step,
}

module _ {M G H : Type 0} (Inv : G → H → M → Type 0) where
  -- `Ends a g` is what holds of the result and of the thread's part when the program returns. A wait
  -- may run out of fuel, and nothing else may fail.
  abbrev pub Good : {A : Type 0} → Program M A → (A → G → Type 0) → G → Type 0
  Good (ret a) Ends g = Ends a g
  Good (stop e) Ends g = e ≡ spinning
  Good (atomic update next) Ends g =
      (h : H) (m : M) → Inv g h m → (g' : G) × Inv g' h (update m) × Good (next m) Ends g'

  pub Good->>= :
      {A B : Type 0} (p : Program M A) (f : A → Program M B) (Mid : A → G → Type 0)
      (Ends : B → G → Type 0) (g : G)
      → Good p Mid g
      → ((a : A) (g' : G) → Mid a g' → Good (f a) Ends g')
      → Good (p >>= f) Ends g
  Good->>= (ret a) f Mid Ends g s k = k a g s
  Good->>= (stop e) f Mid Ends g s k = s
  Good->>= (atomic update next) f Mid Ends g s k = λ h m inv.
      let (g', inv', rest) = s h m inv in (g', inv', Good->>= (next m) f Mid Ends g' rest k)

  pub Good-if :
      {A : Type 0} (b : Bool) (p q : Program M A) (Ends : A → G → Type 0) (g : G)
      → (b ≡ true → Good p Ends g)
      → (b ≡ false → Good q Ends g)
      → Good (if b then p else q) Ends g
  Good-if true p q Ends g hp hq = hp refl
  Good-if false p q Ends g hp hq = hq refl

ret-ne-atomic :
    {M A : Type 0} {a : A} {update : M → M} {next : M → Program M A} → ret a ≢ atomic update next
ret-ne-atomic e = cc

abbrev pub Flip : {M G H : Type 0} → (G → H → M → Type 0) → H → G → M → Type 0
Flip Inv h g m = Inv g h m

-- A thread is still running, or has run out of fuel, or its result is as `P` says: it has met no other
-- fault.
abbrev pub Ends : {M A : Type 0} → (A → Type 0) → Program M A → Type 0
Ends P (ret a) = P a
Ends P (stop e) = e ≡ spinning
Ends P (atomic update next) = Unit

pub Good-Ends :
    {M G H A : Type 0} (Inv : G → H → M → Type 0) (p : Program M A) (Post : A → G → Type 0) (g : G)
    (P : A → Type 0)
    → Good Inv p Post g
    → ((a : A) → Post a g → P a)
    → Ends P p
Good-Ends Inv (ret a) Post g P good h = h a good
Good-Ends Inv (stop e) Post g P good h = good
Good-Ends Inv (atomic update next) Post g P good h = tt

-- Thread 0, thread 1, and no other.
abbrev pub pair : {M A : Type 0} → M → Program M A → Program M A → A → System M A
pair m p q a = record {
  memory = m;
  thread = λ i. ite (ℕ_discrete i 0) p (ite (ℕ_discrete i 1) q (ret a));
}

module _ {M A G H : Type 0} (Inv : G → H → M → Type 0) (Left : A → G → Type 0)
    (Right : A → H → Type 0) where
  pub record Both (s : System M A) : Type 0 where
    pub left : G
    pub right : H
    pub inv : Inv left right s.memory
    pub left_good : Good Inv (s.thread 0) Left left
    pub right_good : Good (Flip Inv) (s.thread 1) Right right
    pub others : (i : ℕ) → 2 ≤ i → (a : A) × (s.thread i ≡ ret a)

  access_left :
      (s : System M A) (update : M → M) (next : M → Program M A)
      → s.thread 0 ≡ atomic update next
      → Both s
      → Both (record { memory = update s.memory; thread = assign s.thread 0 (next s.memory) })
  access_left s update next e b =
      let good : Good Inv (atomic update next) Left b.left =
        subst (λ p. Good Inv p Left b.left) e b.left_good in
      let (g', inv', rest) = good b.right s.memory b.inv in
      record {
        left = g';
        right = b.right;
        inv = inv';
        left_good =
            subst (λ p. Good Inv p Left g') (sym (assign_self s.thread 0 (next s.memory))) rest;
        right_good =
            subst (λ p. Good (Flip Inv) p Right b.right)
              (sym (assign_ne s.thread 0 1 (next s.memory) (omega arith))) b.right_good;
        others = λ i h.
            let (a, done) = b.others i h in
            (a, assign_ne s.thread 0 i (next s.memory) (omega arith) ∙ done);
      }

  access_right :
      (s : System M A) (update : M → M) (next : M → Program M A)
      → s.thread 1 ≡ atomic update next
      → Both s
      → Both (record { memory = update s.memory; thread = assign s.thread 1 (next s.memory) })
  access_right s update next e b =
      let good : Good (Flip Inv) (atomic update next) Right b.right =
        subst (λ p. Good (Flip Inv) p Right b.right) e b.right_good in
      let (h', inv', rest) = good b.left s.memory b.inv in
      record {
        left = b.left;
        right = h';
        inv = inv';
        left_good =
            subst (λ p. Good Inv p Left b.left)
              (sym (assign_ne s.thread 1 0 (next s.memory) (omega arith))) b.left_good;
        right_good =
            subst (λ p. Good (Flip Inv) p Right h') (sym (assign_self s.thread 1 (next s.memory)))
              rest;
        others = λ i h.
            let (a, done) = b.others i h in
            (a, assign_ne s.thread 1 i (next s.memory) (omega arith) ∙ done);
      }

  Step-Both : {s t : System M A} → Step NoJob s t → Both s → Both t
  Step-Both (start i e job) b = absurd job
  Step-Both {s} (access zero {update} {next} e) b = access_left s update next e b
  Step-Both {s} (access (suc zero) {update} {next} e) b = access_right s update next e b
  Step-Both {s} (access (suc (suc i)) e) b =
      let (a, done) = b.others (suc (suc i)) (omega arith) in absurd (ret-ne-atomic (sym done ∙ e))

  -- Two good programs stay good, and the invariant holds, in every run of both.
  pub Reach-Both :
      (m : M) (p q : Program M A) (a : A) (g : G) (h : H)
      → Inv g h m
      → Good Inv p Left g
      → Good (Flip Inv) q Right h
      → {n : ℕ} {t : System M A} → Reach NoJob (pair m p q a) n t
      → Both t
  Reach-Both m p q a g h inv gp gq here = record {
    left = g;
    right = h;
    inv = inv;
    left_good = subst (λ x. Good Inv x Left g) (sym (if_pos (ℕ_discrete 0 0) refl p (rest 0))) gp;
    right_good =
        subst (λ x. Good (Flip Inv) x Right h)
          (sym (
            if_neg (ℕ_discrete 1 0) (omega arith) p (rest 1)
            ∙ if_pos (ℕ_discrete 1 1) refl q (ret a)))
          gq;
    others = λ i two. (
      a,
      if_neg (ℕ_discrete i 0) (omega arith) p (rest i)
          ∙ if_neg (ℕ_discrete i 1) (omega arith) q (ret a),
    );
  }
    where
      rest : ℕ → Program M A
      rest i = ite (ℕ_discrete i 1) q (ret a)
  Reach-Both m p q a g h inv gp gq (step r st) = Step-Both st (Reach-Both m p q a g h inv gp gq r)
