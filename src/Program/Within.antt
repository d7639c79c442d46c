-- ===== src/Program/Within.antt =====
-- How many accesses a program makes, whatever it finds in the memory.
use native.Mathlib.Decide.{ℕ_discrete}
use mathlib.Core.Logic.{ite, if_pos, if_neg}
use mathlib.Core.Path.{subst}
use atomic_queue_rs.Base.{
  ℕ, zero, suc, ◌+◌, ◌-◌, ◌≤◌, ◌≡◌, sym, ap, ◌∙◌, Bool, true, false, if◌then◌else◌, arith,
}
use atomic_queue_rs.Program.{Program, ret, stop, atomic, ◌>>=◌, lift, Result, ok, fault}
use atomic_queue_rs.Program.Threads.{
  assign, assign_self, assign_ne, System, access, start, Reach, here, step, NoJob,
}

module _ {M : Type 0} where
  -- At most `n` accesses are left before the program returns or faults.
  abbrev pub Within : {A : Type 0} → ℕ → Program M A → Type 0
  Within n (ret a) = Unit
  Within n (stop e) = Unit
  Within zero (atomic update next) = ⊥
  Within (suc n) (atomic update next) = (m : M) → Within n (next m)

  pub Within-more : {A : Type 0} (p : Program M A) (n k : ℕ) → n ≤ k → Within n p → Within k p
  Within-more (ret a) n k le w = tt
  Within-more (stop e) n k le w = tt
  Within-more (atomic update next) zero k le w = absurd w
  Within-more (atomic update next) (suc n) zero le w = absurd (omega arith)
  Within-more (atomic update next) (suc n) (suc k) le w =
      λ m. Within-more (next m) n k (omega arith) (w m)

  pub Within->>= :
      {A B : Type 0} (p : Program M A) (f : A → Program M B) (n k l : ℕ)
      → n + k ≤ l
      → Within n p
      → ((a : A) → Within k (f a))
      → Within l (p >>= f)
  Within->>= (ret a) f n k l le w h = Within-more (f a) k l (omega arith) (h a)
  Within->>= (stop e) f n k l le w h = tt
  Within->>= (atomic update next) f zero k l le w h = absurd w
  Within->>= (atomic update next) f (suc n) k zero le w h = absurd (omega arith)
  Within->>= (atomic update next) f (suc n) k (suc l) le w h =
      λ m. Within->>= (next m) f n k l (omega arith) (w m) h

  pub Within-if :
      {A : Type 0} (b : Bool) (p q : Program M A) (n : ℕ)
      → Within n p
      → Within n q
      → Within n (if b then p else q)
  Within-if true p q n wp wq = wp
  Within-if false p q n wp wq = wq

  pub Within-lift :
      {A B : Type 0} (x : Result A) (f : A → Program M B) (n : ℕ)
      → ((a : A) → Within n (f a))
      → Within n (lift x >>= f)
  Within-lift (ok a) f n h = h a
  Within-lift (fault e) f n h = tt

  module _ {A : Type 0} (i : ℕ) where
    -- How many accesses thread `i` makes in a run.
    unfoldable pub accesses : {s : System M A} {n : ℕ} {t : System M A} → Reach NoJob s n t → ℕ
    accesses here = 0
    accesses (step r (access j e)) = ite (ℕ_discrete j i) (suc (accesses r)) (accesses r)
    accesses (step r (start j e job)) = accesses r

    Within-step :
        (c : Program M A) {update : M → M} {next : M → Program M A} (k : ℕ) (m : M)
        → c ≡ atomic update next
        → Within k c
        → (1 ≤ k) × Within (k - 1) (next m)
    Within-step c zero m e w = absurd (subst (Within 0) e w)
    Within-step c {next = next} (suc k) m e w = (
      omega arith,
      subst (λ l. Within l (next m)) (let d : k ≡ suc k - 1 = omega arith in d)
          (subst (Within (suc k)) e w m),
    )

    -- A thread with at most `k` accesses left makes no more of them in any run, and has finished when
    -- it has made them all.
    pub Within-Reach :
        (k : ℕ) {s : System M A} {n : ℕ} {t : System M A}
        → Within k (s.thread i)
        → (r : Reach NoJob s n t) → (accesses r ≤ k) × Within (k - accesses r) (t.thread i)
    unfolding accesses
    Within-Reach k {s} w here =
        (omega arith, subst (λ l. Within l (s.thread i)) (let e : k ≡ k - 0 = omega arith in e) w)
    Within-Reach k w (step r (start j e job)) = absurd job
    Within-Reach k w (step {t = t} r (access j {update} {next} e)) =
        let (few, left) = Within-Reach k w r in
        elim (ℕ_discrete j i) [
          | yes same ↦
              let (one, rest) =
                Within-step (t.thread i) (k - accesses r) t.memory (ap t.thread (sym same) ∙ e)
                  left in
              rw (if_pos (ℕ_discrete j i) same (suc (accesses r)) (accesses r)) (
                omega (arith, few, one),
                subst (λ c. Within (k - suc (accesses r)) c)
                    (sym (assign_self t.thread j (next t.memory))
                      ∙ ap (assign t.thread j (next t.memory)) same)
                    (subst (λ l. Within l (next t.memory))
                      (let d : k - accesses r - 1 ≡ k - suc (accesses r) = omega arith in d) rest),
              )
          | no other ↦ rw (if_neg (ℕ_discrete j i) other (suc (accesses r)) (accesses r)) (
            few,
            subst (Within (k - accesses r)) (sym (assign_ne t.thread j i (next t.memory) other))
                left,
          )
        ]
