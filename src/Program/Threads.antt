-- ===== src/Program/Threads.antt =====
-- Threads that share a memory. Any of them may make the next access; a thread that has returned may
-- start another program that its `Job` allows.
use native.Mathlib.Decide.{ℕ_discrete}
use mathlib.Core.Path.{fun_ext}
use mathlib.Core.Logic.{ite, if_pos, if_neg}
use atomic_queue_rs.Base.{ℕ, zero, suc, ◌≡◌, ◌≢◌, refl, sym, ap, ◌∙◌}
use atomic_queue_rs.Program.{Program, ret, stop, atomic}

abbrev pub assign : {B : Type 0} → (ℕ → B) → ℕ → B → ℕ → B
assign f i b j = ite (ℕ_discrete i j) b (f j)

pub assign_self : {B : Type 0} (f : ℕ → B) (i : ℕ) (b : B) → assign f i b i ≡ b
assign_self f i b = if_pos (ℕ_discrete i i) refl b (f i)

pub assign_ne : {B : Type 0} (f : ℕ → B) (i j : ℕ) (b : B) → i ≢ j → assign f i b j ≡ f j
assign_ne f i j b ne = if_neg (ℕ_discrete i j) ne b (f j)

-- To assign what is there changes nothing.
pub assign_same : {B : Type 0} (f : ℕ → B) (i : ℕ) (b : B) → f i ≡ b → f ≡ assign f i b
assign_same f i b e = fun_ext (λ j. elim (ℕ_discrete i j) [
  | yes same ↦ ap f (sym same) ∙ e ∙ sym (assign_self f i b) ∙ ap (assign f i b) same
  | no ne ↦ sym (assign_ne f i j b ne)
])

pub record System (M A : Type 0) : Type 0 where
  pub memory : M
  pub thread : ℕ → Program M A

module _ {M A : Type 0} (Job : ℕ → Program M A → Type 0) where
  pub data Step (s : System M A) : System M A → Type 0 where
    access :
        (i : ℕ) {update : M → M} {next : M → Program M A}
        → s.thread i ≡ atomic update next
        → Step s (record { memory = update s.memory; thread = assign s.thread i (next s.memory) })
    start :
        (i : ℕ) {a : A} {p : Program M A}
        → s.thread i ≡ ret a
        → Job i p
        → Step s (record { memory = s.memory; thread = assign s.thread i p })

  -- The systems that `n` steps lead to.
  pub data Reach (s : System M A) : ℕ → System M A → Type 0 where
    here : Reach s zero s
    step : {n : ℕ} {t u : System M A} → Reach s n t → Step t u → Reach s (suc n) u

-- No thread starts anything new.
abbrev pub NoJob : {M A : Type 0} → ℕ → Program M A → Type 0
NoJob i p = ⊥

-- The memory when a thread has made `k` accesses of a program, with no other thread at work.
abbrev pub interrupted : {M A : Type 0} → ℕ → Program M A → M → M
interrupted zero p m = m
interrupted (suc k) (ret a) m = m
interrupted (suc k) (stop e) m = m
interrupted (suc k) (atomic update next) m = interrupted k (next m) (update m)

-- What is left of the program then.
abbrev pub resumed : {M A : Type 0} → ℕ → Program M A → M → Program M A
resumed zero p m = p
resumed (suc k) (ret a) m = ret a
resumed (suc k) (stop e) m = stop e
resumed (suc k) (atomic update next) m = resumed k (next m) (update m)
