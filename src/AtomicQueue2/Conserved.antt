-- ===== src/AtomicQueue2/Conserved.antt =====
-- How many elements any number of threads have sent to one queue of src/atomic_queue2.rs in MPMC mode and
-- received from it, whatever races there are: a slot is marked FULL once for each element sent, and is
-- no longer FULL once for each element received.
pub mod Weights
pub mod Moves
pub mod Loops
pub mod Methods
pub mod Outcome
mod Tests
use native.Mathlib.Decide.{ℕ_discrete}
use mathlib.Core.Path.{subst, fun_ext}
use atomic_queue_rs.Base.{
  ℕ, zero, suc, ◌+◌, ◌≤◌, ◌<◌, ◌≡◌, refl, sym, ap, ◌∙◌, Option, none, some, List, [], ◌∷◌, ◌++◌,
  arith,
}
use atomic_queue_rs.Program.{Program, ret, stop, atomic, ◌>>=◌, undefined}
use atomic_queue_rs.Program.Threads.{assign, assign_self, assign_ne, assign_same}
use atomic_queue_rs.Program.Many.{Steady}
use atomic_queue_rs.AtomicQueue2.Slots.{Shared, element, set_element, write_element, read_element}
use Weights.{count_full, total}

-- How many slots a thread has marked FULL, how many EMPTY, and how many it may still mark FULL.
pub record Part : Type 0 where
  pub sent : ℕ
  pub received : ℕ
  pub pending : ℕ

abbrev pub part : ℕ → ℕ → ℕ → Part
part a b c = record { sent = a; received = b; pending = c }

-- The thread may still mark a slot for each of the `rest` elements that its calls still send.
abbrev pub At : ℕ → ℕ → ℕ → Part → Type 0
At a b rest g = (c : ℕ) × (g ≡ part a b c) × (rest ≤ c)

module _ (offered : ℕ → ℕ) (i : ℕ) where
  pub within-assign :
      (parts : ℕ → Part) (g : Part)
      → ((j : ℕ) → (parts j).sent + (parts j).pending ≤ offered j)
      → g.sent + g.pending ≤ offered i
      → (j : ℕ) → (assign parts i g j).sent + (assign parts i g j).pending ≤ offered j
  within-assign parts g others this j = elim (ℕ_discrete i j) [
    | yes same ↦
        subst (λ k. (assign parts i g k).sent + (assign parts i g k).pending ≤ offered k) same
          (subst (λ (h : Part). h.sent + h.pending ≤ offered i) (sym (assign_self parts i g)) this)
    | no ne ↦
        subst (λ (h : Part). h.sent + h.pending ≤ offered j) (sym (assign_ne parts i j g ne))
          (others j)
  ]

-- `count` threads, and the number of elements that each is offered to send.
module _ {A : Type 0} (count : ℕ) (offered : ℕ → ℕ) where
  pub record Inv (n : ℕ) (parts : ℕ → Part) (s : Unit {0}) (m : Shared A) : Type 0 where
    pub conserved :
        total (λ i. (parts i).received) count + count_full m.storage.states
        ≤ total (λ i. (parts i).sent) count
    pub within : (i : ℕ) → (parts i).sent + (parts i).pending ≤ offered i

  -- A wait may run out of fuel, and there may be other faults.
  abbrev pub Steadily :
      ℕ → {B : Type 0} → Program (Shared A) B → (B → Part → Type 0) → Part → Type 0
  Steadily i c Ends g = Steady Inv (λ _. Unit {0}) i c Ends g

  module _ (i : ℕ) where
    -- An access that leaves all states as they are.
    pub calm :
        {B : Type 0} (update : Shared A → Shared A) (next : Shared A → Program (Shared A) B)
        (Ends : B → Part → Type 0) (g : Part)
        → ((m : Shared A) → (update m).storage.states ≡ m.storage.states)
        → ((m : Shared A) → Steadily i (next m) Ends g)
        → Steadily i (atomic update next) Ends g
    calm update next Ends g same h = λ n parts s m inv e. (
      g,
      s,
      subst (λ f. Inv (suc n) f s (update m)) (assign_same parts i g e)
          (record {
            conserved =
                subst
                  (λ ss.
                    total (λ j. (parts j).received) count + count_full ss
                    ≤ total (λ j. (parts j).sent) count)
                  (sym (same m)) inv.conserved;
            within = inv.within;
          }),
      h m,
    )

    pub unmoved :
        (n : ℕ) (parts : ℕ → Part) (s : Unit {0}) (m : Shared A) (g : Part)
        → Inv n parts s m
        → parts i ≡ g
        → Inv (suc n) (assign parts i g) s m
    unmoved n parts s m g inv e =
        subst (λ f. Inv (suc n) f s m) (assign_same parts i g e)
          (record { conserved = inv.conserved; within = inv.within })
