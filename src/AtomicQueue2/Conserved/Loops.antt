-- ===== src/AtomicQueue2/Conserved/Loops.antt =====
-- The MPMC loops of src/atomic_queue2.rs mark one slot FULL, or one no longer FULL, before they return.
use native.Mathlib.Decide.{ℕ_discrete}
use atomic_queue_rs.Base.{
  ℕ, zero, suc, ◌+◌, ◌≤◌, Option, none, some, arith, eq→==, ne→==, ◌<◌, ◌≡◌, refl, Bool, true,
  false, ltb, ◌==◌, if◌then◌else◌,
}
use atomic_queue_rs.Program.{
  Program, ret, stop, atomic, ◌>>=◌, ◌>>◌, undefined, lift, Profile, Fault, Result, ok, fault,
}
use atomic_queue_rs.Program.Many.{Steady->>=}
use atomic_queue_rs.Arch.{remap_index}
use atomic_queue_rs.AtomicQueue2.Slots.{
  Shared, empty_mark, full_mark, state, element, compare_exchange_state,
}
use atomic_queue_rs.AtomicQueue2.Types.{Queue2}
use atomic_queue_rs.AtomicQueue2.Access.{
  reduce_index, get_slot, pause, push_mpmc, do_push_any, pop_mpmc, await_state, do_pop_any,
}
use atomic_queue_rs.AtomicQueue2.Conserved.{Part, part, Inv, Steadily, At, calm, unmoved}
use atomic_queue_rs.AtomicQueue2.Conserved.Moves.{fill-Inv, take-Inv}

-- A compare-exchange whose write leaves the states as they are.
pub exchanged :
    {A : Type 0} (b : Bool) (update : Shared A → Shared A) (m : Shared A)
    → (update m).storage.states ≡ m.storage.states
    → (if b then update m else m).storage.states ≡ m.storage.states
exchanged true update m same = same
exchanged false update m same = refl

module _ {A : Type 0} (count : ℕ) (offered : ℕ → ℕ) (i : ℕ) where
  pub record Keeps {B : Type 0} (c : Program (Shared A) B) (Ends : B → Part → Type 0) (g : Part)
      : Type 0 where
    pub steady : Steadily count offered i c Ends g

  module _ {B : Type 0} {Ends : B → Part → Type 0} {g : Part} where
    pub returns : {b : B} → Ends b g → Keeps (ret b) Ends g
    returns e = record { steady = e }

    pub stops : {e : Fault} → Keeps (stop e) Ends g
    stops = record { steady = tt }

    pub calmly :
        {update : Shared A → Shared A} {next : Shared A → Program (Shared A) B}
        → ((m : Shared A) → (update m).storage.states ≡ m.storage.states)
        → ((m : Shared A) → Keeps (next m) Ends g)
        → Keeps (atomic update next) Ends g
    calmly {update} {next} same h = record {
      steady = calm count offered i update next Ends g same (λ m. (h m).steady);
    }

    pub branches :
        (b : Bool) {c d : Program (Shared A) B}
        → Keeps c Ends g
        → Keeps d Ends g
        → Keeps (if b then c else d) Ends g
    branches true hc hd = hc
    branches false hc hd = hd

    pub computes :
        {C : Type 0} (x : Result C) {f : C → Program (Shared A) B}
        → ((a : C) → Keeps (f a) Ends g)
        → Keeps (lift x >>= f) Ends g
    computes (ok a) h = h a
    computes (fault e) h = stops

  pub chains :
      {B C : Type 0} {c : Program (Shared A) B} (f : B → Program (Shared A) C)
      (Mid : B → Part → Type 0) {Ends : C → Part → Type 0} {g : Part}
      → Keeps c Mid g
      → ((b : B) (h : Part) → Mid b h → Keeps (f b) Ends h)
      → Keeps (c >>= f) Ends g
  chains {c = c} f Mid {Ends} {g} hc hf = record {
    steady =
        Steady->>= (Inv count offered) (λ _. Unit {0}) i c f Mid Ends g hc.steady
          (λ b h mid. (hf b h mid).steady);
  }

  module _ (self : Queue2) (mpmc : self.spsc ≡ false) where
    pauses :
        {B : Type 0} {c : Program (Shared A) B} {Ends : B → Part → Type 0} {g : Part}
        → Keeps c Ends g
        → Keeps (pause self >> c) Ends g
    pauses {c = c} {g = g} h =
        chains (λ _. c) (λ _ k. k ≡ g)
          (branches self.maximize_throughput (returns refl) (returns refl)) (λ _ k e. rw e h)

    pub slots :
        {B : Type 0} (p : Profile) (index : ℕ) {f : ℕ → Program (Shared A) B}
        {Ends : B → Part → Type 0} {g : Part}
        → ((slot : ℕ) → Keeps (f slot) Ends g)
        → Keeps (get_slot p self index >>= f) Ends g
    unfolding get_slot
    slots p index {f} {g = g} h =
        chains f (λ _ k. k ≡ g)
          (computes (reduce_index p self self.variant index) (λ reduced.
            branches (ltb (remap_index reduced self.shuffle_bits) self.allocated) (returns refl)
              stops))
          (λ slot k e. rw e (h slot))

    module _ (below : i < count) (slot a b rest c : ℕ) where
      -- A compare-exchange that marks a slot FULL, or finds that it is not EMPTY.
      fills :
          {B : Type 0} {c1 c2 : Program (Shared A) B} {Ends : B → Part → Type 0}
          → suc rest ≤ c
          → Keeps c1 Ends (part (a + 1) b rest)
          → Keeps c2 Ends (part a b c)
          → Keeps
              (compare_exchange_state slot empty_mark full_mark >>= λ won. if won then c1 else c2)
              Ends
              (part a b c)
      fills covers h1 h2 = record {
        steady = λ n parts s m inv e. elim (ℕ_discrete (state slot m) empty_mark) [
          | yes same ↦ (
            part (a + 1) b rest,
            s,
            rw (eq→== (state slot m) empty_mark same)
                (fill-Inv count offered i below n parts s m slot a b c inv e rest covers),
            rw (eq→== (state slot m) empty_mark same) h1.steady,
          )
          | no ne ↦ (
            part a b c,
            s,
            rw (ne→== (state slot m) empty_mark ne)
                (unmoved count offered i n parts s m (part a b c) inv e),
            rw (ne→== (state slot m) empty_mark ne) h2.steady,
          )
        ];
      }

      takes :
          {B : Type 0} {c1 c2 : Program (Shared A) B} {Ends : B → Part → Type 0}
          → Keeps c1 Ends (part a (b + 1) c)
          → Keeps c2 Ends (part a b c)
          → Keeps
              (compare_exchange_state slot full_mark empty_mark >>= λ won. if won then c1 else c2)
              Ends
              (part a b c)
      takes h1 h2 = record {
        steady = λ n parts s m inv e. elim (ℕ_discrete (state slot m) full_mark) [
          | yes same ↦ (
            part a (b + 1) c,
            s,
            rw (eq→== (state slot m) full_mark same)
                (take-Inv count offered i below n parts s m slot a b c inv e same),
            rw (eq→== (state slot m) full_mark same) h1.steady,
          )
          | no ne ↦ (
            part a b c,
            s,
            rw (ne→== (state slot m) full_mark ne)
                (unmoved count offered i n parts s m (part a b c) inv e),
            rw (ne→== (state slot m) full_mark ne) h2.steady,
          )
        ];
      }

      push_mpmc-Keeps :
          (x : A) (fuel : ℕ)
          → suc rest ≤ c
          → Keeps (push_mpmc self fuel x slot) (λ _ g. At (a + 1) b rest g) (part a b c)
      unfolding push_mpmc
      push_mpmc-Keeps x zero covers = stops
      push_mpmc-Keeps x (suc fuel) covers =
          fills covers (calmly (λ m. refl) (λ m. returns (rest, refl, omega arith)))
            (pauses (push_mpmc-Keeps x fuel covers))

      pub do_push_any-Keeps :
          (x : A) (fuel : ℕ)
          → suc rest ≤ c
          → Keeps (do_push_any self fuel x slot) (λ _ g. At (a + 1) b rest g) (part a b c)
      unfolding do_push_any
      do_push_any-Keeps x fuel covers = simp mpmc (push_mpmc-Keeps x fuel covers)

      found-Keeps :
          (o : Option A)
          → rest ≤ c
          → Keeps
              (elim o [ some value ↦ ret value | none ↦ stop undefined ])
              (λ _ g. At a (b + 1) rest g)
              (part a (b + 1) c)
      found-Keeps (some value) covers = returns (c, refl, covers)
      found-Keeps none covers = stops

      await_state-Keeps :
          (fuel : ℕ)
          → Keeps {B = Unit {0}} (await_state self fuel slot) (λ _ g. g ≡ part a b c) (part a b c)
      unfolding await_state
      await_state-Keeps zero = stops
      await_state-Keeps (suc fuel) =
          calmly (λ m. refl)
            (λ m. branches (state slot m == empty_mark) (await_state-Keeps fuel) (returns refl))

      pop_mpmc-Keeps :
          (fuel : ℕ)
          → rest ≤ c
          → Keeps (pop_mpmc self fuel slot) (λ _ g. At a (b + 1) rest g) (part a b c)
      unfolding pop_mpmc
      pop_mpmc-Keeps zero covers = stops
      pop_mpmc-Keeps (suc fuel) covers =
          takes (calmly (λ m. refl) (λ m. found-Keeps (element slot m) covers)) (
            chains (λ _. pop_mpmc self fuel slot) (λ _ g. g ≡ part a b c)
              (branches self.maximize_throughput (await_state-Keeps fuel) (returns refl))
              (λ _ g e. rw e (pop_mpmc-Keeps fuel covers)))

      pub do_pop_any-Keeps :
          (fuel : ℕ)
          → rest ≤ c
          → Keeps (do_pop_any self fuel slot) (λ _ g. At a (b + 1) rest g) (part a b c)
      unfolding do_pop_any
      do_pop_any-Keeps fuel covers = simp mpmc (pop_mpmc-Keeps fuel covers)
