-- ===== src/AtomicQueue2/Quiet.antt =====
-- The accesses of `do_push_any` and `do_pop_any` of src/atomic_queue2.rs are to slots only, whatever
-- other threads do.
use atomic_queue_rs.Base.{
  ℕ, zero, suc, not, ◌≡◌, refl, Bool, true, false, Option, none, some, ◌==◌, if◌then◌else◌,
}
use atomic_queue_rs.Program.{Program, ret, stop, atomic, ◌>>=◌, undefined}
use atomic_queue_rs.AtomicQueue2.Slots.{
  Shared, state, element, set_state, empty_mark, full_mark, read_element,
}
use atomic_queue_rs.AtomicQueue2.Types.{Queue2}
use atomic_queue_rs.AtomicQueue2.Access.{
  pause, pop_spsc, await_state, pop_mpmc, do_pop_any, push_spsc, push_mpmc, do_push_any,
}

module _ {A : Type 0} where
  abbrev pub Quiet : {B : Type 0} → Program (Shared A) B → Type 0
  Quiet (ret b) = Unit
  Quiet (stop e) = Unit
  Quiet (atomic update next) = (m : Shared A) → ((update m).common ≡ m.common) × Quiet (next m)

  Quiet->>= :
      {B C : Type 0} (p : Program (Shared A) B) (f : B → Program (Shared A) C)
      → Quiet p
      → ((b : B) → Quiet (f b))
      → Quiet (p >>= f)
  Quiet->>= (ret b) f s h = h b
  Quiet->>= (stop e) f s h = tt
  Quiet->>= (atomic update next) f s h = λ m. ((s m).0, Quiet->>= (next m) f (s m).1 h)

  Quiet-if :
      {B : Type 0} (b : Bool) (p q : Program (Shared A) B)
      → Quiet p
      → Quiet q
      → Quiet (if b then p else q)
  Quiet-if true p q hp hq = hp
  Quiet-if false p q hp hq = hq

  exchange-common :
      (i s : ℕ) (b : Bool) (m : Shared A) → (if b then set_state i s m else m).common ≡ m.common
  exchange-common i s true m = refl
  exchange-common i s false m = refl

  found-Quiet :
      (o : Option A) → Quiet {B = A} (elim o [ some value ↦ ret value | none ↦ stop undefined ])
  found-Quiet none = tt
  found-Quiet (some value) = tt

  read-Quiet : (i : ℕ) → Quiet (read_element i)
  read-Quiet i = λ m. (refl, found-Quiet (element i m))

module _ (A : Type 0) (self : Queue2) where
  pause-Quiet : Quiet {A = A} (pause self)
  pause-Quiet = Quiet-if self.maximize_throughput _ _ tt tt

  pop_spsc-Quiet : (fuel i : ℕ) → Quiet {A = A} (pop_spsc self fuel i)
  unfolding pop_spsc
  pop_spsc-Quiet zero i = tt
  pop_spsc-Quiet (suc fuel) i = λ m. (
    refl,
    Quiet-if (state i m == full_mark) _ _
        (Quiet->>= (read_element i) _ (read-Quiet i) (λ value. λ m'. (refl, tt)))
        (Quiet->>= (pause self) _ pause-Quiet (λ _. pop_spsc-Quiet fuel i)),
  )

  await_state-Quiet : (fuel i : ℕ) → Quiet {A = A} (await_state self fuel i)
  unfolding await_state
  await_state-Quiet zero i = tt
  await_state-Quiet (suc fuel) i =
      λ m. (refl, Quiet-if (state i m == empty_mark) _ _ (await_state-Quiet fuel i) tt)

  pop_mpmc-Quiet : (fuel i : ℕ) → Quiet {A = A} (pop_mpmc self fuel i)
  unfolding pop_mpmc
  pop_mpmc-Quiet zero i = tt
  pop_mpmc-Quiet (suc fuel) i = λ m. (
    exchange-common i empty_mark (state i m == full_mark) m,
    Quiet-if (state i m == full_mark) _ _ (read-Quiet i) (
        Quiet->>= (if self.maximize_throughput then await_state self fuel i else ret tt) _
          (Quiet-if self.maximize_throughput _ _ (await_state-Quiet fuel i) tt)
          (λ _. pop_mpmc-Quiet fuel i)),
  )

  pub do_pop_any-Quiet : (fuel i : ℕ) → Quiet {A = A} (do_pop_any self fuel i)
  unfolding do_pop_any
  do_pop_any-Quiet fuel i = Quiet-if self.spsc _ _ (pop_spsc-Quiet fuel i) (pop_mpmc-Quiet fuel i)

  push_spsc-Quiet : (fuel : ℕ) (x : A) (i : ℕ) → Quiet (push_spsc self fuel x i)
  unfolding push_spsc
  push_spsc-Quiet zero x i = tt
  push_spsc-Quiet (suc fuel) x i = λ m. (
    refl,
    Quiet-if (not (state i m == empty_mark)) _ _
        (Quiet->>= (pause self) _ pause-Quiet (λ _. push_spsc-Quiet fuel x i))
        (λ m'. (refl, λ m''. (refl, tt))),
  )

  push_mpmc-Quiet : (fuel : ℕ) (x : A) (i : ℕ) → Quiet (push_mpmc self fuel x i)
  unfolding push_mpmc
  push_mpmc-Quiet zero x i = tt
  push_mpmc-Quiet (suc fuel) x i = λ m. (
    exchange-common i full_mark (state i m == empty_mark) m,
    Quiet-if (state i m == empty_mark) _ _ (λ m'. (refl, tt))
        (Quiet->>= (pause self) _ pause-Quiet (λ _. push_mpmc-Quiet fuel x i)),
  )

  pub do_push_any-Quiet : (fuel : ℕ) (x : A) (i : ℕ) → Quiet (do_push_any self fuel x i)
  unfolding do_push_any
  do_push_any-Quiet fuel x i =
      Quiet-if self.spsc _ _ (push_spsc-Quiet fuel x i) (push_mpmc-Quiet fuel x i)
