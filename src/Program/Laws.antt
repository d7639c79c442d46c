-- ===== src/Program/Laws.antt =====
-- A sequence runs its parts one after the other; arithmetic that stays within a word is exact.
use mathlib.Core.Path.{fun_ext}
use atomic_queue_rs.Base.{ℕ, ◌+◌, ◌-◌, ◌^◌, ◌≤◌, ◌<◌, ◌≡◌, refl, ap, ◌∙◌, arith, lt→ltb, le→leb}
use atomic_queue_rs.Program.{
  Program, ret, stop, atomic, ◌>>=◌, run, Outcome, done, failed, Profile, debug, release, Fault,
  Result, ok, fault, add_usize, sub_usize,
}

-- What follows the first part of a sequence.
abbrev pub continue : {M A B : Type 0} → (A → Program M B) → Outcome M A → Outcome M B
continue f (done m a) = run (f a) m
continue f (failed m e) = failed m e

module _ {M A B : Type 0} where
  pub run->>= :
      (p : Program M A) (f : A → Program M B) (m : M) → run (p >>= f) m ≡ continue f (run p m)
  run->>= (ret a) f m = refl
  run->>= (stop e) f m = refl
  run->>= (atomic update next) f m = run->>= (next m) f (update m)

  pub run-done :
      (p : Program M A) (f : A → Program M B) (m : M) {m' : M} {a : A}
      → run p m ≡ done m' a
      → run (p >>= f) m ≡ run (f a) m'
  run-done p f m e = run->>= p f m ∙ ap (continue f) e

  pub run-failed :
      (p : Program M A) (f : A → Program M B) (m : M) {m' : M} {e : Fault}
      → run p m ≡ failed m' e
      → run (p >>= f) m ≡ failed m' e
  run-failed p f m e = run->>= p f m ∙ ap (continue f) e

pub add_usize_fits : (p : Profile) (a b : ℕ) → a + b < 2 ^ 64 → add_usize p a b ≡ ok (a + b)
unfolding add_usize
add_usize_fits debug a b h = rw (lt→ltb (a + b) (2 ^ 64) h)
add_usize_fits release a b h = ap ok (omega arith)

pub sub_usize_fits : (p : Profile) (a b : ℕ) → b ≤ a → a < 2 ^ 64 → sub_usize p a b ≡ ok (a - b)
unfolding sub_usize
sub_usize_fits debug a b h small = rw (le→leb b a h)
sub_usize_fits release a b h small = ap ok (omega arith)

abbrev value_or : {A : Type 0} → A → Result A → A
value_or d (ok a) = a
value_or d (fault e) = d

pub ok_injective : {A : Type 0} {a b : A} → ok a ≡ ok b → a ≡ b
ok_injective {a = a} e = ap (value_or a) e

pub >>=-assoc :
    {M A B C : Type 0} (p : Program M A) (f : A → Program M B) (g : B → Program M C)
    → ((p >>= f) >>= g) ≡ (p >>= λ a. f a >>= g)
>>=-assoc (ret a) f g = refl
>>=-assoc (stop e) f g = refl
>>=-assoc (atomic update next) f g = ap (atomic update) (fun_ext (λ m. >>=-assoc (next m) f g))

pub >>=-ret : {M A : Type 0} (p : Program M A) → (p >>= λ a. ret a) ≡ p
>>=-ret (ret a) = refl
>>=-ret (stop e) = refl
>>=-ret (atomic update next) = ap (atomic update) (fun_ext (λ m. >>=-ret (next m)))
