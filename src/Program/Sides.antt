-- ===== src/Program/Sides.antt =====
-- Programs that use two memories.
use atomic_queue_rs.Base.{◌≡◌}
use atomic_queue_rs.Program.{Program, ret, stop, atomic, run, done}
use atomic_queue_rs.Program.Still.{Still}

-- A program on one of two memories.
module _ {M N A : Type 0} where
  abbrev pub on_left : Program M A → Program (M × N) A
  on_left (ret a) = ret a
  on_left (stop e) = stop e
  on_left (atomic update next) = atomic (λ m. (update m.0, m.1)) (λ m. on_left (next m.0))

  abbrev pub on_right : Program N A → Program (M × N) A
  on_right (ret a) = ret a
  on_right (stop e) = stop e
  on_right (atomic update next) = atomic (λ m. (m.0, update m.1)) (λ m. on_right (next m.1))

  pub run-on_left :
      (c : Program M A) (m m' : M) (l : N) (a : A)
      → run c m ≡ done m' a
      → run (on_left c) (m, l) ≡ done (m', l) a
  run-on_left (ret b) m m' l a e = cc
  run-on_left (stop f) m m' l a e = absurd cc
  run-on_left (atomic update next) m m' l a e = run-on_left (next m) (update m) m' l a e

  pub run-on_right :
      (c : Program N A) (m m' : N) (k : M) (a : A)
      → run c m ≡ done m' a
      → run (on_right c) (k, m) ≡ done (k, m') a
  run-on_right (ret b) m m' k a e = cc
  run-on_right (stop f) m m' k a e = absurd cc
  run-on_right (atomic update next) m m' k a e = run-on_right (next m) (update m) m' k a e

  module _ (K : M → Type 0) (L : N → Type 0) (P : A → Type 0) where
    pub Still-on_left :
        (c : Program M A) → Still K P c → Still (λ (m : M × N). K m.0 × L m.1) P (on_left c)
    Still-on_left (ret a) s = s
    Still-on_left (stop e) s = tt
    Still-on_left (atomic update next) s =
        λ m k. (((s m.0 k.0).0, k.1), Still-on_left (next m.0) (s m.0 k.0).1)

    pub Still-on_right :
        (c : Program N A) → Still L P c → Still (λ (m : M × N). K m.0 × L m.1) P (on_right c)
    Still-on_right (ret a) s = s
    Still-on_right (stop e) s = tt
    Still-on_right (atomic update next) s =
        λ m k. ((k.0, (s m.1 k.1).0), Still-on_right (next m.1) (s m.1 k.1).1)
