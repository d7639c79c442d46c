-- ===== src/AtomicQueue2/Conserved/Weights.antt =====
-- Numbers of FULL slots, and totals over threads.
use native.Mathlib.Decide.{ℕ_discrete}
use atomic_queue_rs.Base.{
  ℕ, zero, suc, ◌+◌, ◌*◌, ◌≤◌, ◌<◌, ◌≡◌, refl, sym, ap, ◌∙◌, List, [], ◌∷◌, get_or, set, replicate,
  ◌==◌, if◌then◌else◌, arith,
}
use atomic_queue_rs.AtomicQueue2.Slots.{empty_mark, full_mark}
use atomic_queue_rs.Program.Threads.{assign, assign_self, assign_ne}

abbrev pub mark : ℕ → ℕ
mark s = if s == full_mark then 1 else 0

-- How many slots are FULL.
abbrev pub count_full : List ℕ → ℕ
count_full [] = 0
count_full (s ∷ ss) = mark s + count_full ss

pub count_full-filled : (ss : List ℕ) (i : ℕ) → count_full (set ss i full_mark) ≤ count_full ss + 1
count_full-filled [] i = omega arith
count_full-filled (s ∷ ss) zero = ground arith
count_full-filled (s ∷ ss) (suc i) = omega (arith, count_full-filled ss i)

pub count_full-emptied :
    (ss : List ℕ) (i : ℕ)
    → get_or ss i empty_mark ≡ full_mark
    → count_full (set ss i empty_mark) + 1 ≡ count_full ss
count_full-emptied [] i e = absurd (omega (arith, e))
count_full-emptied (s ∷ ss) zero e = ground (arith, e)
count_full-emptied (s ∷ ss) (suc i) e = omega (arith, count_full-emptied ss i e)

pub count_full-none : (n : ℕ) → count_full (replicate n empty_mark) ≡ 0
count_full-none zero = refl
count_full-none (suc n) = omega (arith, count_full-none n)

abbrev pub total : (ℕ → ℕ) → ℕ → ℕ
total f zero = 0
total f (suc n) = f n + total f n

module _ {G : Type 0} (f : G → ℕ) (parts : ℕ → G) (i : ℕ) (g : G) where
  total-assign_beyond :
      (n : ℕ) → n ≤ i → total (λ j. f (assign parts i g j)) n ≡ total (λ j. f (parts j)) n
  total-assign_beyond zero le = refl
  total-assign_beyond (suc n) le =
      let this : f (assign parts i g n) ≡ f (parts n) =
        ap f (assign_ne parts i n g (omega arith)) in
      omega (arith, this, total-assign_beyond n (omega arith))

  -- One thread's part is replaced.
  pub total-assign :
      (n : ℕ)
      → i < n
      → total (λ j. f (assign parts i g j)) n + f (parts i) ≡ total (λ j. f (parts j)) n + f g
  total-assign zero lt = absurd (omega arith)
  total-assign (suc n) lt = elim (ℕ_discrete i n) [
    | yes same ↦
        let this : f (assign parts i g n) ≡ f g =
          ap (λ j. f (assign parts i g j)) (sym same) ∙ ap f (assign_self parts i g) in
        let old : f (parts n) ≡ f (parts i) = ap (λ j. f (parts j)) (sym same) in
        omega (arith, this, old, total-assign_beyond n (omega arith))
    | no ne ↦
        let this : f (assign parts i g n) ≡ f (parts n) = ap f (assign_ne parts i n g ne) in
        omega (arith, this, total-assign n (omega arith))
  ]

pub total_mono : (f h : ℕ → ℕ) (n : ℕ) → ((i : ℕ) → i < n → f i ≤ h i) → total f n ≤ total h n
total_mono f h zero le = omega arith
total_mono f h (suc n) le =
    omega (arith, le n (omega arith), total_mono f h n (λ i lt. le i (omega arith)))

pub total_zero : (n : ℕ) → total (λ _. 0) n ≡ 0
total_zero zero = refl
total_zero (suc n) = omega (arith, total_zero n)

total_all : (f : ℕ → ℕ) (k n : ℕ) → ((i : ℕ) → i < n → k ≤ f i) → n * k ≤ total f n
total_all f k zero h = omega arith
total_all f k (suc n) h =
    omega (arith, h n (omega arith), total_all f k n (λ i lt. h i (omega arith)))

total_none : (f : ℕ → ℕ) (n : ℕ) → ((i : ℕ) → i < n → f i ≤ 0) → total f n ≤ 0
total_none f zero h = omega arith
total_none f (suc n) h =
    omega (arith, h n (omega arith), total_none f n (λ i lt. h i (omega arith)))

-- At least `k` for each of the first `n` threads, and at most `k` for each of the others.
pub total_lower : (f : ℕ → ℕ) (k n m : ℕ) → ((i : ℕ) → i < n → k ≤ f i) → n * k ≤ total f (n + m)
total_lower f k n zero h =
    omega (arith, total_all f k n h, ap (total f) (let e : n + 0 ≡ n = omega arith in e))
total_lower f k n (suc m) h = omega (
  arith,
  total_lower f k n m h,
  ap (total f) (let e : n + suc m ≡ suc (n + m) = omega arith in e),
)

pub total_upper :
    (f : ℕ → ℕ) (k n m : ℕ)
    → ((i : ℕ) → i < n → f i ≤ 0)
    → ((i : ℕ) → f i ≤ k)
    → total f (n + m) ≤ m * k
total_upper f k n zero h all =
    omega (arith, total_none f n h, ap (total f) (let e : n + 0 ≡ n = omega arith in e))
total_upper f k n (suc m) h all = omega (
  arith,
  all (n + m),
  total_upper f k n m h all,
  ap (total f) (let e : n + suc m ≡ suc (n + m) = omega arith in e),
)
