-- ===== src/Ring/Modular.antt =====
-- Rings whose slots are remainders, possibly shuffled.
use native.Mathlib.Nat.{
  mod-lt, mod-mod_of_dvd, mod-add-mod, mod-eq_of_lt, mod-eq-sub-mod, add-mod_right, dvd-mul_right,
}
use native.Mathlib.Decide.{dec_lt}
use Prim.Native.Nat.{◌∣◌}
use atomic_queue_rs.Base.{
  ℕ, ◌+◌, ◌-◌, ◌%◌, ◌^◌, ◌≤◌, ◌<◌, ◌≡◌, ◌≢◌, sym, ap, ◌∙◌, Bool, true, arith, two-pow-add,
}
use atomic_queue_rs.Ring.Laws.{IsRing}

mod-ne : (cap i k : ℕ) → 0 < k → k < cap → (i + k) % cap ≢ i % cap
mod-ne cap i k pos short = elim (dec_lt (i % cap + k) cap) [
  | yes below ↦ omega (arith, mod-add-mod i cap k, mod-eq_of_lt {n = i % cap + k} {m = cap} below)
  | no above ↦ omega (
    arith,
    mod-add-mod i cap k,
    mod-lt i {m = cap} (omega arith),
    mod-eq-sub-mod {n = i % cap + k} {m = cap} (omega arith),
    mod-eq_of_lt {n = i % cap + k - cap} {m = cap}
        (omega (arith, mod-lt i {m = cap} (omega arith))),
  )
]

two-pow-dvd : (j k : ℕ) → j ≤ k → 2 ^ j ∣ 2 ^ k
two-pow-dvd j k h =
    rw (let e : k ≡ j + (k - j) = omega arith in e, two-pow-add j (k - j))
      (dvd-mul_right (2 ^ j) (2 ^ (k - j)))

-- A power of two divides the modulus of the counters.
pub word-mod : (log i : ℕ) → log ≤ 63 → i % 2 ^ 64 % 2 ^ log ≡ i % 2 ^ log
word-mod log i h = mod-mod_of_dvd (2 ^ log) i (two-pow-dvd log 64 (omega arith))

-- A permutation of the slots that undoes itself keeps a ring a ring.
pub shuffled-IsRing :
    (cap : ℕ) (periodic : Bool) (f : ℕ → ℕ)
    → 0 < cap
    → cap ≤ 2 ^ 63
    → (periodic ≡ true → (i : ℕ) → i % 2 ^ 64 % cap ≡ i % cap)
    → ((i : ℕ) → i < cap → f i < cap)
    → ((i : ℕ) → f (f i) ≡ i)
    → IsRing cap (λ i. f (i % cap)) periodic
shuffled-IsRing cap periodic f pos small word f-lt f-f = record {
  pos = pos;
  small = small;
  in_range = λ i. f-lt (i % cap) (mod-lt i pos);
  apart = λ i k kpos short e.
      mod-ne cap i k kpos short (sym (f-f ((i + k) % cap)) ∙ ap f e ∙ f-f (i % cap));
  round = λ i. ap f (add-mod_right i cap);
  wraps = λ i h. ap f (word h i);
}
