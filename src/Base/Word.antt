-- ===== src/Base/Word.antt =====
-- `usize` on a 64-bit target: words below 2^64, with wrap-around written out.
use Prim.Native.Nat.{ℕ, zero, suc, ◌+◌, ◌-◌, ◌*◌, ◌/◌, ◌%◌, ◌^◌, ◌≤◌, ◌<◌}
use mathlib.Core.Path.{◌≡◌, ap}
use native.Mathlib.Nat.{pow-suc, one-le-pow}
use native.Mathlib.Decide.{dec_le}
use native.Mathlib.Omega.{arith}

abbrev pub usize_mod : ℕ
usize_mod = 2 ^ 64

-- `fetch_add` and, without overflow checks, `+`.
abbrev pub wrapping_add : ℕ → ℕ → ℕ
wrapping_add a b = (a + b) % 2 ^ 64

-- Without overflow checks, `-`.
abbrev pub wrapping_sub : ℕ → ℕ → ℕ
wrapping_sub a b = (a + 2 ^ 64 - b) % 2 ^ 64

-- `x >> k`
abbrev pub shr : ℕ → ℕ → ℕ
shr x k = x / 2 ^ k

-- `x << k`; what leaves the word is lost.
abbrev pub shl : ℕ → ℕ → ℕ
shl x k = x * 2 ^ k % 2 ^ 64

pub two-pow_pos : (k : ℕ) → 0 < 2 ^ k
two-pow_pos k = one-le-pow k 2 (omega arith)

pub two-pow-suc : (k : ℕ) → 2 ^ suc k ≡ 2 * 2 ^ k
two-pow-suc k = omega (arith, pow-suc 2 k)

pub two-pow-add : (j k : ℕ) → 2 ^ (j + k) ≡ 2 ^ j * 2 ^ k
two-pow-add zero k = omega (arith, ap (λ (t : ℕ). 2 ^ t) (let e : 0 + k ≡ k = omega arith in e))
two-pow-add (suc j) k = omega (
  arith,
  ap (λ (t : ℕ). 2 ^ t) (let e : suc j + k ≡ suc (j + k) = omega arith in e),
  two-pow-suc (j + k),
  two-pow-add j k,
  ap (λ (t : ℕ). t * 2 ^ k) (two-pow-suc j),
)

pub two-pow_mono : (j k : ℕ) → j ≤ k → 2 ^ j ≤ 2 ^ k
two-pow_mono j k h = grind (
  arith,
  ap (λ (t : ℕ). 2 ^ t) (let e : j + (k - j) ≡ k = omega arith in e),
  two-pow-add j (k - j),
  two-pow_pos (k - j),
)

pub two-pow-reflects : (j k : ℕ) → 2 ^ j ≤ 2 ^ k → j ≤ k
two-pow-reflects j k h = elim (dec_le j k) [
  | yes le ↦ le
  | no gt ↦
      absurd (omega (arith, two-pow-suc k, two-pow_pos k, two-pow_mono (suc k) j (omega arith)))
]
