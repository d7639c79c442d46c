-- ===== src/Base/Bits/Or.antt =====
-- Bounds of `|`, and `|` field by field.
use Prim.Native.Nat.{ℕ, zero, suc, ◌+◌, ◌*◌, ◌/◌, ◌^◌, ◌≤◌, ◌<◌, bit_or}
use mathlib.Core.Path.{◌≡◌}
use native.Mathlib.Nat.{pow-suc}
use native.Mathlib.Omega.{arith}
use atomic_queue_rs.Base.Bits.Low.{bit_or-low, fields-suc}

-- `|` sets no digit above both numbers.
pub bit_or-lt : (k a b : ℕ) → a < 2 ^ k → b < 2 ^ k → bit_or a b < 2 ^ k
bit_or-lt zero zero zero p q = omega arith
bit_or-lt zero (suc a) b p q = absurd (omega arith)
bit_or-lt zero a (suc b) p q = absurd (omega arith)
bit_or-lt (suc k) a b p q = omega (
  arith,
  bit_or-low a b,
  pow-suc 2 k,
  bit_or-lt k (a / 2) (b / 2) (omega (arith, pow-suc 2 k)) (omega (arith, pow-suc 2 k)),
)

or_bounds_below : (k a b : ℕ) → a < 2 ^ k → b < 2 ^ k → (a ≤ bit_or a b) × (b ≤ bit_or a b)
or_bounds_below zero zero zero p q = omega arith
or_bounds_below zero (suc a) b p q = absurd (omega arith)
or_bounds_below zero a (suc b) p q = absurd (omega arith)
or_bounds_below (suc k) a b p q = omega (
  arith,
  bit_or-low a b,
  or_bounds_below k (a / 2) (b / 2) (omega (arith, pow-suc 2 k)) (omega (arith, pow-suc 2 k)),
)

-- `|` clears no digit.
pub le-bit_or_left : (k a b : ℕ) → a < 2 ^ k → b < 2 ^ k → a ≤ bit_or a b
le-bit_or_left k a b p q = (or_bounds_below k a b p q).0

pub le-bit_or_right : (k a b : ℕ) → a < 2 ^ k → b < 2 ^ k → b ≤ bit_or a b
le-bit_or_right k a b p q = (or_bounds_below k a b p q).1

-- The low field of `|` is the `|` of the low fields, and so is the high one.
pub bit_or_fields :
    (k q p r s : ℕ)
    → r < 2 ^ k
    → s < 2 ^ k
    → bit_or (q * 2 ^ k + r) (p * 2 ^ k + s) ≡ bit_or q p * 2 ^ k + bit_or r s
bit_or_fields zero q p zero zero hr hs = ground arith
bit_or_fields zero q p (suc r) s hr hs = absurd (omega arith)
bit_or_fields zero q p r (suc s) hr hs = absurd (omega arith)
bit_or_fields (suc k) q p r s hr hs = ground (
  arith,
  bit_or-low (q * 2 ^ suc k + r) (p * 2 ^ suc k + s),
  bit_or-low r s,
  fields-suc q k,
  fields-suc p k,
  fields-suc (bit_or q p) k,
  pow-suc 2 k,
  bit_or_fields k q p (r / 2) (s / 2),
)
