-- ===== src/Base/Bits/Xor.antt =====
-- `^` field by field, and its cancellation.
use Prim.Native.Nat.{ℕ, zero, suc, ◌+◌, ◌*◌, ◌/◌, ◌%◌, ◌^◌, ◌<◌, ◌≤◌, bit_xor}
use mathlib.Core.Path.{◌≡◌, refl}
use native.Mathlib.Nat.{pow-suc, div-add-mod', mod-lt, mul-add-mod_self_right, mod-eq_of_lt}
use native.Mathlib.Omega.{arith}
use atomic_queue_rs.Base.Word.{two-pow_pos}
use atomic_queue_rs.Base.Bits.Low.{bit_xor-low, fields-suc}

-- `^` sets no digit above both numbers.
pub bit_xor-lt : (k a b : ℕ) → a < 2 ^ k → b < 2 ^ k → bit_xor a b < 2 ^ k
bit_xor-lt zero zero zero p q = omega arith
bit_xor-lt zero (suc a) b p q = absurd (omega arith)
bit_xor-lt zero a (suc b) p q = absurd (omega arith)
bit_xor-lt (suc k) a b p q = omega (
  arith,
  bit_xor-low a b,
  pow-suc 2 k,
  bit_xor-lt k (a / 2) (b / 2) (omega (arith, pow-suc 2 k)) (omega (arith, pow-suc 2 k)),
)

-- `^` acts on the two fields of a word separately.
pub bit_xor_fields :
    (k q p r s : ℕ)
    → r < 2 ^ k
    → s < 2 ^ k
    → bit_xor (q * 2 ^ k + r) (p * 2 ^ k + s) ≡ bit_xor q p * 2 ^ k + bit_xor r s
bit_xor_fields zero q p zero zero hr hs = ground arith
bit_xor_fields zero q p (suc r) s hr hs = absurd (omega arith)
bit_xor_fields zero q p r (suc s) hr hs = absurd (omega arith)
bit_xor_fields (suc k) q p r s hr hs = ground (
  arith,
  bit_xor-low (q * 2 ^ suc k + r) (p * 2 ^ suc k + s),
  bit_xor-low r s,
  fields-suc q k,
  fields-suc p k,
  fields-suc (bit_xor q p) k,
  pow-suc 2 k,
  bit_xor_fields k q p (r / 2) (s / 2),
)

-- Two words of `k` digits: `a ^ (a ^ b)` is `b`.
pub bit_xor_cancel : (k a b : ℕ) → a < 2 ^ k → b < 2 ^ k → bit_xor a (bit_xor a b) ≡ b
bit_xor_cancel zero zero zero p q = refl
bit_xor_cancel zero (suc a) b p q = absurd (omega arith)
bit_xor_cancel zero a (suc b) p q = absurd (omega arith)
bit_xor_cancel (suc k) a b p q = ground (
  arith,
  bit_xor-low a (bit_xor a b),
  bit_xor-low a b,
  pow-suc 2 k,
  bit_xor_cancel k (a / 2) (b / 2),
)

-- Two words of `k` digits: `b ^ (a ^ b)` is `a`.
pub bit_xor_cancel_right : (k a b : ℕ) → a < 2 ^ k → b < 2 ^ k → bit_xor b (bit_xor a b) ≡ a
bit_xor_cancel_right zero zero zero p q = refl
bit_xor_cancel_right zero (suc a) b p q = absurd (omega arith)
bit_xor_cancel_right zero a (suc b) p q = absurd (omega arith)
bit_xor_cancel_right (suc k) a b p q = ground (
  arith,
  bit_xor-low b (bit_xor a b),
  bit_xor-low a b,
  pow-suc 2 k,
  bit_xor_cancel_right k (a / 2) (b / 2),
)

xor-zero-upto : (n a : ℕ) → a ≤ n → bit_xor a 0 ≡ a
xor-zero-upto n zero h = refl
xor-zero-upto zero (suc a) h = absurd (omega arith)
xor-zero-upto (suc n) (suc a) h =
    omega (arith, bit_xor-low (suc a) 0, xor-zero-upto n (suc a / 2) (omega arith))

pub bit_xor-zero : (a : ℕ) → bit_xor a 0 ≡ a
bit_xor-zero a = xor-zero-upto a a (omega arith)

-- The low `k` digits of `^` are the `^` of the low `k` digits.
pub bit_xor-mod : (k a b : ℕ) → bit_xor a b % 2 ^ k ≡ bit_xor (a % 2 ^ k) (b % 2 ^ k)
bit_xor-mod k a b = ground (
  arith,
  two-pow_pos k,
  div-add-mod' a (2 ^ k),
  div-add-mod' b (2 ^ k),
  mod-lt a {m = 2 ^ k} (two-pow_pos k),
  mod-lt b {m = 2 ^ k} (two-pow_pos k),
  bit_xor_fields k (a / 2 ^ k) (b / 2 ^ k) (a % 2 ^ k) (b % 2 ^ k),
  bit_xor-lt k (a % 2 ^ k) (b % 2 ^ k),
  mul-add-mod_self_right (bit_xor (a / 2 ^ k) (b / 2 ^ k)) (2 ^ k)
      (bit_xor (a % 2 ^ k) (b % 2 ^ k)),
  mod-eq_of_lt {n = bit_xor (a % 2 ^ k) (b % 2 ^ k)} {m = 2 ^ k}
      (bit_xor-lt k (a % 2 ^ k) (b % 2 ^ k) (mod-lt a (two-pow_pos k)) (mod-lt b (two-pow_pos k))),
)
