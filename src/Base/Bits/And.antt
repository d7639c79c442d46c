-- ===== src/Base/Bits/And.antt =====
-- `&` with a mask of low ones is a remainder.
use Prim.Native.Nat.{ℕ, zero, suc, ◌+◌, ◌-◌, ◌*◌, ◌/◌, ◌%◌, ◌^◌, ◌≤◌, bit_and}
use mathlib.Core.Path.{◌≡◌, refl}
use native.Mathlib.Nat.{pow-suc, div-add-mod', mod-lt}
use native.Mathlib.Omega.{arith}
use atomic_queue_rs.Base.Word.{two-pow_pos}
use atomic_queue_rs.Base.Bits.Low.{bit_and-low, fields-suc}
use Prim.Native.Nat.{◌<◌}

and-zero-upto : (n a : ℕ) → a ≤ n → bit_and a 0 ≡ 0
and-zero-upto n zero h = refl
and-zero-upto zero (suc a) h = absurd (omega arith)
and-zero-upto (suc n) (suc a) h =
    omega (arith, bit_and-low (suc a) 0, and-zero-upto n (suc a / 2) (omega arith))

pub bit_and-zero : (a : ℕ) → bit_and a 0 ≡ 0
bit_and-zero a = and-zero-upto a a (omega arith)

and_field : (k q r : ℕ) → r < 2 ^ k → bit_and (q * 2 ^ k + r) (2 ^ k - 1) ≡ r
and_field zero q r h = ground (arith, bit_and-zero (q * 1 + r))
and_field (suc k) q r h = ground (
  arith,
  bit_and-low (q * 2 ^ suc k + r) (2 ^ suc k - 1),
  fields-suc q k,
  pow-suc 2 k,
  two-pow_pos k,
  and_field k q (r / 2),
)

-- `a & (2^k - 1)` is `a % 2^k`.
pub bit_and_mask : (k a : ℕ) → bit_and a (2 ^ k - 1) ≡ a % 2 ^ k
bit_and_mask k a =
    ground (
      arith,
      div-add-mod' a (2 ^ k),
      and_field k (a / 2 ^ k) (a % 2 ^ k) (mod-lt a (two-pow_pos k)),
    )
