-- ===== src/Arch/RoundUp.antt =====
-- `round_up_to_power_of_2` returns the least power of two that is not below its argument.
use native.Mathlib.Nat.{
  div-add-mod', mod-lt, div-lt_iff_lt-mul, add-mul-div_right, le-div_iff_mul-le, mul-le-mul_right,
  div-le_self,
}
use native.Mathlib.Decide.{dec_le}
use atomic_queue_rs.Base.{
  ℕ, zero, suc, ◌+◌, ◌-◌, ◌*◌, ◌/◌, ◌%◌, ◌^◌, ◌≤◌, ◌<◌, ◌≡◌, refl, ap, arith, ◌∙◌, bit_or,
  two-pow_pos, two-pow-suc, two-pow-add, two-pow_mono, ne→==, le→ltb,
}
use atomic_queue_rs.Base.Bits.{bit_or-lt, le-bit_or_left, le-bit_or_right, bit_or_fields}
use atomic_queue_rs.Program.{Profile, debug, release, panic, ok, fault, add_usize}
use atomic_queue_rs.Program.Laws.{add_usize_fits}
use atomic_queue_rs.Arch.{smear, round_up_to_power_of_2}

-- A number of `w` digits whose first `k` digits are ones.
record Ones (k w x : ℕ) : Type 0 where
  short : x < 2 ^ w
  full : 2 ^ w ≤ x + 2 ^ (w - k)

quotient_bound : (a b c x : ℕ) → 0 < c → a * c ≤ x + b * c → a ≤ x / c + b
quotient_bound a b c x pos h = omega (arith, add-mul-div_right x b pos, (le-div_iff_mul-le pos).1 h)

two-pow-le-mul : (m k : ℕ) → 2 ^ m ≤ 2 ^ (m - k) * 2 ^ k
two-pow-le-mul m k = omega (arith, two-pow-add (m - k) k, two-pow_mono m (m - k + k) (omega arith))

-- The digits that `x >> k` brings below the first `k` ones are ones too.
shifted_full : (m k x : ℕ) → 2 ^ (m + k) ≤ x + 2 ^ m → 2 ^ m ≤ x / 2 ^ k + 2 ^ (m - k)
shifted_full m k x h =
    quotient_bound (2 ^ m) (2 ^ (m - k)) (2 ^ k) x (two-pow_pos k)
      (omega (arith, two-pow-add m k, two-pow-le-mul m k))

shifted_short : (m k x : ℕ) → x < 2 ^ (m + k) → x / 2 ^ k < 2 ^ m
shifted_short m k x h =
    (div-lt_iff_lt-mul {k = 2 ^ k} (two-pow_pos k)).1 (omega (arith, two-pow-add m k))

head_short : (m k x : ℕ) → x < 2 ^ (m + k) → x / 2 ^ m < 2 ^ k
head_short m k x h =
    (div-lt_iff_lt-mul {k = 2 ^ m} (two-pow_pos m)).1 (omega (arith, two-pow-add m k))

head_full : (m k x : ℕ) → 2 ^ (m + k) ≤ x + 2 ^ m → 2 ^ k ≤ x / 2 ^ m + 1
head_full m k x h =
    quotient_bound (2 ^ k) 1 (2 ^ m) x (two-pow_pos m) (omega (arith, two-pow-add m k))

-- `x | s` for an `s` that fits below the first `m` digits of `x`.
or_below :
    (m x s : ℕ) → s < 2 ^ m → bit_or x s ≡ bit_or (x / 2 ^ m) 0 * 2 ^ m + bit_or (x % 2 ^ m) s
or_below m x s h = ground (
  arith,
  div-add-mod' x (2 ^ m),
  bit_or_fields m (x / 2 ^ m) 0 (x % 2 ^ m) s (mod-lt x (two-pow_pos m)) h,
)

scaled_head : (m k q : ℕ) → 2 ^ k ≤ q + 1 → 2 ^ (m + k) ≤ q * 2 ^ m + 2 ^ m
scaled_head m k q h = omega (arith, two-pow-add m k, mul-le-mul_right (2 ^ m) h)

-- `n |= n >> k` doubles the run of ones at the head of a number of `m + k` digits.
smear_near :
    (m k x : ℕ)
    → x < 2 ^ (m + k)
    → 2 ^ (m + k) ≤ x + 2 ^ m
    → (smear k x < 2 ^ (m + k)) × (2 ^ (m + k) ≤ smear k x + 2 ^ (m - k))
unfolding smear
smear_near m k x short full = omega (
  arith,
  or_below m x s s_short,
  le-bit_or_right m (x % 2 ^ m) s (mod-lt x (two-pow_pos m)) s_short,
  shifted_full m k x full,
  bit_or-lt (m + k) x s short (omega (arith, two-pow_mono m (m + k) (omega arith))),
  scaled_head m k (bit_or (x / 2 ^ m) 0) (
      omega (
        arith,
        head_full m k x full,
        le-bit_or_left k (x / 2 ^ m) 0 (head_short m k x short) (two-pow_pos k),
      )),
)
  where
    s : ℕ
    s = x / 2 ^ k

    s_short : x / 2 ^ k < 2 ^ m
    s_short = shifted_short m k x short

smear-Ones : (k w x : ℕ) → Ones k w x → Ones (k + k) w (smear k x)
unfolding smear
smear-Ones k w x o = elim (dec_le k w) [
  | yes near ↦
      let e : w - k + k ≡ w = omega arith in
      let e' : w - k - k ≡ w - (k + k) = omega arith in
      let (short, full) = smear_near (w - k) k x (rw e o.short) (rw e o.full) in
      record { short = rw e at short; full = rw (e, e') at full }
  | no far ↦
      let e : w - k ≡ 0 = omega arith in
      let e' : w - (k + k) ≡ 0 = omega arith in
      let s_short : x / 2 ^ k < 2 ^ w = omega (arith, o.short, div-le_self x (2 ^ k)) in
      record {
        short = bit_or-lt w x (x / 2 ^ k) o.short s_short;
        full =
            rw e' (omega (arith, rw e at (o.full), le-bit_or_left w x (x / 2 ^ k) o.short s_short));
      }
]

-- The six shifts fill a word of at most 64 digits with ones.
abbrev fill : ℕ → ℕ
fill n = smear 32 (smear 16 (smear 8 (smear 4 (smear 2 (smear 1 n)))))

fill-Ones : (w x : ℕ) → Ones 1 w x → Ones 64 w (fill x)
fill-Ones w x o = smear-Ones 32 w _ (
    smear-Ones 16 w _ (smear-Ones 8 w _ (smear-Ones 4 w _ (smear-Ones 2 w _ (smear-Ones 1 w x o)))))

fill-eq : (j x : ℕ) → j < 64 → 2 ^ j ≤ x → x < 2 ^ suc j → fill x + 1 ≡ 2 ^ suc j
fill-eq j x small lo hi = omega (arith, o.short, rw e at (o.full))
  where
    o : Ones 64 (suc j) (fill x)
    o = fill-Ones (suc j) x (record {
      short = hi;
      full =
          omega (
            arith,
            two-pow-suc j,
            ap (λ (t : ℕ). 2 ^ t) (let d : suc j - 1 ≡ j = omega arith in d),
          );
    })

    e : suc j - 64 ≡ 0
    e = omega arith

-- The place of the leading digit.
leading : (w x : ℕ) → 0 < x → x < 2 ^ w → (j : ℕ) × (j < w) × (2 ^ j ≤ x) × (x < 2 ^ suc j)
leading zero x pos h = absurd (omega arith)
leading (suc w) x pos h = elim (dec_le (2 ^ w) x) [
  | yes big ↦ (w, omega arith, big, h)
  | no small ↦ let (j, jw, lo, hi) = leading w x pos (omega arith) in (j, omega arith, lo, hi)
]

round_up_eq :
    (p : Profile) (n : ℕ) → 0 < n → round_up_to_power_of_2 p n ≡ add_usize p (fill (n - 1)) 1
unfolding round_up_to_power_of_2
round_up_eq p n pos = rw (ne→== n 0 (omega arith))

-- The least power of two that is not below `n`.
pub record IsLeastPower (n c : ℕ) : Type 0 where
  pub log : ℕ
  pub power : c ≡ 2 ^ log
  pub above : n ≤ c
  pub least : (j : ℕ) → n ≤ 2 ^ j → c ≤ 2 ^ j

power_between : (n k : ℕ) → 0 < n → n ≤ 2 ^ k → 2 ^ k < 2 * n → IsLeastPower n (2 ^ k)
power_between n k pos above below = record {
  log = k;
  power = refl;
  above = above;
  least = λ j h. elim (dec_le k j) [
    | yes le ↦ two-pow_mono k j le
    | no lt ↦ absurd (omega (arith, two-pow-suc j, two-pow_mono (suc j) k (omega arith)))
  ];
}

round_up_many :
    (p : Profile) (n : ℕ)
    → 1 < n
    → n ≤ 2 ^ 63
    → (c : ℕ) × (round_up_to_power_of_2 p n ≡ ok c) × IsLeastPower n c
round_up_many p n pos small =
    let (j, jw, lo, hi) = leading 63 (n - 1) (omega arith) (omega arith) in
    let full = fill-eq j (n - 1) (omega arith) lo hi in
    let fits : 2 ^ suc j < 2 ^ 64 = omega (arith, two-pow_mono (suc j) 63 (omega arith)) in
    (
      2 ^ suc j,
      round_up_eq p n (omega arith) ∙ add_usize_fits p (fill (n - 1)) 1 (rw full fits) ∙ ap ok full,
      power_between n (suc j) (omega arith) (omega arith) (omega (arith, two-pow-suc j)),
    )

-- For every n up to 2^63 and under both build profiles round_up_to_power_of_2 succeeds with the
-- least power of two that is not below n.
pub round_up_to_power_of_2_lem :
    (p : Profile) (n : ℕ)
    → n ≤ 2 ^ 63
    → (c : ℕ) × (round_up_to_power_of_2 p n ≡ ok c) × IsLeastPower n c
unfolding round_up_to_power_of_2 smear add_usize
round_up_to_power_of_2_lem p zero h =
    (1, refl, record { log = 0; power = refl; above = omega arith; least = λ j _. two-pow_pos j })
round_up_to_power_of_2_lem debug (suc zero) h =
    (1, refl, record { log = 0; power = refl; above = omega arith; least = λ j _. two-pow_pos j })
round_up_to_power_of_2_lem release (suc zero) h =
    (1, refl, record { log = 0; power = refl; above = omega arith; least = λ j _. two-pow_pos j })
round_up_to_power_of_2_lem p (suc (suc n)) h = round_up_many p (suc (suc n)) (omega arith) h

-- For n above 2^63 round_up_to_power_of_2 overflows in its last addition: a debug build panics, and
-- a release build returns 0.
pub round_up_overflow :
    (n : ℕ)
    → 2 ^ 63 < n
    → n < 2 ^ 64
    → (round_up_to_power_of_2 debug n ≡ fault panic) × (round_up_to_power_of_2 release n ≡ ok 0)
unfolding add_usize
round_up_overflow n big word =
    let full : fill (n - 1) + 1 ≡ 2 ^ 64 =
      fill-eq 63 (n - 1) (omega arith) (omega arith) (omega arith) in
    (
      round_up_eq debug n (omega arith) ∙ rw (le→ltb (fill (n - 1) + 1) (2 ^ 64) (omega arith)),
      round_up_eq release n (omega arith) ∙ ap ok (omega arith),
    )
