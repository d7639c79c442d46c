-- ===== src/Arch/Remap.antt =====
-- `remap_index` exchanges the two lowest fields of `bits` digits of an index.
use native.Mathlib.Nat.{
  mul-add-mod_self_right, mod-eq_of_lt, div-add-mod', mod-lt, mul-add-div_right,
}
use native.Mathlib.Nat.{div-eq_of_lt, mul-le-mul_right, lt_of_mul-lt-mul_left}
use atomic_queue_rs.Base.{
  ℕ, ◌+◌, ◌-◌, ◌*◌, ◌/◌, ◌%◌, ◌^◌, ◌≤◌, ◌<◌, ◌≡◌, refl, ap, ◌∙◌, arith, bit_xor, bit_and,
  two-pow_pos, two-pow-add, two-pow_mono, ne→==, zero, suc,
}
use atomic_queue_rs.Base.Bits.{
  bit_xor-lt, bit_xor_fields, bit_xor_cancel, bit_xor_cancel_right, bit_xor-mod, bit_xor-zero,
  bit_and_mask,
}
use atomic_queue_rs.Arch.{remap_index}

-- An index with the low field `lo`, the field `hi` above it, and `c` for the rest.
abbrev pub pack : ℕ → ℕ → ℕ → ℕ → ℕ
pack b c hi lo = (c * 2 ^ b + hi) * 2 ^ b + lo

module _ (b c hi lo : ℕ) (hi_short : hi < 2 ^ b) (lo_short : lo < 2 ^ b) where
  mixed-lt : bit_xor lo hi < 2 ^ b
  mixed-lt = bit_xor-lt b lo hi lo_short hi_short

  pack-shr : pack b c hi lo / 2 ^ b ≡ c * 2 ^ b + hi
  pack-shr = omega (
    arith,
    mul-add-div_right {m = 2 ^ b} (two-pow_pos b) (c * 2 ^ b + hi) lo,
    div-eq_of_lt lo_short,
  )

  mix_lem : bit_and (bit_xor (pack b c hi lo) (pack b c hi lo / 2 ^ b)) (2 ^ b - 1) ≡ bit_xor lo hi
  mix_lem = rw (
    bit_and_mask,
    bit_xor-mod,
    pack-shr,
    mul-add-mod_self_right (c * 2 ^ b + hi) (2 ^ b) lo,
    mul-add-mod_self_right c (2 ^ b) hi,
    mod-eq_of_lt lo_short,
    mod-eq_of_lt hi_short,
  )

  low_mixed : bit_xor (pack b c hi lo) (bit_xor lo hi) ≡ pack b c hi hi
  low_mixed = ground (
    arith,
    bit_xor_fields b (c * 2 ^ b + hi) 0 lo (bit_xor lo hi) lo_short mixed-lt,
    bit_xor-zero (c * 2 ^ b + hi),
    bit_xor_cancel b lo hi lo_short hi_short,
  )

  high_mixed : bit_xor (c * 2 ^ b + hi) (bit_xor lo hi) ≡ c * 2 ^ b + lo
  high_mixed = ground (
    arith,
    bit_xor_fields b c 0 hi (bit_xor lo hi) hi_short mixed-lt,
    bit_xor-zero c,
    bit_xor_cancel_right b lo hi lo_short hi_short,
  )

  both_mixed : bit_xor (pack b c hi hi) (bit_xor lo hi * 2 ^ b) ≡ pack b c lo hi
  both_mixed = ground (
    arith,
    bit_xor_fields b (c * 2 ^ b + hi) (bit_xor lo hi) hi 0 hi_short (two-pow_pos b),
    bit_xor-zero hi,
    high_mixed,
  )

  remap_pack_pos : 0 < b → b ≤ 31 → remap_index (pack b c hi lo) b ≡ pack b c lo hi
  unfolding remap_index
  remap_pack_pos pos small =
      rw (ne→== b 0 (omega arith), one_shifted, mix_lem, low_mixed, mix_shifted, both_mixed)
    where
      one_shifted : 1 * 2 ^ b % 2 ^ 64 ≡ 2 ^ b
      one_shifted = omega (arith, two-pow_mono b 31 small)

      mix_shifted : bit_xor lo hi * 2 ^ b % 2 ^ 64 ≡ bit_xor lo hi * 2 ^ b
      mix_shifted = mod-eq_of_lt {m = 2 ^ 64} (
          omega (
            arith,
            mul-le-mul_right (2 ^ b) mixed-lt,
            two-pow-add b b,
            two-pow_mono (b + b) 62 (omega arith),
          ))

-- For fields of at most 31 digits remap_index exchanges the two lowest fields of an index and keeps
-- the rest.
pub remap_index-pack :
    (b c hi lo : ℕ)
    → b ≤ 31
    → hi < 2 ^ b
    → lo < 2 ^ b
    → remap_index (pack b c hi lo) b ≡ pack b c lo hi
unfolding remap_index
remap_index-pack zero c zero zero small hi_short lo_short = refl
remap_index-pack zero c (suc hi) lo small hi_short lo_short = absurd (omega arith)
remap_index-pack zero c hi (suc lo) small hi_short lo_short = absurd (omega arith)
remap_index-pack (suc b) c hi lo small hi_short lo_short =
    remap_pack_pos (suc b) c hi lo hi_short lo_short (omega arith) small

-- Every index is made of such fields.
record Fields (b i : ℕ) : Type 0 where
  c : ℕ
  hi : ℕ
  lo : ℕ
  hi_short : hi < 2 ^ b
  lo_short : lo < 2 ^ b
  whole : i ≡ pack b c hi lo

fields : (b i : ℕ) → Fields b i
fields b i = record {
  c = i / 2 ^ b / 2 ^ b;
  hi = i / 2 ^ b % 2 ^ b;
  lo = i % 2 ^ b;
  hi_short = mod-lt (i / 2 ^ b) (two-pow_pos b);
  lo_short = mod-lt i (two-pow_pos b);
  whole = ground (arith, div-add-mod' i (2 ^ b), div-add-mod' (i / 2 ^ b) (2 ^ b));
}

-- For fields of at most 31 digits, `remap_index` undoes itself, at every index.
pub remap_index_involutive : (b i : ℕ) → b ≤ 31 → remap_index (remap_index i b) b ≡ i
remap_index_involutive b i small = rw (
  f.whole,
  remap_index-pack b f.c f.hi f.lo small f.hi_short f.lo_short,
  remap_index-pack b f.c f.lo f.hi small f.lo_short f.hi_short,
)
  where
    f : Fields b i
    f = fields b i

two-pow-fields : (k b : ℕ) → 2 ^ (k + (b + b)) ≡ 2 ^ k * (2 ^ b * 2 ^ b)
two-pow-fields k b = two-pow-add k (b + b) ∙ ap (λ t. 2 ^ k * t) (two-pow-add b b)

pack-lt :
    (b k c hi lo : ℕ) → hi < 2 ^ b → lo < 2 ^ b → c < 2 ^ k → pack b c hi lo < 2 ^ (k + (b + b))
pack-lt b k c hi lo hi_short lo_short c_short = omega (
  arith,
  two-pow-fields k b,
  mul-le-mul_right {m = c + 1} {n = 2 ^ k} (2 ^ b * 2 ^ b) (omega arith),
  mul-le-mul_right {m = hi + 1} {n = 2 ^ b} (2 ^ b) (omega arith),
)

rest-lt : (b k c hi lo : ℕ) → pack b c hi lo < 2 ^ (k + (b + b)) → c < 2 ^ k
rest-lt b k c hi lo h = lt_of_mul-lt-mul_left (2 ^ b * 2 ^ b) (omega (arith, two-pow-fields k b))

-- An index below 2^k stays below 2^k, if both fields lie below it.
pub remap_index-lt : (b k i : ℕ) → b ≤ 31 → b + b ≤ k → i < 2 ^ k → remap_index i b < 2 ^ k
remap_index-lt b k i small room h =
    rw (whole, remap_index-pack b c hi lo small hi_short lo_short)
      (rw e at (
        pack-lt b (k - (b + b)) c lo hi lo_short hi_short
          (rest-lt b (k - (b + b)) c hi lo (rw (e, ← whole) h))))
  where
    open (fields b i) use {c, hi, lo, hi_short, lo_short, whole}

    e : k - (b + b) + (b + b) ≡ k
    e = omega arith
