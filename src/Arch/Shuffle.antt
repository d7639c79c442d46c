-- ===== src/Arch/Shuffle.antt =====
-- How many digits of an index are shuffled, and when the shuffling is a permutation of the slots.
use native.Mathlib.Nat.{div-lt_iff_lt-mul}
use atomic_queue_rs.Base.{
  ℕ, ◌+◌, ◌*◌, ◌/◌, ◌^◌, ◌≤◌, ◌<◌, ◌≡◌, refl, ap, arith, Bool, true, false, two-pow_mono, ◌⊎◌, inl,
  inr, two-pow-reflects, shl,
}
use atomic_queue_rs.Arch.{get_cache_line_index_bits, get_index_shuffle_bits, remap_index}
use atomic_queue_rs.Arch.Remap.{remap_index_involutive, remap_index-lt}

index_bits-le : (e : ℕ) → get_cache_line_index_bits e ≤ 8
unfolding get_cache_line_index_bits
index_bits-le e = ground arith

one_shl : (n : ℕ) → n ≤ 63 → shl 1 n ≡ 2 ^ n
one_shl n h = omega (arith, two-pow_mono n 63 h)

-- Both fields that are exchanged lie within an array of `size` slots.
pub shuffle_bits_fit :
    (minimize : Bool) (size e : ℕ)
    → (get_index_shuffle_bits minimize size e ≤ 8)
      × ((get_index_shuffle_bits minimize size e ≡ 0)
          ⊎ (2 ^ (get_index_shuffle_bits minimize size e * 2) ≤ size))
unfolding get_index_shuffle_bits
shuffle_bits_fit false size e = (omega arith, inl refl)
shuffle_bits_fit true size e =
    ground (arith, index_bits-le e, one_shl (get_cache_line_index_bits e * 2))

-- In an array of 2^k slots the remapped index of a slot is a slot, with the number of digits that
-- get_index_shuffle_bits chooses for the array.
pub shuffle-lt :
    (minimize : Bool) (k e i : ℕ)
    → i < 2 ^ k
    → remap_index i (get_index_shuffle_bits minimize (2 ^ k) e) < 2 ^ k
unfolding remap_index
shuffle-lt minimize k e i h = elim (shuffle_bits_fit minimize (2 ^ k) e).1 [
  | inl none ↦ rw none h
  | inr room ↦
      remap_index-lt bits k i (omega (arith, few))
        (two-pow-reflects (bits + bits) k (
          omega (
            arith,
            ap (λ (t : ℕ). 2 ^ t) (let d : bits * 2 ≡ bits + bits = omega arith in d),
            room,
          )))
        h
]
  where
    bits : ℕ
    bits = get_index_shuffle_bits minimize (2 ^ k) e

    few : get_index_shuffle_bits minimize (2 ^ k) e ≤ 8
    few = (shuffle_bits_fit minimize (2 ^ k) e).0

-- Remapping an index twice, with the number of digits that get_index_shuffle_bits chooses, gives
-- the index back, so different indices have different slots.
pub shuffle_involutive :
    (minimize : Bool) (size e i : ℕ)
    → remap_index
        (remap_index i (get_index_shuffle_bits minimize size e))
        (get_index_shuffle_bits minimize size e)
      ≡ i
shuffle_involutive minimize size e i =
    remap_index_involutive (get_index_shuffle_bits minimize size e) i
      (omega (arith, (shuffle_bits_fit minimize size e).0))

-- If one padded state is at least as large as a cache line, no index is remapped, whatever the
-- array and the settings.
pub no_shuffle :
    (minimize : Bool) (size line padded i : ℕ)
    → line ≤ padded
    → 0 < padded
    → remap_index i (get_index_shuffle_bits minimize size (line / padded)) ≡ i
unfolding remap_index get_index_shuffle_bits get_cache_line_index_bits
no_shuffle false size line padded i h pos = refl
no_shuffle true size line padded i h pos =
    let few : line / padded < 2 = (div-lt_iff_lt-mul pos).1 (omega arith) in ground arith

-- In an array of 2^k slots the remapped index of a slot is a slot, and remapping it again gives the
-- slot back, so that no two slots share one, with the number of digits that get_index_shuffle_bits
-- chooses for the array.
pub shuffle_permutes :
    (minimize : Bool) (k e i : ℕ)
    → i < 2 ^ k
    → (remap_index i (get_index_shuffle_bits minimize (2 ^ k) e) < 2 ^ k)
      × (remap_index
            (remap_index i (get_index_shuffle_bits minimize (2 ^ k) e))
            (get_index_shuffle_bits minimize (2 ^ k) e)
          ≡ i)
shuffle_permutes minimize k e i h =
    (shuffle-lt minimize k e i h, shuffle_involutive minimize (2 ^ k) e i)
