-- ===== src/Arch/Tests.antt =====
-- The tests of src/arch.rs, and the theorems about it at concrete inputs.
use atomic_queue_rs.Base.{ℕ, ◌+◌, ◌*◌, ◌^◌, ◌/◌, ◌≤◌, ◌<◌, ◌≡◌, refl, ◌⊎◌, arith, true}
use atomic_queue_rs.Program.{debug, release, panic, ok, fault, add_usize}
use atomic_queue_rs.Arch.{smear, round_up_to_power_of_2, get_index_shuffle_bits, remap_index}
use atomic_queue_rs.Arch.RoundUp.{IsLeastPower, round_up_to_power_of_2_lem, round_up_overflow}
use atomic_queue_rs.Arch.Remap.{remap_index-pack}
use atomic_queue_rs.Arch.Shuffle.{shuffle_bits_fit, shuffle_permutes, no_shuffle}

-- `test_round_up_to_power_of_2`
rounds :
    (round_up_to_power_of_2 debug 0 ≡ ok 1)
    × (round_up_to_power_of_2 debug 5 ≡ ok 8)
    × (round_up_to_power_of_2 debug 1024 ≡ ok 1024)
    × (round_up_to_power_of_2 debug 1025 ≡ ok 2048)
unfolding round_up_to_power_of_2 smear add_usize
rounds = (refl, refl, refl, refl)

-- `test_remap_index`
remaps :
    (remap_index 42 0 ≡ 42)
    × (remap_index 0b000_001 3 ≡ 0b001_000)
    × (remap_index 0b001_000 3 ≡ 0b000_001)
    × (remap_index 0b001_010 3 ≡ 0b010_001)
unfolding remap_index
remaps = (refl, refl, refl, refl)

shuffles : (get_index_shuffle_bits true 1024 64 ≡ 0) × (get_index_shuffle_bits true 4096 64 ≡ 6)
unfolding get_index_shuffle_bits
shuffles = (refl, refl)

round_up_to_power_of_2_lem_example :
    (c : ℕ) × (round_up_to_power_of_2 release 1000 ≡ ok c) × IsLeastPower 1000 c
round_up_to_power_of_2_lem_example = round_up_to_power_of_2_lem release 1000 (omega arith)

round_up_overflow_example :
    (round_up_to_power_of_2 debug (2 ^ 63 + 1) ≡ fault panic)
    × (round_up_to_power_of_2 release (2 ^ 63 + 1) ≡ ok 0)
round_up_overflow_example = round_up_overflow (2 ^ 63 + 1) (omega arith) (omega arith)

remap_index-pack_example : remap_index ((5 * 2 ^ 3 + 1) * 2 ^ 3 + 2) 3 ≡ (5 * 2 ^ 3 + 2) * 2 ^ 3 + 1
remap_index-pack_example = remap_index-pack 3 5 1 2 (omega arith) (omega arith) (omega arith)

shuffle_bits_fit_example :
    (get_index_shuffle_bits true 1024 2 ≤ 8)
    × ((get_index_shuffle_bits true 1024 2 ≡ 0)
        ⊎ (2 ^ (get_index_shuffle_bits true 1024 2 * 2) ≤ 1024))
shuffle_bits_fit_example = shuffle_bits_fit true 1024 2

-- x86-64: cache lines of 64 bytes, padded states of 128
no_shuffle_example : remap_index 1000 (get_index_shuffle_bits true 1024 (64 / 128)) ≡ 1000
no_shuffle_example = no_shuffle true 1024 64 128 1000 (omega arith) (omega arith)

shuffle_permutes_example :
    (remap_index 1000 (get_index_shuffle_bits true (2 ^ 10) 16) < 2 ^ 10)
    × (remap_index
          (remap_index 1000 (get_index_shuffle_bits true (2 ^ 10) 16))
          (get_index_shuffle_bits true (2 ^ 10) 16)
        ≡ 1000)
shuffle_permutes_example = shuffle_permutes true 10 16 1000 (omega arith)
