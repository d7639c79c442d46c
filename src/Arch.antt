-- ===== src/Arch.antt =====
-- src/arch.rs: capacities that are powers of two, and the shuffling of slot indices.
pub mod RoundUp
pub mod Remap
pub mod Shuffle
mod Tests
use atomic_queue_rs.Base.{
  ℕ, ◌+◌, ◌-◌, ◌*◌, Bool, not, ltb, ◌==◌, if◌then◌else◌, shr, shl, bit_and, bit_or, bit_xor,
}
use atomic_queue_rs.Program.{Program, ret, Profile, Result, ok, add_usize}

-- The targets that src/arch.rs tells apart; `x86` and `arm` stand for both widths.
pub data Target : Type 0 where
  x86 arm powerpc s390x riscv64 other : Target

-- `CACHE_LINE_SIZE`
abbrev pub cache_line_size : Target → ℕ
cache_line_size x86 = 64
cache_line_size arm = 64
cache_line_size powerpc = 128
cache_line_size s390x = 256
cache_line_size riscv64 = 64
cache_line_size other = 64

-- `spin_loop_pause`: a hint to the processor, with no effect on memory.
abbrev pub spin_loop_pause : {M : Type 0} → Program M (Unit {0})
spin_loop_pause = ret tt

-- `n |= n >> k`
unfoldable pub smear : ℕ → ℕ → ℕ
smear k n = bit_or n (shr n k)

-- On a target whose pointers are 64 bits wide.
unfoldable pub round_up_to_power_of_2 : Profile → ℕ → Result ℕ
round_up_to_power_of_2 p n =
    if n == 0
    then ok 1
    else let n1 = smear 1 (n - 1) in
      let n2 = smear 2 n1 in
      let n4 = smear 4 n2 in
      let n8 = smear 8 n4 in let n16 = smear 16 n8 in let n32 = smear 32 n16 in add_usize p n32 1

unfoldable pub get_cache_line_index_bits : ℕ → ℕ
get_cache_line_index_bits e =
    if e == 256
    then 8
    else if e == 128
    then 7
    else if e == 64
    then 6
    else if e == 32
    then 5
    else if e == 16
    then 4
    else if e == 8
    then 3
    else if e == 4
    then 2
    else if e == 2
    then 1
    else 0

unfoldable pub get_index_shuffle_bits : Bool → ℕ → ℕ → ℕ
unfolding get_cache_line_index_bits
get_index_shuffle_bits minimize_contention array_size elements_per_cache_line =
    if not minimize_contention
    then 0
    else let bits = get_cache_line_index_bits elements_per_cache_line in
      let min_size = shl 1 (bits * 2) in if ltb array_size min_size then 0 else bits

unfoldable pub remap_index : ℕ → ℕ → ℕ
remap_index index bits =
    if bits == 0
    then index
    else let mix_mask = shl 1 bits - 1 in
      let mix = bit_and (bit_xor index (shr index bits)) mix_mask in
      bit_xor (bit_xor index mix) (shl mix bits)
