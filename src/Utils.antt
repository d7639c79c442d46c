-- ===== src/Utils.antt =====
-- src/utils.rs: index strategies, and the loops that fill and destroy a range of memory.
pub mod Laws
pub mod Aligned
mod Tests
use atomic_queue_rs.Base.{
  ℕ, zero, suc, ◌+◌, List, [], ◌∷◌, Option, none, some, ltb, if◌then◌else◌, get_or, set, length,
  bit_and, replicate,
}
use atomic_queue_rs.Program.{
  Program, ret, stop, atomic, ◌>>=◌, ◌>>◌, Profile, undefined, Result, ok, fault, sub_usize,
  rem_usize,
}

-- The trait `IndexStrategy`
pub record IndexStrategy : Type 0 where
  pub get_index : (position capacity : ℕ) → Result ℕ

unfoldable pub simple_index : IndexStrategy
simple_index = record { get_index = λ position capacity. rem_usize position capacity }

unfoldable pub power_of_2_index : Profile → IndexStrategy
power_of_2_index p = record {
  get_index = λ position capacity. elim (sub_usize p capacity 1) [
    | ok mask ↦ ok (bit_and position mask)
    | fault e ↦ fault e
  ];
}

-- A memory of cells, `none` where there is no value. An access beyond its end is undefined.
abbrev pub Cells : Type 0 → Type 0
Cells T = List (Option T)

abbrev pub cell : {T : Type 0} → ℕ → Cells T → Option T
cell i m = get_or m i none

module _ {T : Type 0} where
  -- `Initialize::initialize` of a `Copy` type: an assignment
  unfoldable pub initialize : ℕ → T → Program (Cells T) (Unit {0})
  initialize i value =
      atomic (λ m. set m i (some value)) (λ m. if ltb i (length m) then ret tt else stop undefined)

  -- `ptr::drop_in_place`; it returns the value that is dropped. A destructor may run, which is not
  -- modelled; a `Copy` type has none, and the cell keeps its value.
  unfoldable pub drop_in_place : ℕ → Program (Cells T) T
  drop_in_place i =
      atomic (λ m. m) (λ m. elim (cell i m) [ some value ↦ ret value | none ↦ stop undefined ])

  -- The loops, from `i` on, with `k` rounds to go.
  unfoldable pub fill_from : (ptr : ℕ) (value : T) (k i : ℕ) → Program (Cells T) (Unit {0})
  fill_from ptr value zero i = ret tt
  fill_from ptr value (suc k) i = do initialize (ptr + i) value; fill_from ptr value k (suc i)

  unfoldable pub uninitialized_fill_n : (ptr count : ℕ) (value : T) → Program (Cells T) (Unit {0})
  uninitialized_fill_n ptr count value = fill_from ptr value count 0

  unfoldable pub destroy_from : (ptr k i : ℕ) → Program (Cells T) (List T)
  destroy_from ptr zero i = ret []
  destroy_from ptr (suc k) i = do
    dropped ← drop_in_place (ptr + i)
    rest ← destroy_from ptr k (suc i)
    ret (dropped ∷ rest)

  -- It returns the values that are dropped, in their order.
  unfoldable pub destroy_n : (ptr count : ℕ) → Program (Cells T) (List T)
  destroy_n ptr count = destroy_from ptr count 0

-- `AlignedArray<T, N>`, whose `data` is all its memory.
abbrev pub AlignedArray : Type 0 → Type 0
AlignedArray T = Cells T

module _ {T : Type 0} where
  unfoldable pub new_uninit : ℕ → AlignedArray T
  new_uninit n = replicate n none

  -- A pointer is the index of a cell.
  unfoldable pub as_ptr : AlignedArray T → ℕ
  as_ptr self = 0

  unfoldable pub as_mut_ptr : AlignedArray T → ℕ
  as_mut_ptr self = 0
