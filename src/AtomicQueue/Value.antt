-- ===== src/AtomicQueue/Value.antt =====
-- `AtomicValue<T>` of src/atomic_queue.rs, and the primitive types that src/lib.rs lets it hold.
use atomic_queue_rs.Base.{ℕ, ◌*◌, ◌%◌, ◌^◌, Bool, List, leb, ◌==◌, if◌then◌else◌, get_or, set}
use atomic_queue_rs.Program.{
  Program, ret, atomic, ◌>>=◌, load, store, lift, undefined, Result, ok, fault,
}
use atomic_queue_rs.Common.{Memory}

-- The implementations of `Element`. A value is its bit pattern, so `Default` is 0 and `PartialEq` is
-- equality of patterns.
pub data Element : Type 0 where
  u8 u16 u32 u64 usize i8 i16 i32 i64 isize : Element

-- `size_of::<T>()`, on a 64-bit target
abbrev pub size_of : Element → ℕ
size_of u8 = 1
size_of u16 = 2
size_of u32 = 4
size_of u64 = 8
size_of usize = 8
size_of i8 = 1
size_of i16 = 2
size_of i32 = 4
size_of i64 = 8
size_of isize = 8

-- `std::mem::transmute_copy` reads the destination's bytes from the start of the source, the low ones
-- on a little-endian target. It is undefined if the source has fewer bytes.
unfoldable pub transmute_copy : (source target value : ℕ) → Result ℕ
transmute_copy source target value =
    if leb target source then ok (value % 2 ^ (8 * target)) else fault undefined

-- A shared memory of slots, each the `usize` of an `AtomicValue`.
abbrev pub Shared : Type 0
Shared = Memory (List ℕ)

abbrev pub raw : ℕ → Shared → ℕ
raw slot m = get_or m.storage slot 0

abbrev pub set_raw : ℕ → ℕ → Shared → Shared
set_raw slot v m = record m { storage = set m.storage slot v }

-- The methods of the `AtomicValue<T>` in a slot.
module _ (T : Element) (slot : ℕ) where
  unfoldable pub load_value : Program Shared ℕ
  load_value = do word ← load (raw slot); lift (transmute_copy 8 (size_of T) word)

  unfoldable pub store_value : ℕ → Program Shared (Unit {0})
  store_value value = do word ← lift (transmute_copy (size_of T) 8 value); store (set_raw slot word)

  unfoldable pub swap_value : ℕ → Program Shared ℕ
  swap_value value = do
    word ← lift (transmute_copy (size_of T) 8 value)
    old ← atomic (set_raw slot word) (λ m. ret (raw slot m))
    lift (transmute_copy 8 (size_of T) old)

  -- `true` stands for `Ok`, `false` for `Err`.
  unfoldable pub compare_exchange_value : ℕ → ℕ → Program Shared (Bool × ℕ)
  compare_exchange_value current new = do
    current_word ← lift (transmute_copy (size_of T) 8 current)
    new_word ← lift (transmute_copy (size_of T) 8 new)
    (won, old) ←
        atomic (λ m. if raw slot m == current_word then set_raw slot new_word m else m)
          (λ m. ret (raw slot m == current_word, raw slot m))
    found ← lift (transmute_copy 8 (size_of T) old)
    ret (won, found)
