-- ===== src/Program/Faults.antt =====
-- Faults, and `usize` arithmetic under both build profiles.
use atomic_queue_rs.Base.{
  ℕ, ◌+◌, ◌-◌, ◌*◌, ◌%◌, ◌^◌, ltb, ◌==◌, leb, if◌then◌else◌, wrapping_add, wrapping_sub,
}

-- Overflow checks are on in a debug build and off in a release build.
pub data Profile : Type 0 where
  debug : Profile
  release : Profile

-- `spinning` is no fault of the program: the fuel of a wait loop has run out.
pub data Fault : Type 0 where
  panic : Fault
  undefined : Fault
  spinning : Fault

pub data Result (A : Type 0) : Type 0 where
  ok : A → Result A
  fault : Fault → Result A

-- `a + b` on `usize`
unfoldable pub add_usize : Profile → ℕ → ℕ → Result ℕ
add_usize debug a b = if ltb (a + b) (2 ^ 64) then ok (a + b) else fault panic
add_usize release a b = ok (wrapping_add a b)

-- `a - b` on `usize`
unfoldable pub sub_usize : Profile → ℕ → ℕ → Result ℕ
sub_usize debug a b = if leb b a then ok (a - b) else fault panic
sub_usize release a b = ok (wrapping_sub a b)

-- `a % b` on `usize`
unfoldable pub rem_usize : ℕ → ℕ → Result ℕ
rem_usize a b = if b == 0 then fault panic else ok (a % b)

-- Room for an array of `count` elements of `bytes` bytes each: `Vec::with_capacity`, and the `unwrap` of
-- `Layout::array`, panic if it would be larger than `isize::MAX` bytes.
unfoldable pub array_layout : (bytes count : ℕ) → Result (Unit {0})
array_layout bytes count = if ltb (bytes * count) (2 ^ 63) then ok tt else fault panic
