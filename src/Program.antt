-- ===== src/Program.antt =====
-- How Rust code that shares memory between threads is modelled. A program is a tree of atomic accesses
-- to a shared memory, so one definition of a method is run alone (`run`) and interleaved with other
-- threads (`Threads`). Accesses interleave as if sequentially consistent.
mod Faults
pub mod Laws
pub mod Threads
pub mod Rely
pub mod Duo
pub mod Turns
pub mod Many
pub mod Within
pub mod Still
pub mod Sides
pub mod Streams
pub use Faults.{Profile, debug, release, Fault, panic, undefined, spinning, Result, ok, fault}
unfoldable pub use Faults.{add_usize, sub_usize, rem_usize, array_layout}
use atomic_queue_rs.Base.{ℕ, Bool, true, false, if◌then◌else◌, ◌==◌, wrapping_add}

-- `atomic update next` is one access: it replaces the memory `m` by `update m`, and the thread goes on
-- with `next m`, which is what it learned from the access.
pub data Program (M A : Type 0) : Type 0 where
  ret : A → Program M A
  stop : Fault → Program M A
  atomic : (M → M) → (M → Program M A) → Program M A

module _ {M A B : Type 0} where
  infixl 5 ◌>>=◌
  abbrev pub ◌>>=◌ : Program M A → (A → Program M B) → Program M B
  ret a >>= f = f a
  stop e >>= f = stop e
  atomic update next >>= f = atomic update (λ m. next m >>= f)

infixl 5 ◌>>◌
abbrev pub ◌>>◌ : {M B : Type 0} → Program M (Unit {0}) → Program M B → Program M B
p >> q = p >>= λ _. q

-- A read, and a write.
abbrev pub load : {M A : Type 0} → (M → A) → Program M A
load read = atomic (λ m. m) (λ m. ret (read m))

abbrev pub store : {M : Type 0} → (M → M) → Program M (Unit {0})
store update = atomic update (λ _. ret tt)

-- Local arithmetic that may fault.
abbrev pub lift : {M A : Type 0} → Result A → Program M A
lift (ok a) = ret a
lift (fault e) = stop e

-- A run without other threads: the result, or the fault, and the memory that is left.
pub data Outcome (M A : Type 0) : Type 0 where
  done : M → A → Outcome M A
  failed : M → Fault → Outcome M A

module _ {M A : Type 0} where
  abbrev pub run : Program M A → M → Outcome M A
  run (ret a) m = done m a
  run (stop e) m = failed m e
  run (atomic update next) m = run (next m) (update m)
