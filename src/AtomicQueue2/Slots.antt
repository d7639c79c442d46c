-- ===== src/AtomicQueue2/Slots.antt =====
-- The two arrays of src/atomic_queue2.rs, and the accesses to a slot.
use atomic_queue_rs.Base.{ℕ, Bool, Option, none, some, List, ◌==◌, if◌then◌else◌, get_or, set}
use atomic_queue_rs.Program.{Program, ret, stop, atomic, load, store, undefined}
use atomic_queue_rs.Common.{Memory}

-- The constants EMPTY and FULL
abbrev pub empty_mark : ℕ
empty_mark = 0

abbrev pub full_mark : ℕ
full_mark = 1

-- An element is `none` while its memory is uninitialized.
pub record Slots (A : Type 0) : Type 0 where
  pub states : List ℕ
  pub elements : List (Option A)

abbrev pub Shared : Type 0 → Type 0
Shared A = Memory (Slots A)

module _ {A : Type 0} where
  abbrev pub state : ℕ → Shared A → ℕ
  state i m = get_or m.storage.states i empty_mark

  abbrev pub element : ℕ → Shared A → Option A
  element i m = get_or m.storage.elements i none

  abbrev pub set_state : ℕ → ℕ → Shared A → Shared A
  set_state i s m = record m {
    storage = record { states = set m.storage.states i s; elements = m.storage.elements };
  }

  abbrev pub set_element : ℕ → Option A → Shared A → Shared A
  set_element i e m = record m {
    storage = record { states = m.storage.states; elements = set m.storage.elements i e };
  }

  abbrev pub load_state : ℕ → Program (Shared A) ℕ
  load_state i = load (state i)

  abbrev pub store_state : ℕ → ℕ → Program (Shared A) (Unit {0})
  store_state i s = store (set_state i s)

  -- `compare_exchange(...).is_ok()` on a state
  abbrev pub compare_exchange_state : ℕ → ℕ → ℕ → Program (Shared A) Bool
  compare_exchange_state i current new =
      atomic (λ m. if state i m == current then set_state i new m else m)
        (λ m. ret (state i m == current))

  -- `ptr::read` copies the value and leaves the memory as it is. It is undefined where there is no value.
  abbrev pub read_element : ℕ → Program (Shared A) A
  read_element i =
      atomic (λ m. m) (λ m. elim (element i m) [ some value ↦ ret value | none ↦ stop undefined ])

  -- `ptr::write` drops nothing.
  abbrev pub write_element : ℕ → A → Program (Shared A) (Unit {0})
  write_element i value = store (set_element i (some value))
