-- ===== src/Common.antt =====
-- src/common.rs: the two counters that every queue has, and the traits of the queues. `Memory` is what
-- the threads share: the counters, and the storage `S` of the queue at hand.
pub mod Optimist
pub mod Client
pub mod Sequential
pub mod Waiting
pub mod Traffic
pub mod Tickets
use atomic_queue_rs.Base.{ℕ, Bool, true, false, Option, List, ◌==◌, if◌then◌else◌, wrapping_add}
use atomic_queue_rs.Program.{Program, ret, atomic, ◌>>=◌, load, lift, Profile, sub_usize}

pub record AtomicQueueCommon : Type 0 where
  pub head : ℕ
  pub tail : ℕ

pub record Memory (S : Type 0) : Type 0 where
  pub common : AtomicQueueCommon
  pub storage : S

-- `AtomicQueueCommon::new`
abbrev pub new_common : AtomicQueueCommon
new_common = record { head = 0; tail = 0 }

module _ {S : Type 0} where
  abbrev pub set_head : ℕ → Memory S → Memory S
  set_head v m = record m { common = record { head = v; tail = m.common.tail } }

  abbrev pub set_tail : ℕ → Memory S → Memory S
  set_tail v m = record m { common = record { head = m.common.head; tail = v } }

  -- The accesses to `head` and `tail`: `load`, `fetch_add`, and `compare_exchange(...).is_ok()`.
  abbrev pub load_head : Program (Memory S) ℕ
  load_head = load (λ m. m.common.head)

  abbrev pub load_tail : Program (Memory S) ℕ
  load_tail = load (λ m. m.common.tail)

  abbrev pub fetch_add_head : ℕ → Program (Memory S) ℕ
  fetch_add_head n =
      atomic (λ m. set_head (wrapping_add m.common.head n) m) (λ m. ret m.common.head)

  abbrev pub fetch_add_tail : ℕ → Program (Memory S) ℕ
  fetch_add_tail n =
      atomic (λ m. set_tail (wrapping_add m.common.tail n) m) (λ m. ret m.common.tail)

  abbrev pub compare_exchange_head : ℕ → ℕ → Program (Memory S) Bool
  compare_exchange_head current new =
      atomic (λ m. if m.common.head == current then set_head new m else m)
        (λ m. ret (m.common.head == current))

  abbrev pub compare_exchange_tail : ℕ → ℕ → Program (Memory S) Bool
  compare_exchange_tail current new =
      atomic (λ m. if m.common.tail == current then set_tail new m else m)
        (λ m. ret (m.common.tail == current))

  unfoldable pub was_size : Profile → Program (Memory S) ℕ
  was_size p = do head ← load_head; tail ← load_tail; lift (sub_usize p head tail)

  unfoldable pub was_empty : Program (Memory S) Bool
  was_empty = do head ← load_head; tail ← load_tail; ret (head == tail)

  unfoldable pub was_full : Profile → ℕ → Program (Memory S) Bool
  unfolding was_size
  was_full p capacity = do size ← was_size p; ret (size == capacity)

-- The trait `AtomicQueueOps<T>`, for a queue whose threads share a memory `M`.
pub record AtomicQueueOps (M T : Type 0) : Type 0 where
  pub try_push : T → Program M Bool
  pub try_pop : Program M (Option T)
  pub push : T → Program M (Unit {0})
  pub pop : Program M T
  pub capacity : ℕ
  pub was_size : Program M ℕ
  pub was_empty : Program M Bool
  pub was_full : Program M Bool
