-- ===== src/AtomicQueue2/Spsc.antt =====
-- One producer and one consumer of an `AtomicQueue2` or `AtomicQueueB2` of src/atomic_queue2.rs in its
-- SPSC mode: how far each has come, and what they share.
pub mod Slots
pub mod Pushing
pub mod Popping
pub mod Fifo
pub mod Guards
pub mod TryPushing
pub mod TryPopping
pub mod Optimist
pub mod Rest
pub mod Turns
mod Tests
use atomic_queue_rs.Base.{
  ℕ, zero, suc, ◌+◌, ◌^◌, ◌≤◌, ◌<◌, ◌≡◌, Option, none, some, List, [], ◌∷◌, length, get_or,
}
use atomic_queue_rs.Program.{Program, ret, ◌>>=◌, ◌>>◌, Profile}
use atomic_queue_rs.AtomicQueue2.{push, pop}
use atomic_queue_rs.Program.Streams.{get_elem?}
use atomic_queue_rs.AtomicQueue2.Slots.{Shared, state, element, empty_mark, full_mark}
use atomic_queue_rs.AtomicQueue2.Types.{Queue2}
use atomic_queue_rs.AtomicQueue2.Valid.{slot}

-- How many tickets the producer has taken, slots it has found EMPTY, elements it has written, and
-- slots it has marked FULL.
pub record Producer : Type 0 where
  pub claimed : ℕ
  pub cleared : ℕ
  pub written : ℕ
  pub published : ℕ

-- How many tickets the consumer has taken, slots it has found FULL, elements it has read, and slots it
-- has marked EMPTY.
pub record Consumer : Type 0 where
  pub claimed : ℕ
  pub found : ℕ
  pub taken : ℕ
  pub released : ℕ

-- Between two calls.
abbrev pub pushed : ℕ → Producer
pushed n = record { claimed = n; cleared = n; written = n; published = n }

abbrev pub popped : ℕ → Consumer
popped n = record { claimed = n; found = n; taken = n; released = n }

-- The memory, when the producer is to push `xs`.
pub record Shares {A : Type 0} (self : Queue2) (xs : List A) (g : Producer) (h : Consumer)
    (m : Shared A) : Type 0 where
  pub head_at : m.common.head ≡ g.claimed
  pub tail_at : m.common.tail ≡ h.claimed
  pub states_sized : length m.storage.states ≡ self.capacity
  pub elements_sized : length m.storage.elements ≡ self.capacity
  pub producer_order :
      (g.published ≤ g.written) × (g.written ≤ g.cleared) × (g.cleared ≤ g.published + 1)
  pub consumer_order : (h.released ≤ h.taken) × (h.taken ≤ h.found) × (h.found ≤ h.released + 1)
  pub behind : h.found ≤ g.published
  pub ahead : g.cleared ≤ h.released + self.capacity
  pub known : g.written ≤ length xs
  pub full : (i : ℕ) → h.released ≤ i → i < g.published → state (slot self i) m ≡ full_mark
  pub free :
      (i : ℕ)
      → g.published ≤ i
      → i < h.released + self.capacity
      → state (slot self i) m ≡ empty_mark
  pub stored : (i : ℕ) → h.taken ≤ i → i < g.written → element (slot self i) m ≡ get_elem? xs i
