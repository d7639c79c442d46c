-- ===== src/AtomicQueue/Once.antt =====
-- One producer and one consumer of src/atomic_queue.rs, while no slot is used twice: what comes out is
-- what went in, in order.
pub mod Accesses
pub mod Fifo
mod Tests
use atomic_queue_rs.Base.{ℕ, ◌+◌, ◌≤◌, ◌<◌, ◌≡◌, some, List, length}
use atomic_queue_rs.Program.Streams.{get_elem?}
use atomic_queue_rs.AtomicQueue.{Queue}
use atomic_queue_rs.AtomicQueue.Value.{Shared, raw}
use atomic_queue_rs.AtomicQueue.Valid.{slot}

-- How many tickets the producer has taken, and elements it has stored.
pub record Producer : Type 0 where
  pub claimed : ℕ
  pub written : ℕ

-- How many tickets the consumer has taken, elements it has loaded, and slots it has cleared.
pub record Consumer : Type 0 where
  pub claimed : ℕ
  pub taken : ℕ
  pub cleared : ℕ

-- Between two calls.
abbrev pub pushed : ℕ → Producer
pushed n = record { claimed = n; written = n }

abbrev pub popped : ℕ → Consumer
popped n = record { claimed = n; taken = n; cleared = n }

-- The memory, when the producer is to push `xs`.
pub record Shares (self : Queue) (xs : List ℕ) (g : Producer) (h : Consumer) (m : Shared)
    : Type 0 where
  pub head_at : m.common.head ≡ g.claimed
  pub tail_at : m.common.tail ≡ h.claimed
  pub sized : length m.storage ≡ self.capacity
  pub order : (h.cleared ≤ h.taken) × (h.taken ≤ h.cleared + 1) × (h.taken ≤ g.written)
  pub known : g.written ≤ length xs
  pub stored : (i : ℕ) → h.cleared ≤ i → i < g.written → some (raw (slot self i) m) ≡ get_elem? xs i
  pub free : (i : ℕ) → g.written ≤ i → i < self.capacity → raw (slot self i) m ≡ 0
