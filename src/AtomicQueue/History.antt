-- ===== src/AtomicQueue/History.antt =====
-- Any number of threads that share an `AtomicQueue` or `AtomicQueueB` of src/atomic_queue.rs, while no
-- slot is used twice: which thread has which ticket, and where each thread stands.
pub mod Share
pub mod Claims
pub mod Storing
pub mod Taking
pub mod Pushing
pub mod Popping
pub mod Outcome
mod Tests
use atomic_queue_rs.Base.{
  ℕ, zero, suc, ◌+◌, ◌^◌, ◌≤◌, ◌<◌, ◌≡◌, ◌≢◌, List, [], ◌∷◌, ◌++◌, length, ◌==◌, if◌then◌else◌,
}
use atomic_queue_rs.Program.Threads.{assign}
use atomic_queue_rs.AtomicQueue.{Queue}
use atomic_queue_rs.AtomicQueue.Value.{Shared, raw}
use atomic_queue_rs.AtomicQueue.Valid.{slot, IsElement}

-- The elements of the tickets below `n` that thread `i` has, in the order of the tickets. `log` gives
-- the element of a ticket, and `owner` the thread.
abbrev pub share : (owner log : ℕ → ℕ) → ℕ → ℕ → List ℕ
share owner log i zero = []
share owner log i (suc n) =
    if owner n == i then share owner log i n ++ log n ∷ [] else share owner log i n

-- What is known of each ticket: the element that is pushed with it, the threads that push and pop with
-- it, and how far its slot has come (0 before the element is stored, 1 while it is there, 2 when it
-- has been taken).
pub record Tickets : Type 0 where
  pub log : ℕ → ℕ
  pub pusher : ℕ → ℕ
  pub popper : ℕ → ℕ
  pub stage : ℕ → ℕ

-- What a thread does with a ticket, and the element that it has in hand.
pub data Phase : Type 0 where
  idle : Phase
  pushing : (w x : ℕ) → Phase
  popping : (r : ℕ) → Phase
  clearing : (r x : ℕ) → Phase

-- `bound` is the ticket after the last one with which the thread has popped.
pub record Part : Type 0 where
  pub sent : List ℕ
  pub received : List ℕ
  pub bound : ℕ
  pub phase : Phase

abbrev pub part : List ℕ → List ℕ → ℕ → Phase → Part
part a b n p = record { sent = a; received = b; bound = n; phase = p }

abbrev pub resting : List ℕ → List ℕ → ℕ → Part
resting a b n = part a b n Phase.idle

-- Thread `i` takes the next push ticket, for element `x`, or the next pop ticket.
abbrev pub push_claimed : Tickets → ℕ → ℕ → ℕ → Tickets
push_claimed s head i x = record s { log = assign s.log head x; pusher = assign s.pusher head i }

abbrev pub pop_claimed : Tickets → ℕ → ℕ → Tickets
pop_claimed s tail i = record s { popper = assign s.popper tail i }

-- Ticket `t` reaches stage `v`.
abbrev pub staged : Tickets → ℕ → ℕ → Tickets
staged s t v = record s { stage = assign s.stage t v }

-- Thread `i` has no ticket from `b` on and below `c`.
abbrev pub Gap : (owner : ℕ → ℕ) → ℕ → ℕ → ℕ → Type 0
Gap owner i b c = (t : ℕ) → b ≤ t → t < c → owner t ≢ i

pub record Takes (s : Tickets) (i b tail r : ℕ) : Type 0 where
  pub since : b ≤ r
  pub before : r < tail
  pub mine : s.popper r ≡ i
  pub none_before : Gap s.popper i b r
  pub none_after : Gap s.popper i (suc r) tail
  pub there_yet : s.stage r ≤ 1

abbrev pub Does : Tickets → ℕ → ℕ → ℕ → ℕ → Phase → Type 0
Does s i b head tail Phase.idle = Gap s.popper i b tail
Does s i b head tail (Phase.pushing w x) =
    Gap s.popper i b tail × (w < head) × (s.pusher w ≡ i) × (s.stage w ≡ 0) × (s.log w ≡ x)
Does s i b head tail (Phase.popping r) = Takes s i b tail r
Does s i b head tail (Phase.clearing r x) = Takes s i b tail r × (s.stage r ≡ 1) × (s.log r ≡ x)

-- One thread.
pub record Stands (s : Tickets) (head tail i : ℕ) (g : Part) : Type 0 where
  pub has_sent : g.sent ≡ share s.pusher s.log i head
  pub has_received : g.received ≡ share s.popper s.log i g.bound
  pub bound_head : g.bound ≤ head
  pub bound_tail : g.bound ≤ tail
  pub does : Does s i g.bound head tail g.phase

-- All threads and the memory.
pub record Core (self : Queue) (parts : ℕ → Part) (s : Tickets) (m : Shared) : Type 0 where
  pub sized : length m.storage ≡ self.capacity
  pub empty : (t : ℕ) → t < self.capacity → s.stage t ≡ 0 → raw (slot self t) m ≡ 0
  pub stored : (t : ℕ) → t < self.capacity → s.stage t ≡ 1 → raw (slot self t) m ≡ s.log t
  pub fresh : (t : ℕ) → m.common.head ≤ t → s.stage t ≡ 0
  pub untaken : (t : ℕ) → m.common.tail ≤ t → s.stage t ≤ 1
  pub words : (t : ℕ) → t < m.common.head → IsElement (s.log t)
  pub all_stand : (i : ℕ) → Stands s m.common.head m.common.tail i (parts i)

-- After `n` steps the counters have not wrapped, and while they have not passed the capacity all is
-- well.
pub record Inv (self : Queue) (n : ℕ) (parts : ℕ → Part) (s : Tickets) (m : Shared) : Type 0 where
  pub counted : n < 2 ^ 64 → (m.common.head ≤ n) × (m.common.tail ≤ n)
  pub core :
      n < 2 ^ 64
      → m.common.head ≤ self.capacity
      → m.common.tail ≤ self.capacity
      → Core self parts s m
