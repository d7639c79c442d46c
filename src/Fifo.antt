-- ===== src/Fifo.antt =====
-- What a queue promises to a client that no other thread disturbs: a first-in first-out list of at
-- most `capacity` elements.
use atomic_queue_rs.Base.{
  ℕ, Bool, true, false, Option, none, some, List, [], ◌∷◌, ◌++◌, length, leb, ◌==◌, if◌then◌else◌,
}

module _ {A : Type 0} where
  abbrev pub enqueue : ℕ → List A → A → Bool × List A
  enqueue capacity q x = if leb capacity (length q) then (false, q) else (true, q ++ x ∷ [])

  abbrev pub dequeue : List A → Option A × List A
  dequeue [] = (none, [])
  dequeue (x ∷ q) = (some x, q)

-- The calls that never wait, and what they return.
pub data Call (A : Type 0) : Type 0 where
  try_push : A → Call A
  try_pop : Call A
  was_size : Call A
  was_empty : Call A
  was_full : Call A

pub data Reply (A : Type 0) : Type 0 where
  accepted : Bool → Reply A
  popped : Option A → Reply A
  size : ℕ → Reply A
  answer : Bool → Reply A

module _ {A : Type 0} (capacity : ℕ) where
  abbrev pub reply : Call A → List A → Reply A × List A
  reply (try_push x) q = let (b, q') = enqueue capacity q x in (accepted b, q')
  reply try_pop q = let (o, q') = dequeue q in (popped o, q')
  reply was_size q = (size (length q), q)
  reply was_empty q = (answer (length q == 0), q)
  reply was_full q = (answer (length q == capacity), q)

  unfoldable pub replies : List (Call A) → List A → List (Reply A)
  replies [] q = []
  replies (c ∷ cs) q = let (r, q') = reply c q in r ∷ replies cs q'
