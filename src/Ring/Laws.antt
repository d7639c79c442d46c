-- ===== src/Ring/Laws.antt =====
-- What the slots of a ring must satisfy.
use atomic_queue_rs.Base.{ℕ, ◌+◌, ◌%◌, ◌^◌, ◌<◌, ◌≤◌, ◌≡◌, ◌≢◌, Bool, true}

-- `slot` gives the slot of a ticket. Tickets that are less than `cap` apart have different slots, and
-- `cap` tickets later the slots come round. A `periodic` ring survives the wrap of the counters.
pub record IsRing (cap : ℕ) (slot : ℕ → ℕ) (periodic : Bool) : Type 0 where
  pub pos : 0 < cap
  pub small : cap ≤ 2 ^ 63
  pub in_range : (i : ℕ) → slot i < cap
  pub apart : (i k : ℕ) → 0 < k → k < cap → slot (i + k) ≢ slot i
  pub round : (i : ℕ) → slot (i + cap) ≡ slot i
  pub wraps : (i : ℕ) → periodic ≡ true → slot (i % 2 ^ 64) ≡ slot i
