-- ===== src/Ring/Counters.antt =====
-- The counters of a ring: how far apart they are, with wrap-around.
use atomic_queue_rs.Base.{
  ℕ, ◌+◌, ◌%◌, ◌^◌, ◌≤◌, ◌<◌, ◌≡◌, refl, ap, ◌∙◌, Bool, true, false, arith, wrapping_add,
  wrapping_sub,
}
use atomic_queue_rs.Program.{Profile, debug, release}
use atomic_queue_rs.Common.{AtomicQueueCommon}
use atomic_queue_rs.Ring.Laws.{IsRing}

abbrev pub size : AtomicQueueCommon → ℕ
size c = wrapping_sub c.head c.tail

-- The counters are words, and at most `cap` apart.
pub record Counts (cap : ℕ) (c : AtomicQueueCommon) : Type 0 where
  pub head_word : c.head < 2 ^ 64
  pub tail_word : c.tail < 2 ^ 64
  pub within : size c ≤ cap

-- The next `n` tickets overflow no counter. A release build of a periodic ring may let them wrap.
abbrev pub Fits : Profile → Bool → ℕ → AtomicQueueCommon → Type 0
Fits release true n c = Unit
Fits release false n c = (c.tail ≤ c.head) × (c.head + n < 2 ^ 64)
Fits debug periodic n c = (c.tail ≤ c.head) × (c.head + n < 2 ^ 64)

abbrev pub counters : ℕ → ℕ → AtomicQueueCommon
counters h t = record { head = h; tail = t }

module _ {cap : ℕ} {c : AtomicQueueCommon} (small : cap ≤ 2 ^ 63) (k : Counts cap c) where
  open k use {head_word, tail_word, within}

  pub size-push : size c < cap → size (counters (wrapping_add c.head 1) c.tail) ≡ size c + 1
  size-push room = omega arith

  pub size-pop : 0 < size c → size (counters c.head (wrapping_add c.tail 1)) + 1 ≡ size c
  size-pop some = omega arith

module _ {cap : ℕ} {slot : ℕ → ℕ} (c : AtomicQueueCommon) where
  -- The slot of `head` is the one after the window.
  pub head-slot :
      (p : Profile) (periodic : Bool) (ring : IsRing cap slot periodic) (n : ℕ)
      → Counts cap c
      → Fits p periodic n c
      → slot c.head ≡ slot (c.tail + size c)
  head-slot release true ring n k f =
      ap slot (let e : c.head ≡ (c.tail + size c) % 2 ^ 64 = omega arith in e)
      ∙ ring.wraps (c.tail + size c) refl
  head-slot release false ring n k f = ap slot (omega arith)
  head-slot debug periodic ring n k f = ap slot (omega arith)
