-- ===== src/Ring/Arithmetic.antt =====
-- The checked arithmetic of a build agrees with the counters while they fit.
use atomic_queue_rs.Base.{
  ℕ, suc, ◌+◌, ◌^◌, ◌<◌, ◌≡◌, refl, ap, Bool, true, false, arith, wrapping_add, lt→ltb, le→leb,
}
use atomic_queue_rs.Program.{Profile, debug, release, ok, add_usize, sub_usize}
use atomic_queue_rs.Common.{AtomicQueueCommon}
use atomic_queue_rs.Ring.Counters.{Fits, Counts, size, counters}

module _ {cap : ℕ} {c : AtomicQueueCommon} (k : Counts cap c) where
  open k use {head_word, tail_word}

  pub head-sub-tail :
      (p : Profile) (periodic : Bool) (n : ℕ)
      → Fits p periodic n c
      → sub_usize p c.head c.tail ≡ ok (size c)
  unfolding sub_usize
  head-sub-tail debug periodic n f = rw (le→leb c.tail c.head (omega arith)) (ap ok (omega arith))
  head-sub-tail release periodic n f = refl

  pub head-add-one :
      (p : Profile) (periodic : Bool) (n : ℕ)
      → Fits p periodic (suc n) c
      → add_usize p c.head 1 ≡ ok (wrapping_add c.head 1)
  unfolding add_usize
  head-add-one debug periodic n f =
      rw (lt→ltb (c.head + 1) (2 ^ 64) (omega arith)) (ap ok (omega arith))
  head-add-one release periodic n f = refl

  pub tail-add-one :
      (p : Profile) (periodic : Bool) (n : ℕ)
      → Fits p periodic n c
      → 0 < size c
      → add_usize p c.tail 1 ≡ ok (wrapping_add c.tail 1)
  unfolding add_usize
  tail-add-one debug periodic n f some =
      rw (lt→ltb (c.tail + 1) (2 ^ 64) (omega arith)) (ap ok (omega arith))
  tail-add-one release periodic n f some = refl

  pub Fits-push :
      (p : Profile) (periodic : Bool) (n : ℕ)
      → Fits p periodic (suc n) c
      → Fits p periodic n (counters (wrapping_add c.head 1) c.tail)
  Fits-push debug periodic n f = omega arith
  Fits-push release true n f = tt
  Fits-push release false n f = omega arith

  pub Fits-pop :
      (p : Profile) (periodic : Bool) (n : ℕ)
      → Fits p periodic (suc n) c
      → 0 < size c
      → Fits p periodic n (counters c.head (wrapping_add c.tail 1))
  Fits-pop debug periodic n f some = omega arith
  Fits-pop release true n f some = tt
  Fits-pop release false n f some = omega arith

  pub Fits-idle :
      (p : Profile) (periodic : Bool) (n : ℕ) → Fits p periodic (suc n) c → Fits p periodic n c
  Fits-idle debug periodic n f = omega arith
  Fits-idle release true n f = tt
  Fits-idle release false n f = omega arith
