-- ===== src/Ring/Passed.antt =====
-- A consumer that waits on an empty ring has taken a ticket, so `tail` has passed `head`.
use atomic_queue_rs.Base.{ℕ, suc, ◌-◌, ◌^◌, ◌≡◌, ap, refl, Bool, false, arith, wrapping_add, lt→leb}
use atomic_queue_rs.Program.{
  Profile, debug, release, panic, ok, fault, Result, Outcome, done, failed, sub_usize,
}
use atomic_queue_rs.Common.{AtomicQueueCommon}
use atomic_queue_rs.Ring.Counters.{Fits, Counts, size}

-- What `try_push` makes of it: a debug build panics, and a release build takes the ring for full.
abbrev pub refused : {M : Type 0} → Profile → M → Outcome M Bool
refused debug m = failed m panic
refused release m = done m false

abbrev pub passed : Profile → Result ℕ
passed debug = fault panic
passed release = ok (2 ^ 64 - 1)

pub sub_usize-passed :
    {cap : ℕ} {c : AtomicQueueCommon}
    → Counts cap c
    → (p : Profile) (periodic : Bool) (n : ℕ) → Fits p periodic (suc n) c
    → size c ≡ 0
    → sub_usize p c.head (wrapping_add c.tail 1) ≡ passed p
unfolding sub_usize
sub_usize-passed {c = c} k debug periodic n f empty =
    rw (lt→leb (wrapping_add c.tail 1) c.head (omega (arith, k.head_word, k.tail_word))) refl
sub_usize-passed k release periodic n f empty = ap ok (omega (arith, k.head_word, k.tail_word))
