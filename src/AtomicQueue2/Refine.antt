-- ===== src/AtomicQueue2/Refine.antt =====
-- A call that no other thread disturbs: what it returns, and the memory that it leaves.
use atomic_queue_rs.Base.{
  ℕ, suc, ◌≤◌, ◌<◌, ◌≡◌, ◌≢◌, Bool, true, false, Option, none, some, arith, if◌then◌else◌,
  wrapping_add, set, not,
}
use atomic_queue_rs.Program.{Program, ret, run, done, ◌>>=◌, ◌>>◌, Profile}
use atomic_queue_rs.Program.Laws.{run-done}
use atomic_queue_rs.Common.{set_head, set_tail}
use atomic_queue_rs.Ring.{Counts, size, Fits, head-sub-tail, head-add-one, tail-add-one}
use atomic_queue_rs.AtomicQueue2.{claim_head, claim_tail, try_push, try_pop, push, pop}
use atomic_queue_rs.AtomicQueue2.Slots.{Shared, empty_mark, full_mark, state, element, set_state}
use atomic_queue_rs.AtomicQueue2.Types.{Queue2}
use atomic_queue_rs.AtomicQueue2.Access.{
  get_slot, pop_spsc, pop_mpmc, do_pop_any, push_spsc, push_mpmc, do_push_any,
}
use atomic_queue_rs.AtomicQueue2.Valid.{slot, IsQueue, get_slot_lem}

module _ {A : Type 0} (self : Queue2) where
  -- A slot with its state and element replaced.
  abbrev pub put : ℕ → ℕ → Option A → Shared A → Shared A
  put i s e m = record m {
    storage = record { states = set m.storage.states i s; elements = set m.storage.elements i e };
  }

  -- The memory after an accepted push, and after a successful pop.
  abbrev pub pushed : Shared A → A → Shared A
  pushed m x =
      put (slot self m.common.head) full_mark (some x) (set_head (wrapping_add m.common.head 1) m)

  abbrev pub popped : Shared A → Shared A
  popped m =
      set_state (slot self m.common.tail) empty_mark (set_tail (wrapping_add m.common.tail 1) m)

  -- An EMPTY slot takes the value in the first round, in both modes.
  pub do_push_any-empty :
      (fuel i : ℕ) (x : A) (m : Shared A)
      → state i m ≡ empty_mark
      → run (do_push_any self (suc fuel) x i) m ≡ done (put i full_mark (some x) m) tt
  unfolding do_push_any push_spsc push_mpmc
  do_push_any-empty fuel i x m e = ground arith

  -- A FULL slot gives its value in the first round, in both modes.
  pub do_pop_any-full :
      (fuel i : ℕ) (x : A) (m : Shared A)
      → state i m ≡ full_mark
      → element i m ≡ some x
      → run (do_pop_any self (suc fuel) i) m ≡ done (set_state i empty_mark m) x
  unfolding do_pop_any pop_spsc pop_mpmc
  do_pop_any-full fuel i x m s e = ground arith

-- What follows a claim in the try methods.
abbrev pub claimed_push :
    {A : Type 0} → Profile → Queue2 → ℕ → A → ℕ → Bool → Program (Shared A) Bool
claimed_push p self fuel x head claimed =
    if not claimed
    then ret false
    else do slot ← get_slot p self head; do_push_any self fuel x slot; ret true

abbrev claimed_pop : {A : Type 0} → Profile → Queue2 → ℕ → ℕ → Bool → Program (Shared A) (Option A)
claimed_pop p self fuel tail claimed =
    if not claimed
    then ret none
    else do slot ← get_slot p self tail; value ← do_pop_any self fuel slot; ret (some value)

module _ {A : Type 0} {periodic : Bool} {self : Queue2} (p : Profile)
    (q : IsQueue periodic self) where
  module _ {cap : ℕ} (m : Shared A) (n : ℕ) (k : Counts cap m.common)
      (fits : Fits p periodic (suc n) m.common) where
    claim_head-run :
        run (claim_head p self m.common.head) m
        ≡ done (set_head (wrapping_add m.common.head 1) m) true
    unfolding claim_head
    claim_head-run = ground (arith, head-add-one k p periodic n fits)

    claim_tail-run :
        0 < size m.common
        → run (claim_tail p self m.common.tail) m
          ≡ done (set_tail (wrapping_add m.common.tail 1) m) true
    unfolding claim_tail
    claim_tail-run stored = ground (arith, tail-add-one k p periodic (suc n) fits stored)

    pub try_push-full :
        (fuel : ℕ) (x : A)
        → self.capacity ≤ size m.common
        → run (try_push p self fuel x) m ≡ done m false
    unfolding try_push
    try_push-full fuel x full = ground (arith, head-sub-tail k p periodic (suc n) fits)

    pub try_push-room :
        (fuel : ℕ) (x : A)
        → size m.common < self.capacity
        → state (slot self m.common.head) m ≡ empty_mark
        → run (try_push p self (suc fuel) x) m ≡ done (pushed self m x) true
    unfolding try_push
    try_push-room fuel x room free =
        let m' = set_head (wrapping_add m.common.head 1) m in
        ground (
          arith,
          head-sub-tail k p periodic (suc n) fits,
          run-done (claim_head p self m.common.head)
              (claimed_push p self (suc fuel) x m.common.head) m claim_head-run,
          get_slot_lem q p {A = A} m.common.head,
          run-done (do_push_any self (suc fuel) x (slot self m.common.head)) (λ _. ret true) m'
              (do_push_any-empty self fuel (slot self m.common.head) x m' free),
        )

    pub push-run :
        (fuel : ℕ) (x : A)
        → state (slot self m.common.head) m ≡ empty_mark
        → run (push p self (suc fuel) x) m ≡ done (pushed self m x) tt
    unfolding push
    push-run fuel x free = ground (
      arith,
      get_slot_lem q p {A = A} m.common.head,
      do_push_any-empty self fuel (slot self m.common.head) x
          (set_head (wrapping_add m.common.head 1) m) free,
    )

    pub try_pop-empty :
        (fuel : ℕ) → size m.common ≡ 0 → run (try_pop p {A = A} self fuel) m ≡ done m none
    unfolding try_pop
    try_pop-empty fuel empty =
        let e : m.common.tail ≡ m.common.head = omega (arith, k.head_word, k.tail_word) in
        ground arith

    module _ (fuel : ℕ) (x : A) (full : state (slot self m.common.tail) m ≡ full_mark)
        (there : element (slot self m.common.tail) m ≡ some x) where
      pub try_pop-some :
          0 < size m.common → run (try_pop p self (suc fuel)) m ≡ done (popped self m) (some x)
      unfolding try_pop
      try_pop-some stored =
          let m' = set_tail (wrapping_add m.common.tail 1) m in
          let apart : m.common.tail ≢ m.common.head = omega (arith, k.head_word, k.tail_word) in
          ground (
            arith,
            run-done (claim_tail p self m.common.tail) (claimed_pop p self (suc fuel) m.common.tail)
                m (claim_tail-run stored),
            get_slot_lem q p {A = A} m.common.tail,
            run-done (do_pop_any self (suc fuel) (slot self m.common.tail)) (λ v. ret (some v)) m'
                (do_pop_any-full self fuel (slot self m.common.tail) x m' full there),
          )

      pub pop-run : run (pop p self (suc fuel)) m ≡ done (popped self m) x
      unfolding pop
      pop-run = ground (
        arith,
        get_slot_lem q p {A = A} m.common.tail,
        do_pop_any-full self fuel (slot self m.common.tail) x
            (set_tail (wrapping_add m.common.tail 1) m) full there,
      )
