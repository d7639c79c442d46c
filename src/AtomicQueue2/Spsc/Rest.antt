-- ===== src/AtomicQueue2/Spsc/Rest.antt =====
-- What one producer and one consumer leave when both are done, and what dropping the queue then drops.
use mathlib.Core.Path.{subst}
use mathlib.Core.List.{Perm}
use atomic_queue_rs.Base.{
  ℕ, zero, suc, ◌+◌, ◌-◌, ◌^◌, ◌≤◌, ◌<◌, ◌≡◌, refl, sym, ap, ap₂, ◌∙◌, Bool, true, false, Option,
  none, some, List, [], ◌∷◌, length, get_or, map, replicate, skip, arith,
}
use atomic_queue_rs.Program.{ret, run, done, Profile, debug, release}
use atomic_queue_rs.Program.Threads.{NoJob, System, Reach}
use atomic_queue_rs.Program.Duo.{Good, Flip, pair}
use atomic_queue_rs.Common.{AtomicQueueCommon}
use atomic_queue_rs.Common.Optimist.{optimist_push, optimist_pop}
use atomic_queue_rs.Ring.{window, size, Fits}
use atomic_queue_rs.AtomicQueue2.{ops}
use atomic_queue_rs.AtomicQueue2.Slots.{Shared, empty_mark, full_mark}
use atomic_queue_rs.AtomicQueue2.Types.{Queue2, fresh}
use atomic_queue_rs.AtomicQueue2.Valid.{slot, IsQueue}
use atomic_queue_rs.AtomicQueue2.Holds.{Holds}
use atomic_queue_rs.AtomicQueue2.Drop.{drop}
use atomic_queue_rs.AtomicQueue2.Drop.Laws.{drop-perm}
use atomic_queue_rs.AtomicQueue2.Spsc.{Shares, pushed, popped}
use atomic_queue_rs.Program.Streams.{get_elem?, produce, consume}
use atomic_queue_rs.AtomicQueue2.Spsc.Guards.{Guards}
use atomic_queue_rs.AtomicQueue2.Spsc.Optimist.{both, Sent, Got}

-- A window whose slots are known one by one.
window-all :
    {A : Type 0} (d v : A) (slot : ℕ → ℕ) (xs : List A) (n t : ℕ)
    → ((i : ℕ) → t ≤ i → i < t + n → get_or xs (slot i) d ≡ v)
    → window d slot xs t n ≡ replicate n v
window-all d v slot xs zero t at = refl
window-all d v slot xs (suc n) t at =
    ap₂ ◌∷◌ (at t (omega arith) (omega arith))
      (window-all d v slot xs n (t + 1) (λ i lo hi. at i (omega arith) (omega arith)))

skip-end : {A : Type 0} (xs : List A) (t : ℕ) → t ≡ length xs → skip t xs ≡ []
skip-end [] zero e = refl
skip-end (x ∷ xs) zero e = absurd (omega arith)
skip-end [] (suc t) e = refl
skip-end (x ∷ xs) (suc t) e = skip-end xs t (omega arith)

skip-next :
    {A : Type 0} (xs : List A) (t : ℕ)
    → t < length xs
    → (x : A) × (get_elem? xs t ≡ some x) × (skip t xs ≡ x ∷ skip (t + 1) xs)
skip-next [] t h = absurd (omega arith)
skip-next (x ∷ xs) zero h = (x, refl, refl)
skip-next (x ∷ xs) (suc t) h =
    let (y, there, rest) = skip-next xs t (omega arith) in
    (
      y,
      there,
      rest ∙ ap (λ u. y ∷ skip u (x ∷ xs)) (let e : suc (t + 1) ≡ suc t + 1 = omega arith in e),
    )

window-skip :
    {A : Type 0} (slot : ℕ → ℕ) (ys : List (Option A)) (xs : List A) (n t : ℕ)
    → t + n ≡ length xs
    → ((i : ℕ) → t ≤ i → i < t + n → get_or ys (slot i) none ≡ get_elem? xs i)
    → window none slot ys t n ≡ map some (skip t xs)
window-skip slot ys xs zero t total at = sym (ap (map some) (skip-end xs t (omega arith)))
window-skip slot ys xs (suc n) t total at =
    let (x, there, rest) = skip-next xs t (omega arith) in
    ap₂ ◌∷◌ (at t (omega arith) (omega arith) ∙ there)
      (window-skip slot ys xs n (t + 1) (omega arith) (λ i lo hi. at i (omega arith) (omega arith)))
    ∙ ap (map some) (sym rest)

fits :
    (p : Profile) (periodic : Bool) (n : ℕ) (c : AtomicQueueCommon)
    → c.tail ≤ c.head
    → c.head + n < 2 ^ 64
    → Fits p periodic n c
fits release true n c order small = tt
fits release false n c order small = (order, small)
fits debug periodic n c order small = (order, small)

module _ {A : Type 0} (p : Profile) {periodic : Bool} {self : Queue2} (q : IsQueue periodic self)
    (xs : List A) (k : ℕ) (m : Shared A) where
  -- After `k` pops the queue holds the other elements.
  pub Shares-Holds :
      (n : ℕ)
      → length xs + n < 2 ^ 64
      → Shares self xs (pushed (length xs)) (popped k) m
      → Holds p periodic self n m (skip k xs)
  Shares-Holds n small s =
      let counted : size m.common ≡ length xs - k = omega (arith, s.head_at, s.tail_at, s.behind) in
      record {
        states_sized = s.states_sized;
        elements_sized = s.elements_sized;
        counts = record {
          head_word = omega (arith, s.head_at);
          tail_word = omega (arith, s.tail_at, s.behind);
          within = omega (arith, counted, s.ahead);
        };
        fits =
            fits p periodic n m.common (omega (arith, s.head_at, s.tail_at, s.behind))
              (omega (arith, s.head_at));
        stored =
            rw (counted, s.tail_at)
              (window-skip (slot self) m.storage.elements xs (length xs - k) k
                (omega (arith, s.behind)) (λ i lo hi. s.stored i lo (omega (arith, s.behind))));
        full =
            rw (counted, s.tail_at)
              (window-all empty_mark full_mark (slot self) m.storage.states (length xs - k) k
                (λ i lo hi. s.full i lo (omega (arith, s.behind))));
        free =
            rw (counted, s.head_at)
              (window-all empty_mark empty_mark (slot self) m.storage.states
                (self.capacity - (length xs - k)) (length xs)
                (λ i lo hi. s.free i lo (omega (arith, s.behind, s.ahead))));
      }

module _ {A : Type 0} (p : Profile) {periodic : Bool} {self : Queue2} (q : IsQueue periodic self)
    (spsc : self.spsc ≡ true) (fuel rounds : ℕ) (xs : List A) (k : ℕ) (short : length xs < 2 ^ 64)
    (few : k < 2 ^ 64) {n : ℕ} {t : System (Shared A) (List A)}
    (run_of : Reach NoJob
      (pair
        (fresh self.capacity)
        (produce (optimist_push (ops p self fuel) rounds) xs)
        (consume (optimist_pop (ops p self fuel) rounds) k)
        [])
      n
      t) where
  -- If a thread that calls optimist_push for the elements xs on a new AtomicQueue2 or AtomicQueueB2
  -- with SPSC and one that calls optimist_pop k times, fewer than 2^64 each, have both returned,
  -- after any interleaving, then dropping the queue drops exactly the elements of xs behind the
  -- first k, each once, in some order, and no fault occurs.
  pub rest_dropped :
      (sent got : List A)
      → t.thread 0 ≡ ret sent
      → t.thread 1 ≡ ret got
      → (m : Shared A) × (dropped : List A) × (run (drop p self) t.memory ≡ done m dropped)
        × Perm dropped (skip k xs)
  rest_dropped sent got e f =
      let b = both p q spsc fuel rounds xs k short few run_of in
      let left : b.left.own ≡ pushed (length xs) =
        subst
          (λ c. Good (Guards self xs) c (Sent p q spsc fuel rounds xs k short few run_of) b.left) e
          b.left_good in
      let right : Got p q spsc fuel rounds xs k short few run_of got b.right =
        subst
          (λ c.
            Good (Flip (Guards self xs)) c (Got p q spsc fuel rounds xs k short few run_of) b.right)
          f b.right_good in
      let s : Shares self xs (pushed (length xs)) (popped k) t.memory =
        subst (λ h. Shares self xs (pushed (length xs)) h t.memory)
          (right.0 ∙ ap popped (omega arith))
          (subst (λ g. Shares self xs g b.right.own t.memory) left b.inv.shares) in
      drop-perm p q 0 t.memory (skip k xs) (Shares-Holds p q xs k t.memory 0 (omega arith) s)
