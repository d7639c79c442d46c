-- ===== src/AtomicQueue/History/Popping.antt =====
-- `pop` and `try_pop` among any number of threads.
use native.Mathlib.Decide.{ℕ_discrete}
use mathlib.Core.Path.{subst}
use atomic_queue_rs.Base.{
  ℕ, zero, suc, ◌%◌, ◌^◌, ◌≤◌, ◌<◌, ◌≡◌, ◌≢◌, refl, sym, ap, ◌∙◌, not, Option, none, some, List, [],
  ◌∷◌, ◌++◌, arith, wrapping_add, eq→==, ne→==, if◌then◌else◌, ◌==◌,
}
use atomic_queue_rs.Program.{ret, ◌>>=◌, Profile, ok, add_usize}
use atomic_queue_rs.Program.Threads.{assign}
use atomic_queue_rs.Program.Many.{Steady, Steady->>=, Steady-if, Steady-lift}
use atomic_queue_rs.Common.{set_tail, compare_exchange_tail}
use atomic_queue_rs.Common.Tickets.{next_ticket}
use atomic_queue_rs.AtomicQueue.{Queue, get_element, take_value, pop, try_pop}
use atomic_queue_rs.AtomicQueue.Value.{
  Element, size_of, Shared, raw, set_raw, load_value, transmute_copy,
}
use atomic_queue_rs.AtomicQueue.Valid.{slot, IsQueue, get_element_lem}
use atomic_queue_rs.AtomicQueue.Refine.{store_word}
use atomic_queue_rs.AtomicQueue.History.{
  Tickets, Phase, Part, part, resting, pop_claimed, staged, Core, Inv,
}
use atomic_queue_rs.AtomicQueue.History.Taking.{claim_pop-Core, found_word, find-Core, clear-Core}
use atomic_queue_rs.AtomicQueue.History.Pushing.{NoUndefined, add_usize-NoUndefined, At, looked}

module _ {self : Queue} (q : IsQueue self) (i : ℕ) where
  claimed-Inv :
      (n : ℕ) (parts : ℕ → Part) (s : Tickets) (m : Shared) (a b : List ℕ) (k next : ℕ)
      → (suc n < 2 ^ 64 → m.common.tail ≤ n → next ≡ suc m.common.tail)
      → Inv self n parts s m
      → parts i ≡ resting a b k
      → Inv self
          (suc n)
          (assign parts i (part a b k (Phase.popping m.common.tail)))
          (pop_claimed s m.common.tail i)
          (set_tail next m)
  claimed-Inv n parts s m a b k next one inv e = record {
    counted = λ small.
        let below = inv.counted (omega arith) in let same = one small below.1 in omega arith;
    core = λ small heads tails.
        let below = inv.counted (omega arith) in
        let same = one small below.1 in
        subst
          (λ (v : ℕ).
            Core self (assign parts i (part a b k (Phase.popping m.common.tail)))
              (pop_claimed s m.common.tail i) (set_tail v m))
          (sym same)
          (claim_pop-Core q parts s m i (inv.core (omega arith) heads (omega arith)) a b k e);
  }

  -- What is loaded is the element, while the counters have not passed the capacity.
  found-Inv :
      (n : ℕ) (parts : ℕ → Part) (s : Tickets) (m : Shared) (a b : List ℕ) (k r : ℕ)
      → raw (slot self r) m % 2 ^ 64 ≢ 0
      → Inv self n parts s m
      → parts i ≡ part a b k (Phase.popping r)
      → Inv self
          (suc n)
          (assign parts i (part a b k (Phase.clearing r (raw (slot self r) m % 2 ^ 64))))
          s
          m
  found-Inv n parts s m a b k r there inv e = record {
    counted = λ small. omega (arith, inv.counted (omega arith));
    core = λ small heads tails.
        let c = inv.core (omega arith) heads tails in
        let found : raw (slot self r) m ≢ 0 = λ clear. there (ap (λ v. v % 2 ^ 64) clear) in
        let word = found_word q parts s m i c a b k r e tails found in
        subst (λ v. Core self (assign parts i (part a b k (Phase.clearing r v))) s m)
          (let same : raw (slot self r) m ≡ raw (slot self r) m % 2 ^ 64 = omega (arith, word) in
            same)
          (find-Core q parts s m i c a b k r e tails found);
  }

  cleared-Inv :
      (n : ℕ) (parts : ℕ → Part) (s : Tickets) (m : Shared) (a b : List ℕ) (k r x : ℕ)
      → Inv self n parts s m
      → parts i ≡ part a b k (Phase.clearing r x)
      → Inv self
          (suc n)
          (assign parts i (resting a (b ++ x ∷ []) (suc r)))
          (staged s r 2)
          (set_raw (slot self r) 0 m)
  cleared-Inv n parts s m a b k r x inv e = record {
    counted = λ small. omega (arith, inv.counted (omega arith));
    core = λ small heads tails.
        clear-Core q parts s m i (inv.core (omega arith) heads tails) a b k r x e tails;
  }

  -- What the thread has received, if anything.
  abbrev pub Receives : List ℕ → List ℕ → Option ℕ → Part → Type 0
  Receives a b (some y) g = At a (b ++ y ∷ []) g
  Receives a b none g = At a b g

  module _ (p : Profile) (T : Element) (wide : size_of T ≡ 8) (a b : List ℕ) (k : ℕ) where
    take_value-Steady :
        (fuel r : ℕ)
        → Steady
            (Inv self)
            NoUndefined
            i
            (take_value p self T fuel (slot self r))
            (λ y g. At a (b ++ y ∷ []) g)
            (part a b k (Phase.popping r))
    unfolding take_value load_value transmute_copy
    take_value-Steady zero r = λ e. cc
    take_value-Steady (suc fuel) r = λ n parts s m inv e.
        elim (ℕ_discrete (raw (slot self r) m % 2 ^ 64) 0) [
          | yes clear ↦ (
            part a b k (Phase.popping r),
            s,
            looked n parts s m i (part a b k (Phase.popping r)) inv e,
            rw (wide, clear) (take_value-Steady fuel r),
          )
          | no ne ↦ (
            part a b k (Phase.clearing r (raw (slot self r) m % 2 ^ 64)),
            s,
            found-Inv n parts s m a b k r ne inv e,
            rw
                (
                  wide,
                  ne→== (raw (slot self r) m % 2 ^ 64) 0 ne,
                  store_word T (slot self r) 0 wide (omega arith),
                )
                (λ n' parts' s' m' inv' e'. (
                  resting a (b ++ (raw (slot self r) m % 2 ^ 64) ∷ []) (suc r),
                  staged s' r 2,
                  cleared-Inv n' parts' s' m' a b k r (raw (slot self r) m % 2 ^ 64) inv' e',
                  (suc r, refl),
                )),
          )
        ]

    pub pop-Steady :
        (fuel : ℕ)
        → Steady
            (Inv self)
            NoUndefined
            i
            (pop p self T fuel)
            (λ y g. At a (b ++ y ∷ []) g)
            (resting a b k)
    unfolding pop
    pop-Steady fuel = λ n parts s m inv e. (
      part a b k (Phase.popping m.common.tail),
      pop_claimed s m.common.tail i,
      claimed-Inv n parts s m a b k (wrapping_add m.common.tail 1) (λ small le. omega arith) inv e,
      rw (get_element_lem p q m.common.tail) (take_value-Steady fuel m.common.tail),
    )

    exchange-Steady :
        (fuel tail next : ℕ)
        → add_usize p tail 1 ≡ ok next
        → Steady
            (Inv self)
            NoUndefined
            i
            (do
              won ← compare_exchange_tail tail next
              if not won then ret none else do
                slot ← get_element p self tail
                current ← take_value p self T fuel slot
                ret (some current))
            (Receives a b)
            (resting a b k)
    exchange-Steady fuel tail next added = λ n parts s m inv e.
        elim (ℕ_discrete m.common.tail tail) [
          | yes same ↦ (
            part a b k (Phase.popping m.common.tail),
            pop_claimed s m.common.tail i,
            rw (eq→== m.common.tail tail same) (
                claimed-Inv n parts s m a b k next
                  (λ small le. next_ticket p tail next (omega arith) added ∙ omega arith) inv e),
            rw (eq→== m.common.tail tail same, get_element_lem p q tail)
                (Steady->>= (Inv self) NoUndefined i (take_value p self T fuel (slot self tail))
                  (λ y. ret (some y)) (λ y g. At a (b ++ y ∷ []) g) (Receives a b)
                  (part a b k (Phase.popping m.common.tail)) (rw same (take_value-Steady fuel tail))
                  (λ _ g at. at)),
          )
          | no ne ↦ (
            resting a b k,
            s,
            rw (ne→== m.common.tail tail ne) (looked n parts s m i (resting a b k) inv e),
            rw (ne→== m.common.tail tail ne) (k, refl),
          )
        ]

    pub try_pop-Steady :
        (fuel : ℕ)
        → Steady (Inv self) NoUndefined i (try_pop p self T fuel) (Receives a b) (resting a b k)
    unfolding try_pop
    try_pop-Steady fuel = λ n parts s m inv e. (
      resting a b k,
      s,
      looked n parts s m i (resting a b k) inv e,
      λ n' parts' s' m' inv' e'. (
        resting a b k,
        s',
        looked n' parts' s' m' i (resting a b k) inv' e',
        Steady-if (Inv self) NoUndefined i (m.common.tail == m'.common.head) _ _ (Receives a b)
            (resting a b k) (λ _. (k, refl))
            (λ _.
              Steady-lift (Inv self) NoUndefined i (add_usize p m.common.tail 1) _ (Receives a b)
                (resting a b k) (exchange-Steady fuel m.common.tail)
                (add_usize-NoUndefined p m.common.tail 1)),
      ),
    )
