-- ===== src/AtomicQueue/History/Pushing.antt =====
-- `push` and `try_push` among any number of threads.
use native.Mathlib.Decide.{ℕ_discrete}
use mathlib.Core.Path.{subst}
use atomic_queue_rs.Base.{
  ℕ, suc, ◌^◌, ◌≤◌, ◌<◌, ◌≡◌, ◌≢◌, refl, sym, ◌∙◌, Bool, true, false, not, List, [], ◌∷◌, ◌++◌,
  arith, wrapping_add, eq→==, ne→==, leb, if◌then◌else◌,
}
use atomic_queue_rs.Program.{
  ret, ◌>>=◌, ◌>>◌, Profile, debug, release, ok, fault, Fault, undefined, add_usize, sub_usize,
}
use atomic_queue_rs.Program.Threads.{assign, assign_same}
use atomic_queue_rs.Program.Many.{Steady, Steady->>=, Steady-if, Steady-lift}
use atomic_queue_rs.Common.{set_head, compare_exchange_head}
use atomic_queue_rs.Common.Tickets.{next_ticket}
use atomic_queue_rs.AtomicQueue.{Queue, get_element, push, try_push}
use atomic_queue_rs.AtomicQueue.Value.{Element, size_of, Shared, store_value}
use atomic_queue_rs.AtomicQueue.Valid.{slot, IsElement, IsQueue, get_element_lem}
use atomic_queue_rs.AtomicQueue.Refine.{store_word}
use atomic_queue_rs.AtomicQueue.History.{
  Tickets, Phase, Part, part, resting, push_claimed, staged, Core, Inv,
}
use atomic_queue_rs.AtomicQueue.History.Storing.{claim_push-Core, store-Core}

-- Reads and writes within bounds may still panic on the difference of the counters, or wait too long.
abbrev pub NoUndefined : Fault → Type 0
NoUndefined e = e ≢ undefined

pub sub_usize-NoUndefined :
    (p : Profile) (a b : ℕ) (e : Fault) → sub_usize p a b ≡ fault e → NoUndefined e
unfolding sub_usize
sub_usize-NoUndefined debug a b e h u = ground arith
sub_usize-NoUndefined release a b e h u = cc

pub add_usize-NoUndefined :
    (p : Profile) (a b : ℕ) (e : Fault) → add_usize p a b ≡ fault e → NoUndefined e
unfolding add_usize
add_usize-NoUndefined debug a b e h u = ground arith
add_usize-NoUndefined release a b e h u = cc

-- Between two calls: what the thread has sent and received.
abbrev pub At : List ℕ → List ℕ → Part → Type 0
At a b g = (k : ℕ) × (g ≡ resting a b k)

-- An access that changes nothing.
pub looked :
    {self : Queue} (n : ℕ) (parts : ℕ → Part) (s : Tickets) (m : Shared) (i : ℕ) (g : Part)
    → Inv self n parts s m
    → parts i ≡ g
    → Inv self (suc n) (assign parts i g) s m
looked {self} n parts s m i g inv e =
    subst (λ (f : ℕ → Part). Inv self (suc n) f s m) (assign_same parts i g e)
      (record {
        counted = λ small. omega (arith, inv.counted (omega arith));
        core = λ small. inv.core (omega arith);
      })

module _ {self : Queue} (q : IsQueue self) (i x : ℕ) (word : IsElement x) where
  claimed-Inv :
      (n : ℕ) (parts : ℕ → Part) (s : Tickets) (m : Shared) (a b : List ℕ) (k next : ℕ)
      → (suc n < 2 ^ 64 → m.common.head ≤ n → next ≡ suc m.common.head)
      → Inv self n parts s m
      → parts i ≡ resting a b k
      → Inv self
          (suc n)
          (assign parts i (part (a ++ x ∷ []) b k (Phase.pushing m.common.head x)))
          (push_claimed s m.common.head i x)
          (set_head next m)
  claimed-Inv n parts s m a b k next one inv e = record {
    counted = λ small.
        let below = inv.counted (omega arith) in let same = one small below.0 in omega arith;
    core = λ small heads tails.
        let below = inv.counted (omega arith) in
        let same = one small below.0 in
        subst
          (λ (v : ℕ).
            Core self (assign parts i (part (a ++ x ∷ []) b k (Phase.pushing m.common.head x)))
              (push_claimed s m.common.head i x) (set_head v m))
          (sym same)
          (claim_push-Core q parts s m i (inv.core (omega arith) (omega arith) tails) a b k x e
            word);
  }

  -- Whether the element has been sent.
  abbrev pub Sends : List ℕ → List ℕ → Bool → Part → Type 0
  Sends a b true g = At (a ++ x ∷ []) b g
  Sends a b false g = At a b g

  module _ (p : Profile) (T : Element) (wide : size_of T ≡ 8) (a b : List ℕ) (k : ℕ) where
    store-Steady :
        (w : ℕ)
        → Steady
            (Inv self)
            NoUndefined
            i
            (store_value T (slot self w) x)
            (λ _ g. At (a ++ x ∷ []) b g)
            (part (a ++ x ∷ []) b k (Phase.pushing w x))
    store-Steady w = rw (store_word T (slot self w) x wide word.1) (λ n parts s m inv e. (
      resting (a ++ x ∷ []) b k,
      staged s w 1,
      record {
        counted = λ small. omega (arith, inv.counted (omega arith));
        core = λ small heads tails.
            store-Core q parts s m i (inv.core (omega arith) heads tails) (a ++ x ∷ []) b k w x e
              heads;
      },
      (k, refl),
    ))

    pub push-Steady :
        Steady
          (Inv self)
          NoUndefined
          i
          (push p self T x)
          (λ _ g. At (a ++ x ∷ []) b g)
          (resting a b k)
    unfolding push
    push-Steady = λ n parts s m inv e. (
      part (a ++ x ∷ []) b k (Phase.pushing m.common.head x),
      push_claimed s m.common.head i x,
      claimed-Inv n parts s m a b k (wrapping_add m.common.head 1) (λ small le. omega arith) inv e,
      rw (get_element_lem p q m.common.head) (store-Steady m.common.head),
    )

    exchange-Steady :
        (head next : ℕ)
        → add_usize p head 1 ≡ ok next
        → Steady
            (Inv self)
            NoUndefined
            i
            (do
              won ← compare_exchange_head head next
              if not won
                  then ret false
                  else do slot ← get_element p self head; store_value T slot x; ret true)
            (Sends a b)
            (resting a b k)
    exchange-Steady head next added = λ n parts s m inv e. elim (ℕ_discrete m.common.head head) [
      | yes same ↦ (
        part (a ++ x ∷ []) b k (Phase.pushing m.common.head x),
        push_claimed s m.common.head i x,
        rw (eq→== m.common.head head same) (
            claimed-Inv n parts s m a b k next
              (λ small le. next_ticket p head next (omega arith) added ∙ omega arith) inv e),
        rw (eq→== m.common.head head same, get_element_lem p q head)
            (Steady->>= (Inv self) NoUndefined i (store_value T (slot self head) x) (λ _. ret true)
              (λ _ g. At (a ++ x ∷ []) b g) (Sends a b)
              (part (a ++ x ∷ []) b k (Phase.pushing m.common.head x)) (rw same (store-Steady head))
              (λ _ g at. at)),
      )
      | no ne ↦ (
        resting a b k,
        s,
        rw (ne→== m.common.head head ne) (looked n parts s m i (resting a b k) inv e),
        rw (ne→== m.common.head head ne) (k, refl),
      )
    ]

    pub try_push-Steady :
        Steady (Inv self) NoUndefined i (try_push p self T x) (Sends a b) (resting a b k)
    unfolding try_push
    try_push-Steady = λ n parts s m inv e. (
      resting a b k,
      s,
      looked n parts s m i (resting a b k) inv e,
      λ n' parts' s' m' inv' e'. (
        resting a b k,
        s',
        looked n' parts' s' m' i (resting a b k) inv' e',
        Steady-lift (Inv self) NoUndefined i (sub_usize p m.common.head m'.common.tail) _
            (Sends a b) (resting a b k)
            (λ size found.
              Steady-if (Inv self) NoUndefined i (leb self.capacity size) _ _ (Sends a b)
                (resting a b k) (λ _. (k, refl))
                (λ _.
                  Steady-lift (Inv self) NoUndefined i (add_usize p m.common.head 1) _ (Sends a b)
                    (resting a b k) (exchange-Steady m.common.head)
                    (add_usize-NoUndefined p m.common.head 1)))
            (sub_usize-NoUndefined p m.common.head m'.common.tail),
      ),
    )
