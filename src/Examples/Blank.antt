-- ===== src/Examples/Blank.antt =====
-- What the methods of src/atomic_queue.rs do while every slot is marked empty.
use mathlib.Core.Path.{subst}
use native.Mathlib.Nat.{mod-eq_of_lt}
use atomic_queue_rs.Base.{
  ℕ, zero, suc, ◌*◌, ◌<◌, ◌≡◌, refl, Bool, true, false, not, none, List, [], ◌∷◌, get_or, set,
  arith, two-pow_pos, lt→leb, ltb, ◌==◌, get_or-replicate, max, bit_and, if◌then◌else◌, eq→==,
}
use atomic_queue_rs.Program.{
  Profile, Result, ok, fault, Fault, panic, undefined, array_layout, add_usize, sub_usize,
}
use atomic_queue_rs.Program.Still.{Still, Still->>=, Still-if, Still-lift}
use atomic_queue_rs.Common.{set_tail}
use atomic_queue_rs.Arch.{round_up_to_power_of_2}
use atomic_queue_rs.AtomicQueue.{
  Queue, fresh, build, new, new_b, get_element, take_value, push, pop, try_pop,
}
use atomic_queue_rs.AtomicQueue.Value.{
  Element, size_of, Shared, raw, load_value, store_value, transmute_copy,
}

abbrev pub Blank : Shared → Type 0
Blank m = (j : ℕ) → raw j m ≡ 0

get_or-set_zero : (xs : List ℕ) (i j : ℕ) → get_or xs j 0 ≡ 0 → get_or (set xs i 0) j 0 ≡ 0
get_or-set_zero [] i j e = e
get_or-set_zero (x ∷ xs) zero zero e = refl
get_or-set_zero (x ∷ xs) zero (suc j) e = e
get_or-set_zero (x ∷ xs) (suc i) zero e = e
get_or-set_zero (x ∷ xs) (suc i) (suc j) e = get_or-set_zero xs i j e

transmute_zero : (source target v : ℕ) → transmute_copy source target 0 ≡ ok v → v ≡ 0
unfolding transmute_copy
transmute_zero source target v e = ground (arith, mod-eq_of_lt (two-pow_pos (8 * target)))

module _ (p : Profile) (self : Queue) (T : Element) where
  get_element-Still : (i : ℕ) → Still Blank (λ _. Unit) (get_element p self i)
  unfolding get_element
  get_element-Still i =
      Still-lift Blank (λ _. Unit) (sub_usize p self.capacity 1) _
        (λ mask e.
          Still-if Blank (λ _. Unit) (ltb (bit_and i mask) self.allocated) _ _ (λ _. tt) (λ _. tt))

  take_value-Still : (fuel slot : ℕ) → Still Blank (λ _. ⊥) (take_value p self T fuel slot)
  unfolding take_value load_value
  take_value-Still zero slot = tt
  take_value-Still (suc fuel) slot = λ m blank. (
    blank,
    rw (blank slot) (
        Still-lift Blank (λ _. ⊥) (transmute_copy 8 (size_of T) 0) _
          (λ v e. rw (eq→== v 0 (transmute_zero 8 (size_of T) v e)) (take_value-Still fuel slot))),
  )

  pub pop-Still : (fuel : ℕ) → Still Blank (λ _. ⊥) (pop p self T fuel)
  unfolding pop
  pop-Still fuel = λ m blank. (
    blank,
    Still->>= Blank (λ _. Unit) (λ _. ⊥) (get_element p self m.common.tail)
        (take_value p self T fuel) (get_element-Still m.common.tail)
        (λ slot _. take_value-Still fuel slot),
  )

  exchanged : (b : Bool) (v : ℕ) (m : Shared) → Blank m → Blank (if b then set_tail v m else m)
  exchanged true v m blank = blank
  exchanged false v m blank = blank

  pub try_pop-Still : (fuel : ℕ) → Still Blank (λ o. o ≡ none) (try_pop p self T fuel)
  unfolding try_pop
  try_pop-Still fuel = λ m blank. (
    blank,
    λ m' blank'. (
      blank',
      Still-if Blank (λ o. o ≡ none) (m.common.tail == m'.common.head) _ _ (λ _. refl)
          (λ _.
            Still-lift Blank (λ o. o ≡ none) (add_usize p m.common.tail 1) _
              (λ next e. λ m'' blank''. (
                exchanged (m''.common.tail == m.common.tail) next m'' blank'',
                Still-if Blank (λ o. o ≡ none) (not (m''.common.tail == m.common.tail)) _ _
                    (λ _. refl)
                    (λ _.
                      Still->>= Blank (λ _. Unit) (λ o. o ≡ none) (get_element p self m.common.tail)
                        _ (get_element-Still m.common.tail)
                        (λ slot _.
                          Still->>= Blank (λ _. ⊥) (λ o. o ≡ none) (take_value p self T fuel slot) _
                            (take_value-Still fuel slot) (λ v stuck. absurd stuck))),
              ))),
    ),
  )

  -- An element of fewer than eight bytes is never stored.
  pub push_narrow-Still : (x : ℕ) → size_of T < 8 → Still Blank (λ _. ⊥) (push p self T x)
  unfolding push store_value transmute_copy
  push_narrow-Still x narrow = λ m blank. (
    blank,
    Still->>= Blank (λ _. Unit) (λ _. ⊥) (get_element p self m.common.head)
        (λ slot. store_value T slot x) (get_element-Still m.common.head)
        (λ slot _. rw (lt→leb 8 (size_of T) narrow) tt),
  )

  -- A 0 that is stored is the mark of an empty slot.
  pub push_zero-Still : Still Blank (λ _. Unit) (push p self T 0)
  unfolding push store_value
  push_zero-Still = λ m blank. (
    blank,
    Still->>= Blank (λ _. Unit) (λ _. Unit) (get_element p self m.common.head)
        (λ slot. store_value T slot 0) (get_element-Still m.common.head)
        (λ slot _.
          Still-lift Blank (λ _. Unit) (transmute_copy (size_of T) 8 0) _
            (λ v e. λ m' blank'. (
              λ j.
                  rw (transmute_zero (size_of T) 8 v e)
                    (get_or-set_zero m'.storage slot j (blank' j)),
              tt,
            ))),
  )

abbrev BlankIfMade : Result (Queue × Shared) → Type 0
BlankIfMade (ok made) = Blank made.1
BlankIfMade (fault e) = Unit

made-Blank :
    (beyond : Fault) (padded : ℕ) (r : Result ℕ)
    → BlankIfMade (elim r [ ok capacity ↦ build beyond padded capacity | fault e ↦ fault e ])
unfolding build
made-Blank beyond padded (fault e) = tt
made-Blank beyond padded (ok capacity) =
    elim (array_layout padded capacity)
      as (λ l. BlankIfMade (elim l [ ok room ↦ ok (fresh beyond capacity) | fault e ↦ fault e ])) [
        | ok room ↦ λ j. get_or-replicate capacity j 0
        | fault e ↦ tt
      ]

-- A new queue.
pub new-Blank :
    (p : Profile) (padded n : ℕ) (self : Queue) (m : Shared)
    → new p padded n ≡ ok (self, m)
    → Blank m
unfolding new
new-Blank p padded n self m made =
    subst BlankIfMade made (made-Blank panic padded (round_up_to_power_of_2 p n))

pub new_b-Blank :
    (p : Profile) (padded n : ℕ) (self : Queue) (m : Shared)
    → new_b p padded n ≡ ok (self, m)
    → Blank m
unfolding new_b
new_b-Blank p padded n self m made =
    subst BlankIfMade made (made-Blank undefined padded (round_up_to_power_of_2 p (max n 2)))
