-- ===== src/AtomicQueue/WaitFree.antt =====
-- `push` and `try_push` of src/atomic_queue.rs do not wait for other threads.
use mathlib.Core.Path.{subst}
use atomic_queue_rs.Base.{
  ℕ, suc, ◌*◌, ◌-◌, ◌≤◌, ◌≡◌, sym, true, not, ltb, leb, ◌==◌, bit_and, List, [], ◌∷◌, length, arith,
}
use atomic_queue_rs.Program.{ret, ◌>>=◌, Profile, add_usize, sub_usize}
use atomic_queue_rs.Program.Threads.{System, Reach, NoJob}
use atomic_queue_rs.Program.Within.{
  Within, Within->>=, Within-if, Within-lift, accesses, Within-Reach,
}
use atomic_queue_rs.Common.Traffic.{Action, perform, and_sent}
use atomic_queue_rs.AtomicQueue.{Queue, get_element, push, try_push, ops}
use atomic_queue_rs.AtomicQueue.Value.{Element, size_of, Shared, store_value, transmute_copy}

-- Calls that send.
abbrev pub OnlySends : {T : Type 0} → List (Action T) → Type 0
OnlySends [] = Unit
OnlySends (Action.push x ∷ cs) = OnlySends cs
OnlySends (Action.try_push x ∷ cs) = OnlySends cs
OnlySends (Action.pop ∷ cs) = ⊥
OnlySends (Action.try_pop ∷ cs) = ⊥

module _ (p : Profile) (self : Queue) (T : Element) where
  get_element-Within : (i : ℕ) → Within 0 (get_element p self i)
  unfolding get_element
  get_element-Within i =
      Within-lift (sub_usize p self.capacity 1) _ 0
        (λ mask. Within-if (ltb (bit_and i mask) self.allocated) _ _ 0 tt tt)

  store_value-Within : (slot x : ℕ) → Within 1 (store_value T slot x)
  unfolding store_value
  store_value-Within slot x = Within-lift (transmute_copy (size_of T) 8 x) _ 1 (λ word. λ m. tt)

  put-Within : (i x : ℕ) → Within 1 (do slot ← get_element p self i; store_value T slot x)
  put-Within i x =
      Within->>= (get_element p self i) (λ slot. store_value T slot x) 0 1 1 (omega arith)
        (get_element-Within i) (λ slot. store_value-Within slot x)

  push-Within : (x : ℕ) → Within 2 (push p self T x)
  unfolding push
  push-Within x = λ m. put-Within m.common.head x

  try_push-Within : (x : ℕ) → Within 4 (try_push p self T x)
  unfolding try_push
  try_push-Within x = λ m. λ m'. Within-lift (sub_usize p m.common.head m'.common.tail) _ 2 (λ size.
      Within-if (leb self.capacity size) _ _ 2 tt (
        Within-lift (add_usize p m.common.head 1) _ 2 (λ next. λ m''.
          Within-if (not (m''.common.head == m.common.head)) _ _ 1 tt (
            Within->>= (get_element p self m.common.head) _ 0 1 1 (omega arith)
              (get_element-Within m.common.head)
              (λ slot.
                Within->>= (store_value T slot x) _ 1 0 1 (omega arith) (store_value-Within slot x)
                  (λ _. tt))))))

  perform-Within :
      (fuel : ℕ) (cs : List (Action ℕ))
      → OnlySends cs
      → Within (4 * length cs) (perform (ops p self T fuel) cs)
  unfolding perform ops
  perform-Within fuel [] sends = tt
  perform-Within fuel (Action.push x ∷ cs) sends =
      Within->>= (push p self T x) _ 2 (4 * length cs) (4 * suc (length cs)) (omega arith)
        (push-Within x)
        (λ _.
          Within->>= (perform (ops p self T fuel) cs) (λ r. ret (and_sent true x r)) (4 * length cs)
            0 (4 * length cs) (omega arith) (perform-Within fuel cs sends) (λ r. tt))
  perform-Within fuel (Action.try_push x ∷ cs) sends =
      Within->>= (try_push p self T x) _ 4 (4 * length cs) (4 * suc (length cs)) (omega arith)
        (try_push-Within x)
        (λ b.
          Within->>= (perform (ops p self T fuel) cs) (λ r. ret (and_sent b x r)) (4 * length cs) 0
            (4 * length cs) (omega arith) (perform-Within fuel cs sends) (λ r. tt))
  perform-Within fuel (Action.pop ∷ cs) sends = absurd sends
  perform-Within fuel (Action.try_pop ∷ cs) sends = absurd sends

  -- In every run, with any other threads, a thread that performs only push and try_push calls on an
  -- AtomicQueue or AtomicQueueB makes at most four accesses for each call, and after as many it has
  -- returned or failed.
  pub sends_are_wait_free :
      (fuel i : ℕ) (cs : List (Action ℕ)) {s : System Shared (List ℕ × List ℕ)} {n : ℕ}
      {t : System Shared (List ℕ × List ℕ)}
      → OnlySends cs
      → s.thread i ≡ perform (ops p self T fuel) cs
      → (run : Reach NoJob s n t)
      → (accesses i run ≤ 4 * length cs) × Within (4 * length cs - accesses i run) (t.thread i)
  sends_are_wait_free fuel i cs sends e run =
      Within-Reach i (4 * length cs)
        (subst (Within (4 * length cs)) (sym e) (perform-Within fuel cs sends)) run
