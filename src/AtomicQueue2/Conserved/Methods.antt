-- ===== src/AtomicQueue2/Conserved/Methods.antt =====
-- How many elements a thread has sent and received after a call of src/atomic_queue2.rs.
use atomic_queue_rs.Base.{
  ℕ, ◌<◌, ◌≡◌, refl, Bool, true, false, not, leb, ◌==◌, Option, none, some, suc, ◌+◌, ◌≤◌, arith,
}
use atomic_queue_rs.Program.{ret, ◌>>=◌, Profile, add_usize, sub_usize}
use atomic_queue_rs.Common.{set_head, set_tail}
use atomic_queue_rs.AtomicQueue2.{try_push, try_pop, push, pop, claim_head, claim_tail}
use atomic_queue_rs.AtomicQueue2.Types.{Queue2}
use atomic_queue_rs.AtomicQueue2.Access.{get_slot, do_push_any}
use atomic_queue_rs.AtomicQueue2.Conserved.{Part, part, At}
use atomic_queue_rs.AtomicQueue2.Conserved.Loops.{
  exchanged, Keeps, returns, calmly, branches, computes, chains, slots, do_push_any-Keeps,
  do_pop_any-Keeps,
}

-- Whether an element has been sent, or received.
abbrev pub MaySend : ℕ → ℕ → ℕ → Bool → Part → Type 0
MaySend a b rest true g = At (a + 1) b rest g
MaySend a b rest false g = At a b rest g

abbrev pub MayReceive : {A : Type 0} → ℕ → ℕ → ℕ → Option A → Part → Type 0
MayReceive a b rest (some y) g = At a (b + 1) rest g
MayReceive a b rest none g = At a b rest g

module _ {A : Type 0} (count : ℕ) (offered : ℕ → ℕ) (i : ℕ) (p : Profile) (self : Queue2)
    (mpmc : self.spsc ≡ false) (fuel : ℕ) where
  claim_head-Keeps :
      (head : ℕ) (g : Part)
      → Keeps {A = A} count offered i (claim_head p self head) (λ _ h. h ≡ g) g
  unfolding claim_head
  claim_head-Keeps head g =
      branches count offered i self.total_order
        (computes count offered i (add_usize p head 1) (λ next.
          calmly count offered i (λ m. exchanged (m.common.head == head) (set_head next) m refl)
            (λ m. returns count offered i refl)))
        (calmly count offered i (λ m. refl) (λ m. returns count offered i refl))

  claim_tail-Keeps :
      (tail : ℕ) (g : Part)
      → Keeps {A = A} count offered i (claim_tail p self tail) (λ _ h. h ≡ g) g
  unfolding claim_tail
  claim_tail-Keeps tail g =
      branches count offered i self.total_order
        (computes count offered i (add_usize p tail 1) (λ next.
          calmly count offered i (λ m. exchanged (m.common.tail == tail) (set_tail next) m refl)
            (λ m. returns count offered i refl)))
        (calmly count offered i (λ m. refl) (λ m. returns count offered i refl))

  module _ (below : i < count) (a b rest c : ℕ) where
    module _ (x : A) (covers : suc rest ≤ c) where
      puts :
          (index : ℕ)
          → Keeps {A = A} count offered i
              (get_slot p self index >>= λ slot. do_push_any self fuel x slot)
              (λ _ g. At (a + 1) b rest g)
              (part a b c)
      puts index =
          slots count offered i self mpmc p index (λ slot.
            do_push_any-Keeps count offered i self mpmc below slot a b rest c x fuel covers)

      pub push-Keeps :
          Keeps {A = A} count offered i
            (push p self fuel x)
            (λ _ g. At (a + 1) b rest g)
            (part a b c)
      unfolding push
      push-Keeps = calmly count offered i (λ m. refl) (λ m. puts m.common.head)

      pub try_push-Keeps :
          Keeps {A = A} count offered i (try_push p self fuel x) (MaySend a b rest) (part a b c)
      unfolding try_push
      try_push-Keeps =
          calmly count offered i (λ m. refl)
            (λ m.
              calmly count offered i (λ m. refl)
                (λ m'. computes count offered i (sub_usize p m.common.head m'.common.tail) (λ size.
                  branches count offered i (leb self.capacity size) refused (
                    chains count offered i _ (λ _ g. g ≡ part a b c)
                      (claim_head-Keeps m.common.head (part a b c))
                      (λ claimed g e. rw e (
                        branches count offered i (not claimed) refused (
                          slots count offered i self mpmc p m.common.head (λ slot.
                            chains count offered i (λ _. ret true) (λ _ g. At (a + 1) b rest g)
                              (do_push_any-Keeps count offered i self mpmc below slot a b rest c x
                                fuel covers)
                              (λ _ g at. returns count offered i at)))))))))
        where
          refused : Keeps {A = A} count offered i (ret false) (MaySend a b rest) (part a b c)
          refused = returns count offered i (c, refl, omega arith)

    module _ (covers : rest ≤ c) where
      pub pop-Keeps :
          Keeps {A = A} count offered i (pop p self fuel) (λ y g. At a (b + 1) rest g) (part a b c)
      unfolding pop
      pop-Keeps =
          calmly count offered i (λ m. refl)
            (λ m. slots count offered i self mpmc p m.common.tail (λ slot.
              do_pop_any-Keeps count offered i self mpmc below slot a b rest c fuel covers))

      pub try_pop-Keeps :
          Keeps {A = A} count offered i (try_pop p self fuel) (MayReceive a b rest) (part a b c)
      unfolding try_pop
      try_pop-Keeps =
          calmly count offered i (λ m. refl)
            (λ m.
              calmly count offered i (λ m. refl)
                (λ m'. branches count offered i (m.common.tail == m'.common.head) refused (
                  chains count offered i _ (λ _ g. g ≡ part a b c)
                    (claim_tail-Keeps m.common.tail (part a b c))
                    (λ claimed g e. rw e (
                      branches count offered i (not claimed) refused (
                        slots count offered i self mpmc p m.common.tail (λ slot.
                          chains count offered i (λ value. ret (some value))
                            (λ y g. At a (b + 1) rest g)
                            (do_pop_any-Keeps count offered i self mpmc below slot a b rest c fuel
                              covers)
                            (λ y g at. returns count offered i at))))))))
        where
          refused :
              Keeps {A = A} count offered i {B = Option A}
                (ret none)
                (MayReceive a b rest)
                (part a b c)
          refused = returns count offered i (c, refl, covers)
