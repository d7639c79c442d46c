-- ===== src/AtomicQueue2/Spsc/TryPopping.antt =====
-- Each access of `try_pop` keeps what the two threads share.
use mathlib.Core.Path.{subst}
use atomic_queue_rs.Base.{
  ℕ, ◌+◌, ◌^◌, ◌<◌, ◌≡◌, refl, sym, Bool, true, Option, none, some, List, arith, wrapping_add,
  eq→==, ◌==◌,
}
use atomic_queue_rs.Program.{ret, ◌>>=◌, Profile}
use atomic_queue_rs.Program.Laws.{add_usize_fits}
use atomic_queue_rs.Program.Duo.{Good, Good->>=, Good-if, Flip}
use atomic_queue_rs.Common.{set_tail}
use atomic_queue_rs.AtomicQueue2.{try_pop, claim_tail}
use atomic_queue_rs.AtomicQueue2.Types.{Queue2}
use atomic_queue_rs.AtomicQueue2.Slots.{Shared}
use atomic_queue_rs.AtomicQueue2.Access.{get_slot, do_pop_any}
use atomic_queue_rs.AtomicQueue2.Quiet.{do_pop_any-Quiet}
use atomic_queue_rs.AtomicQueue2.Valid.{slot, IsQueue, get_slot_lem}
use atomic_queue_rs.AtomicQueue2.Spsc.{Producer, Consumer, Shares, popped}
use atomic_queue_rs.AtomicQueue2.Spsc.Popping.{claiming, claim-Shares, do_pop_any-Good, Next}
use atomic_queue_rs.AtomicQueue2.Spsc.Guards.{Watching, watching, Guards, Good-right}

module _ {A : Type 0} (p : Profile) {periodic : Bool} {self : Queue2} (q : IsQueue periodic self)
    (xs : List A) (r : ℕ) where
  -- The ticket `r` is taken when `head` was last seen at `n`.
  claim-Guards :
      (n : ℕ) (g : Watching Producer) (m : Shared A)
      → r + 1 < 2 ^ 64
      → r < n
      → Guards self xs g (watching (popped r) n) m
      → Guards self xs g (watching (claiming r) n) (set_tail (r + 1) m)
  claim-Guards n g m small ready s =
      let e : wrapping_add m.common.tail 1 ≡ r + 1 = omega (arith, s.shares.tail_at) in
      record {
        shares =
            subst (λ (v : ℕ). Shares self xs g.own (claiming r) (set_tail v m)) e
              (claim-Shares q xs r g.own m small s.shares);
        tail_seen = omega (arith, s.tail_seen);
        room = s.room;
        head_seen = s.head_seen;
        there = omega arith;
      }

  abbrev Claimed : ℕ → Bool → Watching Consumer → Type 0
  Claimed n b h = (b ≡ true) × (h ≡ watching (claiming r) n)

  claim_tail-Good :
      (n : ℕ)
      → r + 1 < 2 ^ 64
      → r < n
      → Good (Flip (Guards self xs)) (claim_tail p self r) (Claimed n) (watching (popped r) n)
  unfolding claim_tail
  claim_tail-Good n small ready =
      Good-if (Flip (Guards self xs)) self.total_order _ _ (Claimed n) (watching (popped r) n)
        (λ _. rw (add_usize_fits p r 1 small) (λ g m s. (
          watching (claiming r) n,
          rw (eq→== m.common.tail r s.shares.tail_at) (claim-Guards n g m small ready s),
          (eq→== m.common.tail r s.shares.tail_at, refl),
        )))
        (λ _. λ g m s.
          let e : r + 1 ≡ wrapping_add m.common.tail 1 = omega (arith, s.shares.tail_at) in
          (
            watching (claiming r) n,
            subst (λ (v : ℕ). Guards self xs g (watching (claiming r) n) (set_tail v m)) e
                (claim-Guards n g m small ready s),
            (refl, refl),
          ))

  -- Whether the next element has been popped.
  abbrev pub Pops : Option A → Watching Consumer → Type 0
  Pops none h = h.own ≡ popped r
  Pops (some x) h = Next p q xs r x h.own

  module _ (fuel : ℕ) (spsc : self.spsc ≡ true) (small : r + 1 < 2 ^ 64) where
    take-Good :
        (n : ℕ)
        → Good
            (Flip (Guards self xs))
            (do slot ← get_slot p self r; value ← do_pop_any self fuel slot; ret (some value))
            Pops
            (watching (claiming r) n)
    take-Good n = rw (get_slot_lem q p {A = A} r) (
        Good->>= (Flip (Guards self xs)) (do_pop_any self fuel (slot self r))
          (λ value. ret (some value)) (λ x h. Next p q xs r x h.own) Pops (watching (claiming r) n)
          (Good-right self xs (do_pop_any self fuel (slot self r)) (Next p q xs r) (claiming r) n
            (do_pop_any-Quiet A self fuel (slot self r)) (do_pop_any-Good p q xs r fuel spsc))
          (λ _ h e. e))

    pub try_pop-Good :
        (n : ℕ) → Good (Flip (Guards self xs)) (try_pop p self fuel) Pops (watching (popped r) n)
    unfolding try_pop
    try_pop-Good n = λ g m s. (
      watching (popped r) n,
      s,
      λ g1 m1 s1. (
        watching (popped r) g1.own.claimed,
        record {
          shares = s1.shares;
          tail_seen = s1.tail_seen;
          room = s1.room;
          head_seen = omega arith;
          there = omega (arith, s1.head_seen, s1.there);
        },
        rw (s.shares.tail_at, s1.shares.head_at)
            (Good-if (Flip (Guards self xs)) (r == g1.own.claimed) _ _ Pops
              (watching (popped r) g1.own.claimed) (λ _. refl)
              (λ ready.
                Good->>= (Flip (Guards self xs)) (claim_tail p self r) _ (Claimed g1.own.claimed)
                  Pops (watching (popped r) g1.own.claimed)
                  (claim_tail-Good g1.own.claimed small
                    (ground (arith, ready, s1.head_seen, s1.there)))
                  (λ b h e. rw e.0 (
                    subst (Good (Flip (Guards self xs)) _ Pops) (sym e.1)
                      (take-Good g1.own.claimed))))),
      ),
    )
