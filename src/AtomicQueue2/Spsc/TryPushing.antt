-- ===== src/AtomicQueue2/Spsc/TryPushing.antt =====
-- Each access of `try_push` keeps what the two threads share.
use mathlib.Core.Path.{subst}
use atomic_queue_rs.Base.{
  ℕ, suc, ◌+◌, ◌-◌, ◌^◌, ◌<◌, ◌≡◌, refl, sym, Bool, true, false, some, List, length, arith,
  wrapping_add, eq→==, leb,
}
use atomic_queue_rs.Program.{ret, ◌>>=◌, ◌>>◌, Profile}
use atomic_queue_rs.Program.Laws.{add_usize_fits, sub_usize_fits}
use atomic_queue_rs.Program.Duo.{Good, Good->>=, Good-if}
use atomic_queue_rs.Common.{set_head}
use atomic_queue_rs.AtomicQueue2.{try_push, claim_head}
use atomic_queue_rs.AtomicQueue2.Slots.{Shared}
use atomic_queue_rs.AtomicQueue2.Types.{Queue2}
use atomic_queue_rs.AtomicQueue2.Access.{get_slot, do_push_any}
use atomic_queue_rs.AtomicQueue2.Quiet.{do_push_any-Quiet}
use atomic_queue_rs.AtomicQueue2.Valid.{slot, IsQueue, get_slot_lem}
use atomic_queue_rs.AtomicQueue2.Spsc.{Producer, Consumer, Shares, pushed}
use atomic_queue_rs.Program.Streams.{get_elem?}
use atomic_queue_rs.AtomicQueue2.Spsc.Pushing.{claiming, claim-Shares, do_push_any-Good}
use atomic_queue_rs.AtomicQueue2.Spsc.Guards.{Watching, watching, Guards, Good-left}

module _ {A : Type 0} (p : Profile) {periodic : Bool} {self : Queue2} (q : IsQueue periodic self)
    (xs : List A) (w : ℕ) where
  -- The ticket `w` is taken when `tail` was last seen at `t`.
  claim-Guards :
      (t : ℕ) (h : Watching Consumer) (m : Shared A)
      → w + 1 < 2 ^ 64
      → w < t + self.capacity
      → Guards self xs (watching (pushed w) t) h m
      → Guards self xs (watching (claiming w) t) h (set_head (w + 1) m)
  claim-Guards t h m small free s =
      let e : wrapping_add m.common.head 1 ≡ w + 1 = omega (arith, s.shares.head_at) in
      record {
        shares =
            subst (λ (v : ℕ). Shares self xs (claiming w) h.own (set_head v m)) e
              (claim-Shares q xs w h.own m small s.shares);
        tail_seen = s.tail_seen;
        room = omega arith;
        head_seen = omega (arith, s.head_seen);
        there = s.there;
      }

  abbrev Claimed : ℕ → Bool → Watching Producer → Type 0
  Claimed t b g = (b ≡ true) × (g ≡ watching (claiming w) t)

  claim_head-Good :
      (t : ℕ)
      → w + 1 < 2 ^ 64
      → w < t + self.capacity
      → Good (Guards self xs) (claim_head p self w) (Claimed t) (watching (pushed w) t)
  unfolding claim_head
  claim_head-Good t small free =
      Good-if (Guards self xs) self.total_order _ _ (Claimed t) (watching (pushed w) t)
        (λ _. rw (add_usize_fits p w 1 small) (λ h m s. (
          watching (claiming w) t,
          rw (eq→== m.common.head w s.shares.head_at) (claim-Guards t h m small free s),
          (eq→== m.common.head w s.shares.head_at, refl),
        )))
        (λ _. λ h m s.
          let e : w + 1 ≡ wrapping_add m.common.head 1 = omega (arith, s.shares.head_at) in
          (
            watching (claiming w) t,
            subst (λ (v : ℕ). Guards self xs (watching (claiming w) t) h (set_head v m)) e
                (claim-Guards t h m small free s),
            (refl, refl),
          ))

  -- Whether the element has been pushed.
  abbrev pub Pushes : Bool → Watching Producer → Type 0
  Pushes true g = g.own ≡ pushed (suc w)
  Pushes false g = g.own ≡ pushed w

  module _ (x : A) (here : get_elem? xs w ≡ some x) (more : w < length xs) (fuel : ℕ)
      (spsc : self.spsc ≡ true) (small : w + 1 < 2 ^ 64) where
    fill-Good :
        (t : ℕ)
        → Good
            (Guards self xs)
            (do slot ← get_slot p self w; do_push_any self fuel x slot; ret true)
            Pushes
            (watching (claiming w) t)
    fill-Good t = rw (get_slot_lem q p {A = A} w) (
        Good->>= (Guards self xs) (do_push_any self fuel x (slot self w)) (λ _. ret true)
          (λ _ g. g.own ≡ pushed (suc w)) Pushes (watching (claiming w) t)
          (Good-left self xs (do_push_any self fuel x (slot self w)) (λ _ g. g ≡ pushed (suc w))
            (claiming w) t (do_push_any-Quiet A self fuel x (slot self w))
            (do_push_any-Good p q xs w x here more fuel spsc))
          (λ _ g e. e))

    pub try_push-Good :
        (n : ℕ) → Good (Guards self xs) (try_push p self fuel x) Pushes (watching (pushed w) n)
    unfolding try_push
    try_push-Good n = λ h m s. (
      watching (pushed w) n,
      s,
      λ h1 m1 s1. (
        watching (pushed w) h1.own.claimed,
        record {
          shares = s1.shares;
          tail_seen = omega arith;
          room = omega (arith, s1.room, s1.tail_seen);
          head_seen = s1.head_seen;
          there = s1.there;
        },
        rw
            (
              s.shares.head_at,
              s1.shares.tail_at,
              sub_usize_fits p w h1.own.claimed (omega (arith, s1.head_seen, s1.there))
                  (omega arith),
            )
            (Good-if (Guards self xs) (leb self.capacity (w - h1.own.claimed)) _ _ Pushes
              (watching (pushed w) h1.own.claimed) (λ _. refl)
              (λ room.
                Good->>= (Guards self xs) (claim_head p self w) _ (Claimed h1.own.claimed) Pushes
                  (watching (pushed w) h1.own.claimed)
                  (claim_head-Good h1.own.claimed small
                    (ground (arith, room, s1.head_seen, s1.there)))
                  (λ b g e. rw e.0 (
                    subst (Good (Guards self xs) _ Pushes) (sym e.1) (fill-Good h1.own.claimed))))),
      ),
    )
