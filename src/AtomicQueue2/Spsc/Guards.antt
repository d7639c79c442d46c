-- ===== src/AtomicQueue2/Spsc/Guards.antt =====
-- What the two threads share when they look at both counters before they take a ticket, as `try_push`
-- and `try_pop` do.
use atomic_queue_rs.Base.{ℕ, ◌+◌, ◌≤◌, ◌≡◌, ap, List, arith}
use atomic_queue_rs.Program.{Program, ret, stop, atomic}
use atomic_queue_rs.Program.Duo.{Good, Flip}
use atomic_queue_rs.Common.{AtomicQueueCommon}
use atomic_queue_rs.AtomicQueue2.Slots.{Shared}
use atomic_queue_rs.AtomicQueue2.Types.{Queue2}
use atomic_queue_rs.AtomicQueue2.Quiet.{Quiet}
use atomic_queue_rs.AtomicQueue2.Spsc.{Producer, Consumer, Shares}

-- How far a thread has come, and the counter of the other thread as it was last seen.
pub record Watching (G : Type 0) : Type 0 where
  pub own : G
  pub seen : ℕ

abbrev pub watching : {G : Type 0} → G → ℕ → Watching G
watching g n = record { own = g; seen = n }

pub record Guards {A : Type 0} (self : Queue2) (xs : List A) (g : Watching Producer)
    (h : Watching Consumer) (m : Shared A) : Type 0 where
  pub shares : Shares self xs g.own h.own m
  pub tail_seen : g.seen ≤ h.own.claimed
  pub room : g.own.claimed ≤ g.seen + self.capacity
  pub head_seen : h.seen ≤ g.own.claimed
  pub there : h.own.claimed ≤ h.seen

module _ {A : Type 0} (self : Queue2) (xs : List A) where
  -- A part of a call that leaves the counters alone.
  pub Good-left :
      {B : Type 0} (p : Program (Shared A) B) (Ends : B → Producer → Type 0) (g : Producer) (n : ℕ)
      → Quiet p
      → Good (Shares self xs) p Ends g
      → Good (Guards self xs) p (λ b w. Ends b w.own) (watching g n)
  Good-left (ret b) Ends g n quiet good = good
  Good-left (stop e) Ends g n quiet good = good
  Good-left (atomic update next) Ends g n quiet good = λ h m s.
      let (g', shares, rest) = good h.own m s.shares in
      let same = ap (λ (c : AtomicQueueCommon). c.head) (quiet m).0 in
      let claimed : g'.claimed ≡ g.claimed =
        omega (arith, same, shares.head_at, s.shares.head_at) in
      (
        watching g' n,
        record {
          shares = shares;
          tail_seen = s.tail_seen;
          room = omega (arith, claimed, s.room);
          head_seen = omega (arith, claimed, s.head_seen);
          there = s.there;
        },
        Good-left (next m) Ends g' n (quiet m).1 rest,
      )

  pub Good-right :
      {B : Type 0} (p : Program (Shared A) B) (Ends : B → Consumer → Type 0) (h : Consumer) (n : ℕ)
      → Quiet p
      → Good (Flip (Shares self xs)) p Ends h
      → Good (Flip (Guards self xs)) p (λ b w. Ends b w.own) (watching h n)
  Good-right (ret b) Ends h n quiet good = good
  Good-right (stop e) Ends h n quiet good = good
  Good-right (atomic update next) Ends h n quiet good = λ g m s.
      let (h', shares, rest) = good g.own m s.shares in
      let same = ap (λ (c : AtomicQueueCommon). c.tail) (quiet m).0 in
      let claimed : h'.claimed ≡ h.claimed =
        omega (arith, same, shares.tail_at, s.shares.tail_at) in
      (
        watching h' n,
        record {
          shares = shares;
          tail_seen = omega (arith, claimed, s.tail_seen);
          room = s.room;
          head_seen = s.head_seen;
          there = omega (arith, claimed, s.there);
        },
        Good-right (next m) Ends h' n (quiet m).1 rest,
      )
