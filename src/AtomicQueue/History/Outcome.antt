-- ===== src/AtomicQueue/History/Outcome.antt =====
-- What all threads have sent and received, in every interleaving.
use mathlib.Core.Path.{subst}
use mathlib.Core.List.{append-nil, append_assoc}
use atomic_queue_rs.Base.{
  ℕ, ◌^◌, ◌≤◌, ◌<◌, ◌≡◌, refl, sym, ◌∙◌, Bool, true, false, Option, none, some, List, [], ◌∷◌, ◌++◌,
  arith, length-replicate, get_or-replicate,
}
use atomic_queue_rs.Program.{Program, ret, stop, atomic, ◌>>=◌, Profile}
use atomic_queue_rs.Program.Threads.{System, Reach, NoJob}
use atomic_queue_rs.Program.Many.{Steady, Steady->>=, AllSteady, Reach-AllSteady}
use atomic_queue_rs.Common.Traffic.{Action, AllSend, and_sent, and_received, perform}
use atomic_queue_rs.AtomicQueue.{Queue, fresh, ops, push, pop, try_push, try_pop}
use atomic_queue_rs.AtomicQueue.Value.{Element, size_of, Shared}
use atomic_queue_rs.AtomicQueue.Valid.{slot, IsElement, IsQueue}
use atomic_queue_rs.AtomicQueue.History.{share, Tickets, Part, resting, Stands, Core, Inv}
use atomic_queue_rs.AtomicQueue.History.Share.{share-Gap}
use atomic_queue_rs.AtomicQueue.History.Pushing.{
  NoUndefined, At, Sends, push-Steady, try_push-Steady,
}
use atomic_queue_rs.AtomicQueue.History.Popping.{Receives, pop-Steady, try_pop-Steady}

-- What the calls of a thread add to what it had sent and received.
abbrev Done : List ℕ → List ℕ → List ℕ × List ℕ → Part → Type 0
Done a b r g = At (a ++ r.0) (b ++ r.1) g

module _ (p : Profile) {self : Queue} (q : IsQueue self) (T : Element) (wide : size_of T ≡ 8)
    (fuel i : ℕ) where
  abbrev Steadily : {B : Type 0} → Program Shared B → (B → Part → Type 0) → Part → Type 0
  Steadily c E g = Steady (Inv self) NoUndefined i c E g

  abbrev calls : List (Action ℕ) → Program Shared (List ℕ × List ℕ)
  calls cs = perform (ops p self T fuel) cs

  -- After a call, the rest of the calls.
  after_push :
      (x : ℕ) (word : IsElement x) (cs : List (Action ℕ)) (a b : List ℕ) (sent : Bool) (g : Part)
      → ((a b : List ℕ) (g : Part) → At a b g → Steadily (calls cs) (Done a b) g)
      → Sends q i x word a b sent g
      → Steadily (calls cs >>= λ r. ret (and_sent sent x r)) (Done a b) g
  after_push x word cs a b true g rest at =
      Steady->>= (Inv self) NoUndefined i (calls cs) (λ r. ret (and_sent true x r))
        (Done (a ++ x ∷ []) b) (Done a b) g (rest (a ++ x ∷ []) b g at)
        (λ r h e. subst (λ l. At l (b ++ r.1) h) (append_assoc a (x ∷ []) r.0) e)
  after_push x word cs a b false g rest at =
      Steady->>= (Inv self) NoUndefined i (calls cs) (λ r. ret (and_sent false x r)) (Done a b)
        (Done a b) g (rest a b g at) (λ r h e. e)

  after_pop :
      (cs : List (Action ℕ)) (a b : List ℕ) (received : Option ℕ) (g : Part)
      → ((a b : List ℕ) (g : Part) → At a b g → Steadily (calls cs) (Done a b) g)
      → Receives q i a b received g
      → Steadily (calls cs >>= λ r. ret (and_received received r)) (Done a b) g
  after_pop cs a b (some y) g rest at =
      Steady->>= (Inv self) NoUndefined i (calls cs) (λ r. ret (and_received (some y) r))
        (Done a (b ++ y ∷ [])) (Done a b) g (rest a (b ++ y ∷ []) g at)
        (λ r h e. subst (λ l. At (a ++ r.0) l h) (append_assoc b (y ∷ []) r.1) e)
  after_pop cs a b none g rest at =
      Steady->>= (Inv self) NoUndefined i (calls cs) (λ r. ret (and_received none r)) (Done a b)
        (Done a b) g (rest a b g at) (λ r h e. e)

  perform-Steady :
      (cs : List (Action ℕ))
      → AllSend IsElement cs
      → (a b : List ℕ) (g : Part) → At a b g
      → Steadily (calls cs) (Done a b) g
  unfolding perform ops
  perform-Steady [] words a b g at =
      subst (λ l. At l (b ++ []) g) (sym (append-nil a))
        (subst (λ l. At a l g) (sym (append-nil b)) at)
  perform-Steady (Action.push x ∷ cs) words a b g at =
      Steady->>= (Inv self) NoUndefined i (push p self T x) _ (λ _ g. At (a ++ x ∷ []) b g)
        (Done a b) g
        (subst (Steadily (push p self T x) (λ _ g. At (a ++ x ∷ []) b g)) (sym at.1)
          (push-Steady q i x words.0 p T wide a b at.0))
        (λ _ g at. after_push x words.0 cs a b true g (perform-Steady cs words.1) at)
  perform-Steady (Action.try_push x ∷ cs) words a b g at =
      Steady->>= (Inv self) NoUndefined i (try_push p self T x) _ (Sends q i x words.0 a b)
        (Done a b) g
        (subst (Steadily (try_push p self T x) (Sends q i x words.0 a b)) (sym at.1)
          (try_push-Steady q i x words.0 p T wide a b at.0))
        (λ sent g at. after_push x words.0 cs a b sent g (perform-Steady cs words.1) at)
  perform-Steady (Action.pop ∷ cs) words a b g at =
      Steady->>= (Inv self) NoUndefined i (pop p self T fuel) _ (λ y g. At a (b ++ y ∷ []) g)
        (Done a b) g
        (subst (Steadily (pop p self T fuel) (λ y g. At a (b ++ y ∷ []) g)) (sym at.1)
          (pop-Steady q i p T wide a b at.0 fuel))
        (λ y g at. after_pop cs a b (some y) g (perform-Steady cs words) at)
  perform-Steady (Action.try_pop ∷ cs) words a b g at =
      Steady->>= (Inv self) NoUndefined i (try_pop p self T fuel) _ (Receives q i a b) (Done a b) g
        (subst (Steadily (try_pop p self T fuel) (Receives q i a b)) (sym at.1)
          (try_pop-Steady q i p T wide a b at.0 fuel))
        (λ o g at. after_pop cs a b o g (perform-Steady cs words) at)

-- How thread `i` has come out: a thread that has returned has sent the elements of its push tickets,
-- and received the elements of its pop tickets, which are all tickets of a push too.
abbrev pub Accounts :
    (log pusher popper : ℕ → ℕ) → ℕ → ℕ → ℕ → Program Shared (List ℕ × List ℕ) → Type 0
Accounts log pusher popper head tail i (ret (a, b)) =
    (a ≡ share pusher log i head)
    × (b ≡ share popper log i tail)
    × (bound : ℕ) × (bound ≤ head)
    × (b ≡ share popper log i bound)
Accounts log pusher popper head tail i (stop e) = NoUndefined e
Accounts log pusher popper head tail i (atomic update next) = Unit

module _ (p : Profile) {self : Queue} (q : IsQueue self) (T : Element) (wide : size_of T ≡ 8)
    (fuel : ℕ) (cs : ℕ → List (Action ℕ)) where
  -- Thread `i` makes the calls `cs i` of a new queue.
  abbrev pub team : System Shared (List ℕ × List ℕ)
  team = record {
    memory = (fresh self.beyond self.capacity).1;
    thread = λ i. perform (ops p self T fuel) (cs i);
  }

  nothing_yet : Tickets
  nothing_yet = record { log = λ _. 0; pusher = λ _. 0; popper = λ _. 0; stage = λ _. 0 }

  start-Core : Core self (λ _. resting [] [] 0) nothing_yet team.memory
  unfolding nothing_yet
  start-Core = record {
    sized = length-replicate self.capacity 0;
    empty = λ t small e. get_or-replicate self.capacity (slot self t) 0;
    stored = λ t small e. absurd (omega arith);
    fresh = λ t le. refl;
    untaken = λ t le. omega arith;
    words = λ t lt. absurd (omega arith);
    all_stand = λ i. record {
      has_sent = refl;
      has_received = refl;
      bound_head = omega arith;
      bound_tail = omega arith;
      does = λ t lo hi. absurd (omega arith);
    };
  }

  module _ (words : (i : ℕ) → AllSend IsElement (cs i)) {n : ℕ}
      {t : System Shared (List ℕ × List ℕ)} (run : Reach NoJob team n t) (small : n < 2 ^ 64)
      (pushes : t.memory.common.head ≤ self.capacity)
      (pops : t.memory.common.tail ≤ self.capacity) where
    all : AllSteady (Inv self) NoUndefined (λ i. Done [] []) n t
    all =
        Reach-AllSteady (Inv self) NoUndefined (λ i. Done [] [])
          (record {
            parts = λ _. resting [] [] 0;
            shared = nothing_yet;
            inv = record { counted = λ _. omega arith; core = λ _ _ _. start-Core };
            steady = λ i.
                perform-Steady p q T wide fuel i (cs i) (words i) [] [] (resting [] [] 0) (0, refl);
          })
          run

    -- Any number of threads make any push, try_push, pop and try_pop calls on one new AtomicQueue
    -- or AtomicQueueB of eight-byte elements, none of them 0. After every run of fewer than 2^64
    -- steps in which head and tail are at most the capacity, under both profiles and with every
    -- fuel, no behaviour has been undefined, and there are an assignment of elements to the tickets
    -- below head and an assignment of tickets to threads, such that every thread that has returned
    -- has sent exactly the elements of its tickets, and has received the elements of its tickets
    -- below tail, all of them below head, in ticket order: no element is invented or received
    -- twice.
    pub all_accounted :
        (log : ℕ → ℕ) × (pusher : ℕ → ℕ) × (popper : ℕ → ℕ) × ((i : ℕ)
          → Accounts log pusher popper t.memory.common.head t.memory.common.tail i (t.thread i))
    all_accounted =
        let s = all.shared in
        let c = all.inv.core small pushes pops in
        (
          s.log,
          s.pusher,
          s.popper,
          λ i. account s i (t.thread i) (all.parts i) (c.all_stand i) (all.steady i),
        )
      where
        account :
            (s : Tickets) (i : ℕ) (c : Program Shared (List ℕ × List ℕ)) (g : Part)
            → Stands s t.memory.common.head t.memory.common.tail i g
            → Steady (Inv self) NoUndefined i c (Done [] []) g
            → Accounts s.log s.pusher s.popper t.memory.common.head t.memory.common.tail i c
        account s i (ret (a, b)) g st e =
            let (k, same) = e in
            let now : Stands s t.memory.common.head t.memory.common.tail i (resting a b k) =
              subst (Stands s t.memory.common.head t.memory.common.tail i) same st in
            (
              now.has_sent,
              now.has_received
                  ∙ sym (share-Gap s.popper s.log i k t.memory.common.tail now.bound_tail now.does),
              k,
              now.bound_head,
              now.has_received,
            )
        account s i (stop f) g st e = e
        account s i (atomic update next) g st e = tt
