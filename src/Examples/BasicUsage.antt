-- ===== src/Examples/BasicUsage.antt =====
-- The run of examples/basic_usage.rs, whose queue is an `AtomicQueueB` of four-byte elements.
use atomic_queue_rs.Base.{ℕ, zero, suc, ◌+◌, ◌≤◌, ◌<◌, ◌≡◌, refl, none, ltb, lt→ltb, le→ltb, arith}
use atomic_queue_rs.Program.{ret, Profile, ok}
use atomic_queue_rs.Program.Threads.{System, Reach, NoJob}
use atomic_queue_rs.Program.Still.{Returns, Still, Still->>=, Still-if, Reach-Returns}
use atomic_queue_rs.AtomicQueue.{QueueB, new_b, ops, ops_b, push, try_pop}
use atomic_queue_rs.AtomicQueue.Value.{Element, size_of, Shared}
use atomic_queue_rs.Examples.{consumer, producer, spawned}
use atomic_queue_rs.Examples.Blank.{Blank, new_b-Blank, try_pop-Still, push_narrow-Still}

module _ (p : Profile) (self : QueueB) (T : Element) (wait fuel consumers producers n : ℕ) where
  -- A thread that returns is a consumer, and its sum is 0.
  abbrev pub Idle : ℕ → ℕ → Type 0
  Idle i sum = (i < consumers) × (sum ≡ 0)

  consumer-Still :
      (i rounds : ℕ)
      → i < consumers
      → Still Blank (Idle i) (consumer (ops_b p self T wait) p rounds 0)
  unfolding consumer ops_b ops
  consumer-Still i zero below = tt
  consumer-Still i (suc rounds) below =
      Still->>= Blank (λ o. o ≡ none) (Idle i) (try_pop p self T wait) _
        (try_pop-Still p self T wait) (λ o e. rw e (below, refl))

  producer-Still :
      (i : ℕ) → size_of T < 8 → Still Blank (Idle i) (producer (ops_b p self T wait) (suc n))
  unfolding producer ops_b ops
  producer-Still i narrow =
      Still->>= Blank (λ _. ⊥) (Idle i) (push p self T (suc n)) _
        (push_narrow-Still p self T (suc n) narrow) (λ _ stuck. absurd stuck)

  spawned-Still :
      (i : ℕ)
      → size_of T < 8
      → i < consumers + producers
      → Still Blank (Idle i) (spawned (ops_b p self T wait) p fuel consumers producers (suc n) i)
  unfolding spawned
  spawned-Still i narrow below =
      Still-if Blank (Idle i) (ltb i consumers) _ _
        (λ first. consumer-Still i fuel (ground (arith, first)))
        (λ _. rw (lt→ltb i (consumers + producers) below) (producer-Still i narrow))

  spawned-beyond :
      (j : ℕ)
      → consumers + producers ≤ j
      → spawned (ops_b p self T wait) p fuel consumers producers (suc n) j ≡ ret 0
  unfolding spawned
  spawned-beyond j beyond =
      rw (le→ltb j consumers (omega arith), le→ltb j (consumers + producers) beyond) refl

  -- With any numbers of consumers and producers of the basic_usage example on a new AtomicQueueB of
  -- elements of fewer than eight bytes, where each producer has an element to push: in every run,
  -- whatever the fuel, a thread that returns is a consumer, and its sum is 0.
  pub basic_usage_fails :
      (padded capacity : ℕ) (m : Shared) {k : ℕ} {t : System Shared ℕ}
      → size_of T < 8
      → new_b p padded capacity ≡ ok (self, m)
      → Reach NoJob
          (record {
            memory = m;
            thread = spawned (ops_b p self T wait) p fuel consumers producers (suc n);
          })
          k
          t
      → (i : ℕ) → i < consumers + producers
      → Returns (λ sum. (i < consumers) × (sum ≡ 0)) (t.thread i)
  basic_usage_fails padded capacity m narrow made run i below =
      Reach-Returns Blank Idle (consumers + producers) (new_b-Blank p padded capacity self m made)
        (λ j. spawned-Still j narrow) (λ j beyond. (0, spawned-beyond j beyond)) run i below
