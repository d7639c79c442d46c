-- ===== src/Examples.antt =====
-- The threads of the programs in examples, which use the queues through their trait.
pub mod Blank
pub mod BasicUsage
pub mod Throughput
pub mod PingPong
pub mod Rally
pub mod Shortage
mod Tests
use atomic_queue_rs.Base.{
  ℕ, zero, suc, ◌+◌, ◌*◌, ◌/◌, ◌%◌, ◌^◌, Option, none, some, ltb, ◌==◌, if◌then◌else◌,
}
use atomic_queue_rs.Program.{
  Program, ret, stop, atomic, ◌>>=◌, ◌>>◌, lift, Profile, add_usize, spinning,
}
use atomic_queue_rs.Program.Sides.{on_left, on_right}
use atomic_queue_rs.Common.{AtomicQueueOps}

-- examples/basic_usage.rs. A consumer returns its sum, and a producer 0.
module _ {M : Type 0} (ops : AtomicQueueOps M ℕ) where
  -- A consumer, up to its first `None` or 0; `local_sum` is a `u64`.
  unfoldable pub consumer : Profile → ℕ → ℕ → Program M ℕ
  consumer p zero local_sum = stop spinning
  consumer p (suc fuel) local_sum = do
    popped ← ops.try_pop
    elim popped [
      | none ↦ ret local_sum
      | some n ↦
          let more = lift (add_usize p local_sum n) >>= consumer p fuel in
          if n == 0 then ret local_sum else more
    ]

  -- A producer: `for n in (1..=N).rev() { q.push(n); }`
  unfoldable pub producer : ℕ → Program M ℕ
  producer zero = ret 0
  producer (suc n) = ops.push (suc n) >> producer n

  -- The threads that `main` spawns, consumers first.
  unfoldable pub spawned : Profile → (fuel consumers producers n : ℕ) → ℕ → Program M ℕ
  unfolding consumer producer
  spawned p fuel consumers producers n i =
      if ltb i consumers
      then consumer p fuel 0
      else if ltb i (consumers + producers)
      then producer n
      else ret 0

-- The throughput runs of examples/benchmark.rs, without their barrier and their clocks; the product of
-- the messages and the threads is taken to be below 2^64. Here too a producer returns 0.
module _ {M : Type 0} (ops : AtomicQueueOps M ℕ) where
  -- `while count < messages_per_consumer { if let Some(val) = q.try_pop() { count += 1; } }`
  unfoldable pub receiver : (fuel messages count : ℕ) → Program M ℕ
  receiver zero messages count = stop spinning
  receiver (suc fuel) messages count =
      let again = receiver fuel messages count in
      let counted = receiver fuel messages (suc count) in
      let look = ops.try_pop >>= λ popped. elim popped [ some val ↦ counted | none ↦ again ] in
      if ltb count messages then look else ret count

  -- `for i in 0..messages_per_producer { q.push(T::from(i as u32)); }`, from `i` on.
  unfoldable pub sender : (messages i : ℕ) → Program M ℕ
  sender zero i = ret 0
  sender (suc messages) i = ops.push (i % 2 ^ 32) >> sender messages (suc i)

  -- The threads of a run with `n` producers and as many consumers.
  unfoldable pub throughput : (fuel messages n : ℕ) → ℕ → Program M ℕ
  unfolding receiver sender
  throughput fuel messages n i =
      if ltb i n
      then receiver fuel (messages * n / n) 0
      else if ltb i (n + n)
      then sender (messages / n) 0
      else ret 0

-- The ping-pong of examples/benchmark.rs, on queues `q1` and `q2`.
module _ {M N : Type 0} (q1 : AtomicQueueOps M ℕ) (q2 : AtomicQueueOps N ℕ) where
  -- `for i in 0..ITERATIONS { q1.push(T::from(i as u32)); q2.pop(); }`, from `i` on.
  unfoldable pub ping : (rounds i : ℕ) → Program (M × N) (Unit {0})
  ping zero i = ret tt
  ping (suc rounds) i = do on_left (q1.push (i % 2 ^ 32)); _ ← on_right q2.pop; ping rounds (suc i)

  -- `for _ in 0..ITERATIONS { let val = q1.pop(); q2.push(val); }`
  unfoldable pub pong : ℕ → Program (M × N) (Unit {0})
  pong zero = ret tt
  pong (suc rounds) = do val ← on_left q1.pop; on_right (q2.push val); pong rounds
