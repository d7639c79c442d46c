-- ===== src/Lib.antt =====
-- atomic_queue_rs: bounded queues that several threads share without locks, on ring buffers with
-- two atomic counters (the directory src; programs that use them are in examples).
--
-- A queue gives every push a ticket from the counter head and every pop one from the counter
-- tail; a ticket stands for the slot at its remainder by the capacity. AtomicQueue and
-- AtomicQueueB keep an element in an atomic word, in which 0 marks a free slot. AtomicQueue2 and
-- AtomicQueueB2 keep elements of any type, with an atomic state, EMPTY or FULL, beside each, and
-- may shuffle the slots (arch.rs) to keep neighbours on different cache lines. All four implement
-- the trait AtomicQueueOps of common.rs.
--
-- How the program is modelled. A method is a tree of atomic accesses to the shared memory
-- (Program): one definition is run alone by `run`, and interleaved with others by
-- Program.Threads, where any thread may make the next access. Memory orderings are read as
-- sequentially consistent. A usize is a natural number below 2^64, with wrap-around written out;
-- `+` and `-` panic on overflow in a debug build and wrap in a release build, so every method
-- takes the profile. The target is a 64-bit little-endian machine. A fault is a value: a panic,
-- undefined behaviour (an access out of bounds, a read of uninitialized memory, a transmute_copy
-- beyond its source), or a wait loop whose fuel has run out. Theorems about the results of a
-- thread that is alone hold for every positive fuel, so they say that one round of each wait loop
-- is enough; those about every interleaving hold for every fuel, and a wait may then run out of
-- it.
--
-- The files, with the code that they model:
--
-- - Base and the files below it: tests, lists, words and bits, shared by all.
-- - Program, with Faults, Laws, Threads, Rely, Duo, Many, Within, Still, Sides, Streams and
--   Turns: programs of atomic accesses, checked arithmetic, the steps of threads,
--   rely-guarantee reasoning about them (Protocol, Safe), about two threads with ghost states
--   of their own (Good, Both) and about any number (Steady, AllSteady), bounds on the accesses
--   of a thread (Within), threads that keep one property of the memory (Still), programs that
--   use two queues (Sides), threads that send and receive a list, and schedules in which two
--   threads take turns.
-- - Arch (src/arch.rs): round_up_to_power_of_2, get_cache_line_index_bits,
--   get_index_shuffle_bits, remap_index and the cache line sizes; proofs in Arch.RoundUp,
--   Arch.Remap and Arch.Shuffle.
-- - Utils (src/utils.rs): the index strategies, and uninitialized_fill_n and destroy_n on a
--   memory of cells, which AlignedArray is; proofs in Utils.Laws and Utils.Aligned. The queues
--   do not use them.
-- - Fifo: the bounded first-in first-out queue, which is the specification of the trait.
-- - Common (src/common.rs): AtomicQueueCommon, AtomicQueueOps and OptimistAtomicQueueOps;
--   Common.Client makes calls, Common.Sequential is the interface between a queue and the
--   specification, Common.Waiting proves the waiting methods of the second trait from it,
--   Common.Traffic makes calls and returns what they have sent and received, and Common.Tickets
--   is what threads keep of the counters.
-- - Ring, with the files below it: windows and counters of a ring buffer, one round through its
--   slots (Around), and a head that a waiting pop has passed (Passed), shared by both families
--   of queues.
-- - AtomicQueue (src/atomic_queue.rs): Value is AtomicValue; `Queue`, `new`, `get_element`,
--   `try_push`, `try_pop`, `push` and `pop` are the methods of both types, `new_b` is the
--   constructor of AtomicQueueB. `take_value` is the loop that try_pop and pop share. `drop_b`
--   is the Drop of AtomicQueueB. Valid, Refine, Contents, Run, Waiting, New, Hazards, Races and
--   Threads hold the proofs. Once is about one producer and one consumer that use no slot
--   twice, and History about any number of threads that use none twice: Share is what a thread
--   gets of the tickets, Claims, Storing and Taking are the accesses, Pushing, Popping and
--   Outcome the methods and the runs. WaitFree bounds the accesses of the methods that send.
-- - AtomicQueue2 (src/atomic_queue2.rs): Slots are the arrays, Types the types and
--   constructors, Access get_slot, do_pop_any and do_push_any, Drop the two Drop
--   implementations, and the parent the methods. The const parameters of the types are fields
--   of Queue2. Valid, Holds, Refine, Take, Run, New, Quiet, Waits, Threads, Races, Unordered
--   and Drop.Laws hold the proofs. Spsc is the client that the mode SPSC is for, one thread
--   that pushes and one that pops, with what the two share: Slots, Pushing, Popping, Fifo and
--   Turns for push and pop, and Guards, TryPushing, TryPopping and Optimist for optimist_push
--   and optimist_pop; Rest is about the queue that they leave, and its Drop. Conserved is about
--   any number of threads with any calls, in MPMC mode: Weights counts the FULL slots, Moves
--   are the exchanges of their states, Loops, Methods and Outcome are the slots, the methods
--   and the runs.
-- - Examples (examples): the threads of basic_usage.rs and benchmark.rs, as programs over any
--   AtomicQueueOps. Blank, BasicUsage, Throughput and PingPong are about them on the queues of
--   src/atomic_queue.rs, Rally and Shortage about the ping-pong and the throughput runs on
--   those of src/atomic_queue2.rs.
--
-- Fuel. The loops of take_value, pop_spsc, pop_mpmc, await_state, push_spsc and push_mpmc wait
-- for another thread; without one they need one round if the queue is not empty or not full, and
-- no fuel is enough otherwise.
--
-- Constructors. An array of more than isize::MAX bytes makes them panic (array_layout); `padded`
-- and `bytes` are the sizes of a padded word and of an element.
--
-- Not modelled: weaker memory orderings; a failure of the allocator, and deallocation;
-- destructors of the elements; the Debug output of AlignedArray; CachePadded of crossbeam, whose
-- size is the parameter `padded`; the barrier, clocks, output and joins of the examples; tests
-- and benchmarks of the directories tests and benches.
pub mod Base
pub mod Program
pub mod Arch
pub mod Utils
pub mod Common
pub mod Fifo
pub mod Ring
pub mod AtomicQueue
pub mod AtomicQueue2
pub mod Examples
